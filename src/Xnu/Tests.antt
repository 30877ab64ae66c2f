-- ===== src/Xnu/Tests.antt =====
-- Tests of the model of src/xnu_kernel, and the theorems at concrete inputs.
pub mod Grace
mod Account
mod Lock
