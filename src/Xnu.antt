-- ===== src/Xnu.antt =====
-- The lock by epochs of src/xnu_kernel.
pub mod Family
pub mod Epoch
pub mod Rmlock
pub mod Tests
