-- ===== src/Lib.antt =====
-- The radix tree of the repository and the libraries of routes over it.
--
-- src/freebsd/radix.c keeps routes, pairs of a key and a mask, in a Patricia tree on the bits of the
-- keys. Routes with one key form a chain at a leaf; masks are interned in a tree of their own; and
-- inner nodes carry lists of the masks of routes below them, which a lookup consults on its way up.
-- src/lib/route_lib_stubs.c is the library of routing tables over the tree's callbacks, with a lock
-- and statistics. src/radix_stubs.c is a list with the tree's interface.
--
-- Common: tests, lists, integers, bytes and binary digits over the native numbers.
-- Radix.Memory: `struct radix_node`, `struct radix_mask` and the heads of src/freebsd/radix.h on an
--   explicit heap, and the commands on it. `none` is a fault or fuel used up.
-- Radix.Masks: LEN, rn_refines, rn_lexobetter, rn_satisfies_leaf, and the parts of rn_addmask on bytes.
-- Radix.Search: rn_search, rn_search_m, and the comparison of a key with a leaf's.
-- Radix.Match: rn_match, rn_nextprefix.
-- Radix.Insert: rn_newpair, rn_insert, rn_inithead_internal.
-- Radix.AddMask: rn_addmask, rn_new_radix_mask, rn_lookup.
-- Radix.AddRoute: rn_addroute, in the steps that its comments name.
-- Radix.Delete: rn_delete, likewise.
-- Radix.Walk: rn_walktree, rn_walktree_from, rn_inithead, rn_freeentry, rn_detachhead.
-- Radix.Tree: the abstract tree that a heap holds, its conditions, and insertion into it.
--   Tree.State bundles them as the well-formed states.
--   Tree.Host: trees of host routes, on which the climb of rn_match is followed.
-- Sockaddr: socket addresses as bytes.
-- Stubs: src/radix_stubs.c.
-- RouteLib: src/include/route_lib.h and the interface of tree operations; RouteLib.LibStubs:
--   src/lib/route_lib_stubs.c, with the lock of src/kernel_compat/compat_shim.h.
-- Xnu.Epoch: the epochs of src/xnu_kernel/xnu_freebsd_radix.h and .c. Reader: entering and leaving a
--   section; Grace: grace periods and their worker; Pressure: the account of callbacks. Epoch.System
--   lets readers on all processors and the worker interleave, a processor at a time in its loops.
-- Xnu.Rmlock: the lock over an epoch, there and in src/xnu_kernel/xnu_rmlock_advanced.c. Readers: the
--   table of readers; Writers: the queue of writers; Lock: attempts and releases.
--
-- Functions keep the source's names; a loop or a stage of a long function has a name of its own and
-- the source's line above it. A pointer into a byte string is the rest of the bytes, and a read past
-- their end is a fault. Allocation takes the next of a given list of addresses, NULL at its end.
--
-- Fuel: the loops on the tree take fuel that bounds the depth of the tree or the length of a chain or
-- list. Each round of a descent tests a later bit, so the theorems ask for more fuel than there are
-- bits between the tree's offset and the end of the keys, and then prove that the function returns.
-- The loops that shift a byte have eight rounds, as many as a byte has bits.
--
-- Not modelled: src/route_lib.c, src/radix_adapter.c and src/radix_minimal.c, wrappers beside the
-- ones above; src/freebsd/radix_userland.c, which repeats radix.c; of src/xnu_kernel the allocation
-- and release of epochs and locks, dumps and statistics, the blocking acquisitions, the tuning in
-- floating point, and the half of the file from line 1240 on, whose fields the structure lacks; the
-- routing stack in the rest of src/freebsd, which the default build leaves out; debugging output,
-- RN_DEBUG, tests and examples. Indices of bits are not narrowed to 16 bits: keys have at most 255
-- bytes, so that they stay in range. The int rm_refs of a mask is not bounded, the int count of the
-- list table is. Outside Xnu one thread at a time runs; in Xnu a step is one access to what threads
-- share, or one block under a spin lock, and memory is sequentially consistent. What the kernel
-- answers during a call, the processor, the thread, the time, is an argument of the call.
pub mod Common
pub mod Radix
pub mod Sockaddr
pub mod Stubs
pub mod RouteLib
pub mod Xnu
