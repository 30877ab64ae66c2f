-- ===== src/Radix/Memory.antt =====
-- The structures of src/freebsd/radix.h on an explicit heap, and the commands that read and write
-- them. An address is a number and NULL is 0. Nodes, masks and byte strings have a store each.
pub mod Laws
use freebsd_radix_userland.Common.{
  ℕ, ◌+◌, Bool, Option, none, some, List, [], ◌∷◌, ◌==◌, if◌then◌else◌, and_then,
}
use freebsd_radix_userland.Common.Int.{ℤ}

abbrev pub Ptr : Type 0
Ptr = ℕ

abbrev pub null : Ptr
null = 0

-- `rn_flags`, one field for each of RNF_NORMAL, RNF_ROOT and RNF_ACTIVE.
pub record Flags : Type 0 where
  pub normal : Bool
  pub root : Bool
  pub active : Bool

-- `struct radix_node`. The two arms of the union are separate fields: a node is used either as a
-- leaf or as an inner node, as `rn_bit` says.
pub record RadixNode : Type 0 where
  pub rn_mklist : Ptr
  pub rn_parent : Ptr
  pub rn_bit : ℤ
  pub rn_bmask : ℕ
  pub rn_flags : Flags
  pub rn_key : Ptr
  pub rn_mask : Ptr
  pub rn_dupedkey : Ptr
  pub rn_offset : ℕ
  pub rn_left : Ptr
  pub rn_right : Ptr

-- `struct radix_mask`; here the arms of the union are separate fields too.
pub record RadixMask : Type 0 where
  pub rm_bit : ℤ
  pub rm_flags : Flags
  pub rm_mklist : Ptr
  pub rm_mask : Ptr
  pub rm_leaf : Ptr
  pub rm_refs : ℤ

-- `struct radix_head` with its `struct radix_mask_head`: the top of the tree of routes, and the
-- three nodes and the top of the tree of masks. No operation changes them after `rn_inithead`.
pub record RadixHead : Type 0 where
  pub rnh_treetop : Ptr
  pub mask_nodes : Ptr
  pub mask_treetop : Ptr

-- `mallocs` lists what the calls of the allocator to come return; past its end they return NULL.
pub record Heap : Type 0 where
  pub node : Ptr → Option RadixNode
  pub mask : Ptr → Option RadixMask
  pub bytes : Ptr → Option (List ℕ)
  pub mallocs : List Ptr

abbrev pub update : {A : Type 0} → (Ptr → Option A) → Ptr → Option A → Ptr → Option A
update f p v q = if q == p then v else f q

-- A command: `none` is a fault, such as a read through NULL, or a loop that has used up its fuel.
abbrev pub M : Type 0 → Type 0
M A = Heap → Option (A × Heap)

-- `pure r` returns `r`, and `◌>>=◌` passes a result and the heap on.
module _ {A B : Type 0} where
  infixl 5 ◌>>=◌ ◌>>◌
  abbrev pub ◌>>=◌ : M A → (A → M B) → M B
  ◌>>=◌ m f h = and_then (m h) (λ r. f r.0 r.1)

  abbrev pub ◌>>◌ : M A → M B → M B
  m >> k = m >>= λ _. k

abbrev pub pure : {A : Type 0} → A → M A
pure result heap = some (result, heap)

-- Reads, a fault at NULL and at an address that holds nothing.
unfoldable pub load : Heap → Ptr → Option RadixNode
load h p = if p == null then none else h.node p

unfoldable pub load_mask : Heap → Ptr → Option RadixMask
load_mask h p = if p == null then none else h.mask p

unfoldable pub load_bytes : Heap → Ptr → Option (List ℕ)
load_bytes h p = if p == null then none else h.bytes p

-- A computation that only reads, as a command.
abbrev pub reads : {A : Type 0} → (Heap → Option A) → M A
reads f h = and_then (f h) (λ a. some (a, h))

-- Raw writes, and writes of one field through a function.
abbrev pub put : Ptr → RadixNode → M (Unit {0})
put p n h = some (tt, record h { node = update h.node p (some n) })

abbrev pub put_mask : Ptr → Option RadixMask → M (Unit {0})
put_mask p m h = some (tt, record h { mask = update h.mask p m })

abbrev pub put_bytes : Ptr → List ℕ → M (Unit {0})
put_bytes p b h = some (tt, record h { bytes = update h.bytes p (some b) })

unfoldable pub modify : Ptr → (RadixNode → RadixNode) → M (Unit {0})
unfolding load
modify p f h = and_then (load h p) (λ n. put p (f n) h)

unfoldable pub modify_mask : Ptr → (RadixMask → RadixMask) → M (Unit {0})
unfolding load_mask
modify_mask p f h = and_then (load_mask h p) (λ m. put_mask p (some (f m)) h)

-- `R_Malloc` and `R_Zalloc`.
unfoldable pub malloc : M Ptr
malloc h = elim h.mallocs [ [] ↦ some (null, h) | p ∷ ps ↦ some (p, record h { mallocs = ps }) ]

-- `R_Free` of a block of two nodes, and of a mask.
abbrev pub free_pair : Ptr → M (Unit {0})
free_pair p h = some (tt, record h { node = update (update h.node p none) (p + 1) none })

-- `rn_detachhead_internal`: the head's block ends with its three nodes.
abbrev pub free_head : Ptr → M (Unit {0})
free_head p h =
    some (tt, record h { node = update (update (update h.node p none) (p + 1) none) (p + 2) none })

abbrev pub free_mask : Ptr → M (Unit {0})
free_mask p = put_mask p none

-- `rn_zeros` and `rn_ones`.
abbrev pub rn_zeros : Ptr
rn_zeros = 1

abbrev pub rn_ones : Ptr
rn_ones = 2

abbrev pub radix_max_key_len : ℕ
radix_max_key_len = 32
