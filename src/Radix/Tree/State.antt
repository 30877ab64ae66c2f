-- ===== src/Radix/Tree/State.antt =====
-- The well-formed states of the tree of src/freebsd/radix.c.
pub mod Insert
pub mod Lookup
pub mod Match
pub mod Routes
pub mod Init
use freebsd_radix_userland.Common.{
  ℕ, zero, suc, ◌+◌, ◌-◌, ◌*◌, ◌/◌, ◌%◌, ◌≤◌, ◌<◌, ◌≡◌, refl, sym, ◌∙◌, ap, ◌≢◌, ◌⊎◌, bit_xor, inl,
  inr, Bool, true, false, ◌||◌, Option, none, some, List, [], ◌∷◌, arith, length, length-drop,
  get_or, get_or-drop, drop, ltb, ◌==◌, if◌then◌else◌, and_then, Bool-cases,
}
use freebsd_radix_userland.Radix.Memory.{Ptr, RadixNode, Heap, load, load_bytes}
use freebsd_radix_userland.Radix.Masks.{len_byte}
use freebsd_radix_userland.Radix.Search.FirstBit.{IsBytes}
use freebsd_radix_userland.Radix.Tree.{Tree, inner, has, IsTree, IsOrdered, AllLeaves, IsPatricia}
use freebsd_radix_userland.Radix.Tree.Insert.Holds.{IsDistinct}

-- A key of at least `hi` bits.
abbrev pub IsKey : ℕ → List ℕ → Type 0
IsKey hi x = IsBytes x × (hi ≤ length x * 8)

-- The heap holds a tree whose root tests bit `lo`, the first of a byte, and whose keys differ within
-- the bits from `lo` up to `hi`.
pub record IsState (h : Heap) (key : Ptr → List ℕ) (top : Ptr) (lo hi : ℕ) (l r : Tree)
    : Type 0 where
  pub tree : IsTree h key top (inner top lo l r)
  pub ordered : IsOrdered lo hi (inner top lo l r)
  pub patricia : IsPatricia key lo (inner top lo l r)
  pub distinct : IsDistinct (inner top lo l r)
  pub keys : AllLeaves (λ q. IsKey hi (key q)) (inner top lo l r)
  pub aligned : lo % 8 ≡ 0

-- A new key at `v_arg` and a block for its pair at `new`.
pub record IsNew (h : Heap) (key : Ptr → List ℕ) (lo hi : ℕ) (t : Tree) (v_arg new : Ptr)
    (v : List ℕ) : Type 0 where
  pub holds : load_bytes h v_arg ≡ some v
  pub is_key : IsKey hi v
  pub size : len_byte v * 8 ≤ hi
  pub leaf_node : (n : RadixNode) × (load h new ≡ some n)
  pub inner_node : (n : RadixNode) × (load h (new + 1) ≡ some n)
  pub fresh : (has new t ≡ false) × (has (new + 1) t ≡ false)
  pub key_new : key new ≡ v
