-- ===== src/Radix/AddMask.antt =====
-- `rn_addmask`, `rn_new_radix_mask` and `rn_lookup` of src/freebsd/radix.c.
use freebsd_radix_userland.Common.{
  ℕ, ◌+◌, min, max, ltb, length, Bool, true, false, ◌||◌, ◌&&◌, not, Option, none, some, List, take,
  drop, ◌==◌, if◌then◌else◌, and_then,
}
use freebsd_radix_userland.Common.Int.{pos, negsuc}
use freebsd_radix_userland.Radix.Memory.{
  Ptr, null, Flags, RadixNode, RadixHead, Heap, M, pure, ◌>>=◌, ◌>>◌, load, load_bytes, reads, put,
  put_mask, put_bytes, modify, malloc, free_pair,
}
use freebsd_radix_userland.Radix.Masks.{len_byte, addmask_key, mask_index}
use freebsd_radix_userland.Radix.Search.{rn_search, same_bytes}
use freebsd_radix_userland.Radix.Match.{rn_match, chain_find}
use freebsd_radix_userland.Radix.Insert.{rn_insert}

abbrev pub no_flags : Flags
no_flags = record { normal = false; root = false; active = false }

-- A node of zeroed memory.
abbrev pub zero_node : RadixNode
zero_node = record {
  rn_mklist = null;
  rn_parent = null;
  rn_bit = pos 0;
  rn_bmask = 0;
  rn_flags = no_flags;
  rn_key = null;
  rn_mask = null;
  rn_dupedkey = null;
  rn_offset = 0;
  rn_left = null;
  rn_right = null;
}

-- The mask's leaf in the tree of masks, or NULL.
unfoldable pub find_mask : ℕ → List ℕ → RadixHead → Heap → Option Ptr
unfolding rn_search same_bytes load load_bytes
find_mask k key head h = and_then (rn_search k h key head.mask_treetop) λ x.
    and_then (load h x) λ leaf. and_then (load_bytes h leaf.rn_key) λ stored.
      and_then (same_bytes (len_byte key) key stored) λ same. some (if same then x else null)

-- A block of two nodes and 32 bytes goes into the tree of masks. Its bytes stand at `x + 2`.
unfoldable pub enter_mask : ℕ → List ℕ → RadixHead → ℕ → M Ptr
unfolding rn_insert mask_index modify malloc
enter_mask k key head skip = do
  saved_x ← malloc
  if saved_x == null then pure null else do
    put saved_x zero_node
    put (saved_x + 1) zero_node
    put_bytes (saved_x + 2) key
    (x, maskduplicated) ←
        rn_insert k (saved_x + 2) (record head { rnh_treetop = head.mask_treetop }) saved_x
    if maskduplicated then free_pair saved_x >> pure x else do
      let (b, isnormal) = mask_index skip (drop skip (take (len_byte key) key))
      modify x λ n. record n {
        rn_bit = negsuc b;
        rn_flags = record n.rn_flags { normal = n.rn_flags.normal || isnormal };
      }
      pure x

-- The end of the bytes of a mask that `bcopy` reads. A mask whose bytes end before is a fault.
abbrev read_end : List ℕ → ℕ
read_end netmask = min (len_byte netmask) 32

abbrev fault : M Ptr
fault h = none

unfoldable pub rn_addmask : ℕ → List ℕ → RadixHead → Bool → ℕ → M Ptr
unfolding addmask_key find_mask enter_mask
rn_addmask k netmask head search skip =
    if ltb (max skip 1) (read_end netmask) && ltb (length netmask) (read_end netmask)
    then fault
    else elim (addmask_key netmask skip) [
      | none ↦ pure head.mask_nodes
      | some key ↦ do
        x ← reads (find_mask k key head)
        if not (x == null) || search then pure x else enter_mask k key head (max skip 1)
    ]

unfoldable pub rn_new_radix_mask : Ptr → Ptr → M Ptr
unfolding malloc modify load
rn_new_radix_mask tt next = do
  m ← malloc
  if m == null then pure null else do
    n ← reads (λ h. load h tt)
    put_mask m (
        some (record {
          rm_bit = n.rn_bit;
          rm_flags = n.rn_flags;
          rm_mklist = next;
          rm_mask = if n.rn_flags.normal then null else n.rn_mask;
          rm_leaf = if n.rn_flags.normal then tt else null;
          rm_refs = pos 0;
        }))
    modify tt λ n'. record n' { rn_mklist = m }
    pure m

-- The test of a host address at the end of `rn_lookup`.
unfoldable pub host_leaf : List ℕ → Ptr → Heap → Option Ptr
unfolding same_bytes load load_bytes
host_leaf v x h =
    if x == null
    then some null
    else and_then (load h x) λ leaf. and_then (load_bytes h leaf.rn_key) λ key.
      if not (len_byte key == len_byte v)
      then some null
      else and_then (same_bytes (len_byte v) key v)
          λ same. some (if same && (leaf.rn_mask == null) then x else null)

unfoldable pub rn_lookup : ℕ → List ℕ → Option (List ℕ) → RadixHead → M Ptr
unfolding rn_addmask rn_match chain_find host_leaf load
rn_lookup k v (some m) head = do
  top ← reads (λ h. load h head.rnh_treetop)
  x ← rn_addmask k m head true top.rn_offset
  if x == null then pure null else do
    mask_leaf ← reads (λ h. load h x)
    reads (λ h. and_then (rn_match k h v head) (chain_find k h mask_leaf.rn_key))
rn_lookup k v none head = reads (λ h. and_then (rn_match k h v head) (λ x. host_leaf v x h))
