-- ===== src/Radix/Match.antt =====
-- `rn_match` and `rn_nextprefix` of src/freebsd/radix.c. Fuel bounds each loop: the depth of the tree,
-- the length of a chain of duplicates and that of a list of masks.
use freebsd_radix_userland.Common.{
  ℕ, zero, suc, ◌-◌, min, Bool, Option, none, some, List, drop, ◌==◌, if◌then◌else◌, and_then,
}
use freebsd_radix_userland.Common.Int.{ℤ, negsuc, leb_ℤ}
use freebsd_radix_userland.Common.Steps.{◌>>=◌}
use freebsd_radix_userland.Radix.Memory.{
  Ptr, null, RadixNode, RadixMask, RadixHead, Heap, load, load_mask, load_bytes,
}
use freebsd_radix_userland.Radix.Masks.{len_byte, rn_satisfies_leaf}
use freebsd_radix_userland.Radix.Search.{rn_search, rn_search_m, mismatch, match_bit}

-- `rn_satisfies_leaf` on the leaf's own key and mask.
unfoldable pub satisfies_node : Heap → List ℕ → RadixNode → ℕ → Option Bool
unfolding rn_satisfies_leaf load_bytes
satisfies_node h v n skip = do
  key ← load_bytes h n.rn_key
  if n.rn_mask == null
      then rn_satisfies_leaf v key none skip
      else (do mask ← load_bytes h n.rn_mask; rn_satisfies_leaf v key (some mask) skip)

-- What `rn_match` knows once it has found that the key differs from the leaf's.
pub record Miss : Type 0 where
  pub matched_off : ℕ
  pub rn_bit : ℤ

-- `for (; t; t = t->rn_dupedkey)`; NULL if no leaf of the chain applies.
unfoldable pub match_chain : ℕ → Heap → List ℕ → Miss → Ptr → Option Ptr
unfolding satisfies_node load
match_chain zero h v d t = none
match_chain (suc k) h v d t = if t == null then some null else do
  n ← load h t
  hit ←
      if n.rn_flags.normal
      then some (leb_ℤ d.rn_bit n.rn_bit)
      else satisfies_node h v n d.matched_off
  let rest = match_chain k h v d n.rn_dupedkey
  if hit then some t else rest

-- `while (x && x->rn_mask != mask) x = x->rn_dupedkey;`
unfoldable pub chain_find : ℕ → Heap → Ptr → Ptr → Option Ptr
unfolding load
chain_find zero h mask x = none
chain_find (suc k) h mask x = if x == null then some null else do
  n ← load h x
  let rest = chain_find k h mask n.rn_dupedkey
  if n.rn_mask == mask then some x else rest

-- One mask of a node's list that is not normal: the leaf that the masked key leads to.
unfoldable pub match_mask : ℕ → Heap → List ℕ → Miss → Ptr → RadixMask → Option Ptr
unfolding rn_search_m chain_find satisfies_node load load_bytes
match_mask k h v d t m = do
  n ← load h t
  mask ← load_bytes h m.rm_mask
  x₀ ← rn_search_m k h v mask t
  x ← chain_find k h m.rm_mask x₀
  if x == null then some null else do
    leaf ← load h x
    hit ← satisfies_node h v leaf (min n.rn_offset d.matched_off)
    some (if hit then x else null)

-- `while (m)`
unfoldable pub match_masks : ℕ → ℕ → Heap → List ℕ → Miss → Ptr → Ptr → Option Ptr
unfolding match_mask load_mask
match_masks zero depth h v d t p = none
match_masks (suc k) depth h v d t p = if p == null then some null else do
  m ← load_mask h p
  found ←
      if m.rm_flags.normal
      then some (if leb_ℤ d.rn_bit m.rm_bit then m.rm_leaf else null)
      else match_mask depth h v d t m
  let rest = match_masks k depth h v d t m.rm_mklist
  if found == null then rest else some found

-- `do { … } while (t != top);`
unfoldable pub match_up : ℕ → ℕ → Heap → List ℕ → Miss → (top t : Ptr) → Option Ptr
unfolding match_masks load
match_up zero depth h v d top t = none
match_up (suc k) depth h v d top t = do
  n ← load h t
  up ← load h n.rn_parent
  found ← match_masks depth depth h v d n.rn_parent up.rn_mklist
  let rest = match_up k depth h v d top n.rn_parent
  if found == null then (if n.rn_parent == top then some null else rest) else some found

unfoldable pub rn_match : ℕ → Heap → List ℕ → RadixHead → Option Ptr
unfolding rn_search mismatch match_bit match_chain match_up load load_bytes
rn_match k h v head = do
  let top = head.rnh_treetop
  root ← load h top
  t ← rn_search k h v top
  leaf ← load h t
  vlen ←
      if leaf.rn_mask == null
      then some (len_byte v)
      else and_then (load_bytes h leaf.rn_mask) (λ m. some (len_byte m))
  key ← load_bytes h leaf.rn_key
  let off = root.rn_offset
  differs ← mismatch (vlen - off) off (drop off v) (drop off key)
  elim differs [
    | none ↦ some (if leaf.rn_flags.root then leaf.rn_dupedkey else t)
    | some (matched_off, test) ↦ do
      let d : Miss = record {
        matched_off = matched_off;
        rn_bit = negsuc (match_bit matched_off test);
      }
      found ← match_chain k h v d (if leaf.rn_mask == null then leaf.rn_dupedkey else t)
      if found == null then match_up k k h v d top t else some found
  ]

-- The next leaf of the chain that is no root.
unfoldable pub rn_nextprefix : ℕ → Heap → Ptr → Option Ptr
unfolding load
rn_nextprefix zero h rn = none
rn_nextprefix (suc k) h rn = do
  n ← load h rn
  if n.rn_dupedkey == null then some null else do
    next ← load h n.rn_dupedkey
    let rest = rn_nextprefix k h n.rn_dupedkey
    if next.rn_flags.root then rest else some n.rn_dupedkey
