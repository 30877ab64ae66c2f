-- ===== src/Radix/Tree/Insert.antt =====
-- `rn_insert` of src/freebsd/radix.c on a tree: where the new pair goes, and that the heap holds the
-- tree with the pair in it.
pub mod Link
pub mod Holds
pub mod Total
pub mod Patricia
pub mod Place
pub mod Distinct
use freebsd_radix_userland.Common.{
  ℕ, zero, suc, ◌+◌, ◌-◌, ◌*◌, ◌/◌, ◌%◌, ◌^◌, ◌≤◌, ◌<◌, ◌≡◌, refl, ◌≢◌, ◌⊎◌, inl, inr, ◌∙◌, sym, ap,
  Bool, true, false, ◌||◌, Option, none, some, List, arith, length, get_elem?, get_or,
  get_elem?-eq_some, ltb, ◌==◌, if◌then◌else◌, and_then, Bool-cases,
}
use freebsd_radix_userland.Common.Int.{ℤ, pos, negsuc}
use freebsd_radix_userland.Radix.Memory.{
  Ptr, null, RadixNode, Heap, M, load, load_bytes, update, put, modify, reads, pure, ◌>>=◌, ◌>>◌,
}
use freebsd_radix_userland.Radix.Masks.{bit_test}
use freebsd_radix_userland.Radix.Search.{child, rn_search}
use freebsd_radix_userland.Radix.Search.FirstBit.{key_bit}
use freebsd_radix_userland.Radix.Insert.{
  active_only, rn_newpair, above, insert_descend, goes_right, insert_link,
}
use freebsd_radix_userland.Radix.Tree.{
  Tree, leaf, inner, root, has, IsLeafBit, IsLeafAt, IsInnerAt, IsTree, descend, IsOrdered,
  AllLeaves, leaf_mem, IsPatricia,
}
use freebsd_radix_userland.Radix.Tree.Search.{child-key_bit, leaf_bit}

-- The bit of a node, with leaves beyond every bit.
abbrev pub stops : ℕ → Tree → Bool
stops b (leaf p) = true
stops b (inner p c l r) = if ltb c b then false else true

abbrev pub is_inner : Tree → Bool
is_inner (leaf p) = false
is_inner (inner p c l r) = true

pub inner_of_stops : (b : ℕ) (t : Tree) → stops b t ≡ false → is_inner t ≡ true
inner_of_stops b (leaf p) h = cc
inner_of_stops b (inner p c l r) h = refl

-- The new pair over the tree `x`: the leaf at `new`, its parent at `new + 1`.
abbrev pub pair : List ℕ → ℕ → Ptr → Tree → Tree
pair v b new x =
    if key_bit v b then inner (new + 1) b x (leaf new) else inner (new + 1) b (leaf new) x

-- The tree with the new pair, put over the first node on the way down that tests no bit before `b`.
unfoldable pub insert : List ℕ → ℕ → Ptr → Tree → Tree
insert v b new (leaf p) = pair v b new (leaf p)
insert v b new (inner p c l r) =
    let left = insert v b new l in
    let right = insert v b new r in
    if ltb c b
    then (if key_bit v c then inner p c l right else inner p c left r)
    else pair v b new (inner p c l r)

-- The last node before that place, and the place.
unfoldable pub place : List ℕ → ℕ → Tree → Ptr × Ptr
place v b (leaf p) = (p, p)
place v b (inner p c l r) =
    let son = if key_bit v c then r else l in
    let left = place v b l in
    let right = place v b r in
    if stops b son then (p, root son) else if key_bit v c then right else left

module _ (h : Heap) (key : Ptr → List ℕ) where
  above-stops :
      (b up : ℕ) (t : Tree)
      → IsTree h key up t
      → (n : RadixNode) × (load h (root t) ≡ some n)
        × (above b n.rn_bit ≡ (if stops b t then false else true))
  unfolding above
  above-stops b up (leaf p) is =
      let (m, e) = leaf_bit is.n.rn_bit is.bit in (is.n, is.at, rw e refl)
  above-stops b up (inner p c l r) is = (is.0.n, is.0.at, rw is.0.bit (ground arith))

  -- One round, at the son `t` of `p`.
  insert_descend_son :
      (k up p b : ℕ) (v : List ℕ) (t : Tree)
      → IsTree h key up t
      → (stops b t ≡ false → insert_descend k h v b (root t) ≡ some (place v b t))
      → and_then
          (load h (root t))
          (λ cn. if above b cn.rn_bit then insert_descend k h v b (root t) else some (p, root t))
        ≡ some (if stops b t then (p, root t) else place v b t)
  insert_descend_son k up p b v t is rest =
      let (n, at, e) = above-stops b up t is in
      rw (at, e)
        (elim (Bool-cases (stops b t)) [ inl stop ↦ rw stop refl | inr on ↦ rw (on, rest on) refl ])

  -- The descent of `rn_insert` from an inner node ends at the place.
  pub insert_descend-place :
      (k up : ℕ) (t : Tree) (v : List ℕ) (b lo hi : ℕ)
      → IsTree h key up t
      → IsOrdered lo hi t
      → is_inner t ≡ true
      → hi ≤ length v * 8
      → hi < k + lo
      → insert_descend k h v b (root t) ≡ some (place v b t)
  unfolding insert_descend place
  insert_descend-place k up (leaf p) v b lo hi is o not_leaf fits fuel = cc
  insert_descend-place zero up (inner p c l r) v b lo hi is o not_leaf fits fuel =
      absurd (omega arith)
  insert_descend-place (suc k) up (inner p c l r) v b lo hi is o not_leaf fits fuel =
      rw (is.0.at, child-key_bit v is.0 (omega arith))
        (elim (Bool-cases (key_bit v c)) [
          | inl right ↦ rw right (
              insert_descend_son k p p b v r is.2 λ on.
                insert_descend-place k p r v b (c + 1) hi is.2 o.3 (inner_of_stops b r on) fits
                  (omega arith))
          | inr left ↦ rw left (
              insert_descend_son k p p b v l is.1 λ on.
                insert_descend-place k p l v b (c + 1) hi is.1 o.2 (inner_of_stops b l on) fits
                  (omega arith))
        ])
