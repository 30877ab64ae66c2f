-- ===== src/Radix/Tree/Insert/Place.antt =====
-- The two nodes between which `rn_insert` of src/freebsd/radix.c puts a pair.
use freebsd_radix_userland.Common.{
  ℕ, ◌+◌, ◌*◌, ◌≤◌, ◌≡◌, ◌≢◌, inl, inr, Bool, true, some, List, arith, length, Bool-cases,
}
use freebsd_radix_userland.Radix.Memory.{Ptr, RadixNode, Heap, load}
use freebsd_radix_userland.Radix.Search.FirstBit.{key_bit}
use freebsd_radix_userland.Radix.Insert.{goes_right}
use freebsd_radix_userland.Radix.Tree.{Tree, leaf, inner, root, IsTree, IsOrdered}
use freebsd_radix_userland.Radix.Tree.Insert.{place, stops, is_inner, inner_of_stops}
use freebsd_radix_userland.Radix.Tree.Insert.Holds.{IsDistinct, has-root}
use freebsd_radix_userland.Radix.Tree.Insert.Total.{goes_right-eq}

-- What `insert_link` needs to know of the two nodes of the place.
pub record PlaceAt (h : Heap) (v : List ℕ) (q : Ptr × Ptr) : Type 0 where
  pub ne : q.0 ≢ q.1
  pub side : Bool
  pub goes : goes_right v q.0 h ≡ some side
  pub pn : RadixNode
  pub at_p : load h q.0 ≡ some pn
  pub xn : RadixNode
  pub at_x : load h q.1 ≡ some xn

module _ (h : Heap) (key : Ptr → List ℕ) (v : List ℕ) (b : ℕ) where
  load_root :
      (up : Ptr) (t : Tree) → IsTree h key up t → (n : RadixNode) × (load h (root t) ≡ some n)
  load_root up (leaf p) is = (is.n, is.at)
  load_root up (inner p b l r) is = (is.0.n, is.0.at)

  pub place-PlaceAt :
      (up : Ptr) (t : Tree) (lo hi : ℕ)
      → IsTree h key up t
      → IsOrdered lo hi t
      → IsDistinct t
      → hi ≤ length v * 8
      → is_inner t ≡ true
      → PlaceAt h v (place v b t)
  unfolding place
  place-PlaceAt up (leaf p) lo hi is o d fits i = absurd (cc)
  place-PlaceAt up (inner p c l r) lo hi is o d fits i =
      let goes = goes_right-eq v is.0 (omega arith) in
      elim (Bool-cases (key_bit v c)) [
        | inl one ↦ rw one (elim (Bool-cases (stops b r)) [
          | inl stop ↦
              let (xn, at_x) = load_root p r is.2 in
              rw stop (record {
                ne = ground (arith, has-root r);
                side = key_bit v c;
                goes = goes;
                pn = is.0.n;
                at_p = is.0.at;
                xn = xn;
                at_x = at_x;
              })
          | inr on ↦ rw on (place-PlaceAt p r (c + 1) hi is.2 o.3 d.4 fits (inner_of_stops b r on))
        ])
        | inr nil ↦ rw nil (elim (Bool-cases (stops b l)) [
          | inl stop ↦
              let (xn, at_x) = load_root p l is.1 in
              rw stop (record {
                ne = ground (arith, has-root l);
                side = key_bit v c;
                goes = goes;
                pn = is.0.n;
                at_p = is.0.at;
                xn = xn;
                at_x = at_x;
              })
          | inr on ↦ rw on (place-PlaceAt p l (c + 1) hi is.1 o.2 d.3 fits (inner_of_stops b l on))
        ])
      ]
