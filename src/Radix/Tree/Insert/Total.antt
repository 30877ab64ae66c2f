-- ===== src/Radix/Tree/Insert/Total.antt =====
-- The heap behind `insert_link` holds the whole tree with the new pair in it.
use freebsd_radix_userland.Common.{
  ℕ, ◌+◌, ◌*◌, ◌/◌, ◌≤◌, ◌<◌, ◌≡◌, refl, ◌∙◌, ◌≢◌, inl, inr, true, false, some, List, arith, length,
  get_elem?-eq_some, ltb, if◌then◌else◌, Bool-cases,
}
use freebsd_radix_userland.Radix.Memory.{Ptr, Heap, load, load_bytes}
use freebsd_radix_userland.Radix.Search.FirstBit.{key_bit}
use freebsd_radix_userland.Radix.Insert.{goes_right}
use freebsd_radix_userland.Radix.Tree.{Tree, leaf, inner, root, has, IsInnerAt, IsTree, IsOrdered}
use freebsd_radix_userland.Radix.Tree.Insert.Link.{with_son}
use freebsd_radix_userland.Radix.Tree.Insert.{stops, insert, place}
use freebsd_radix_userland.Radix.Tree.Insert.Holds.{
  IsDistinct, has-root, has-place, IsTree-frame, LinkedAt, pair-IsTree, insert-pair, root-pair,
  root-insert,
}

pub goes_right-eq :
    {h : Heap} {up p c left right : ℕ} (v : List ℕ) (i : IsInnerAt h up p c left right)
    → c < length v * 8
    → goes_right v p h ≡ some (key_bit v c)
unfolding goes_right
goes_right-eq {c} v i fits =
    rw (i.at, i.offset, get_elem?-eq_some v (c / 8) 0 (omega arith), i.bmask) refl

module _ (h g : Heap) (key : Ptr → List ℕ) (v : List ℕ) (v_arg b new : ℕ)
    (holds : load_bytes h v_arg ≡ some v) (key_new : key new ≡ v) where
  -- The node above the place has the new pair for a son.
  inner_above :
      (up p c : ℕ) (left right : Ptr) (x : Ptr)
      → (i : IsInnerAt h up p c left right) → c < length v * 8
      → LinkedAt h g v v_arg b new (p, x)
      → load g p ≡ some (with_son (key_bit v c) (new + 1) i.n)
  inner_above up p c left right x i fits (side, r, k) =
      let e : r.pn ≡ i.n = ground (arith, i.at, r.at_p) in
      let s : side ≡ key_bit v c = ground (arith, goes_right-eq v i fits, r.side) in
      rw (e, s) at k.at_p

  -- A part of the tree that holds neither node of the place is as it was.
  untouched :
      (up : ℕ) (t : Tree) (q : Ptr × Ptr)
      → IsTree h key up t
      → has new t ≡ false
      → has (new + 1) t ≡ false
      → has q.0 t ≡ false
      → has q.1 t ≡ false
      → LinkedAt h g v v_arg b new q
      → IsTree g key up t
  untouched up t q is nn nm n0 n1 (side, r, k) =
      IsTree-frame h g key k.bytes up t
        (λ a m. k.same a (ground arith) (ground arith) (ground arith) (ground arith)) is

  -- The son of `p` on the key's side, with the pair put over it or below.
  son_IsTree :
      (p : Ptr) (t : Tree)
      → IsTree h key p t
      → IsDistinct t
      → has p t ≡ false
      → has new t ≡ false
      → has (new + 1) t ≡ false
      → LinkedAt h g v v_arg b new (if stops b t then (p, root t) else place v b t)
      → (stops b t ≡ false
          → LinkedAt h g v v_arg b new (place v b t)
          → IsTree g key p (insert v b new t))
      → IsTree g key p (insert v b new t)
  son_IsTree p t is d np nn nm f below = elim (Bool-cases (stops b t)) [
    | inl stop ↦
        rw (insert-pair v b new t stop)
          (pair-IsTree h g key v v_arg b new holds key_new p t is d np nn nm (rw stop at f))
    | inr on ↦ below on (rw on at f)
  ]

  -- The root of the son's side afterwards: the new pair's parent, or the root as it was.
  abbrev top_of : Tree → Ptr
  top_of t = if stops b t then new + 1 else root t

  root-insert_top : (t : Tree) → root (insert v b new t) ≡ top_of t
  root-insert_top t = elim (Bool-cases (stops b t)) [
    | inl stop ↦ rw (insert-pair v b new t stop, root-pair v b new t, stop)
    | inr on ↦ rw (root-insert v b new t on, on)
  ]

  -- The node above is written where the place is its son, and is as it was where the place is below.
  node_after :
      (up p c : ℕ) (l r t : Tree) (left right : Ptr)
      → (i : IsInnerAt h up p c (root l) (root r)) → c < length v * 8
      → root t ≡ (if key_bit v c then root r else root l)
      → has p t ≡ false
      → p ≢ new
      → p ≢ new + 1
      → LinkedAt h g v v_arg b new (if stops b t then (p, root t) else place v b t)
      → left ≡ (if key_bit v c then root l else top_of t)
      → right ≡ (if key_bit v c then top_of t else root r)
      → IsInnerAt g up p c left right
  node_after up p c l r t left right i fits et np pn pm f el er = elim (Bool-cases (stops b t)) [
    | inl stop ↦
        let f' : LinkedAt h g v v_arg b new (p, root t) = rw stop at f in
        record {
          n = with_son (key_bit v c) (new + 1) i.n;
          at = inner_above up p c (root l) (root r) (root t) i fits f';
          bit = ground (arith, i.bit);
          bmask = ground (arith, i.bmask);
          offset = ground (arith, i.offset);
          sons = (ground (arith, i.sons), ground (arith, i.sons));
          parent = ground (arith, i.parent);
        }
    | inr on ↦
        let (side, ready, k) : LinkedAt h g v v_arg b new (place v b t) = rw on at f in
        let w = has-place v b t in
        record {
          n = i.n;
          at = k.same p pn pm (ground (arith, w)) (ground (arith, w)) ∙ i.at;
          bit = i.bit;
          bmask = i.bmask;
          offset = i.offset;
          sons = (ground (arith, i.sons), ground (arith, i.sons));
          parent = i.parent;
        }
  ]

  -- Neither node of the place belongs to the son on the other side.
  place_outside :
      (p : Ptr) (t other : Tree)
      → has p other ≡ false
      → ((a : Ptr) → has a t ≡ true → has a other ≡ false)
      → let q : Ptr × Ptr = if stops b t then (p, root t) else place v b t in
        (has q.0 other ≡ false) × (has q.1 other ≡ false)
  place_outside p t other np apart = elim (Bool-cases (stops b t)) [
    | inl stop ↦ rw stop (np, apart (root t) (has-root t))
    | inr on ↦
        rw on (apart (place v b t).0 (has-place v b t).0, apart (place v b t).1 (has-place v b t).1)
  ]

  -- A heap in which the pair has gone to its place holds the tree with the pair in it.
  pub insert-IsTree :
      (up : ℕ) (t : Tree) (lo hi : ℕ)
      → IsTree h key up t
      → IsDistinct t
      → IsOrdered lo hi t
      → hi ≤ length v * 8
      → stops b t ≡ false
      → has new t ≡ false
      → has (new + 1) t ≡ false
      → LinkedAt h g v v_arg b new (place v b t)
      → IsTree g key up (insert v b new t)
  unfolding insert place
  insert-IsTree up (leaf p) lo hi is d o fits on nn nm f = cc
  insert-IsTree up (inner p c l r) lo hi is d o fits on nn nm f =
      let before : ltb c b ≡ true = ground arith in
      let pn : p ≢ new = ground arith in
      let pm : p ≢ new + 1 = ground arith in
      let nl : (has new l ≡ false) × (has (new + 1) l ≡ false) = ground arith in
      let nr : (has new r ≡ false) × (has (new + 1) r ≡ false) = ground arith in
      let sym_apart : (a : Ptr) → has a r ≡ true → has a l ≡ false = λ a m. ground (arith, d.2 a) in
      elim (Bool-cases (key_bit v c)) [
        | inl one ↦
            let f' : LinkedAt h g v v_arg b new (if stops b r then (p, root r) else place v b r) =
              rw one at f in
            let (o0, o1) = place_outside p r l d.0 sym_apart in
            rw (before, one)
              (
                node_after up p c l r r (root l) (root (insert v b new r)) is.0 (omega arith)
                    (rw one) d.1 pn pm f' (rw one) (rw one (root-insert_top r)),
                untouched p l _ is.1 nl.0 nl.1 o0 o1 f',
                son_IsTree p r is.2 d.4 d.1 nr.0 nr.1 f'
                    λ below f₂. insert-IsTree p r (c + 1) hi is.2 d.4 o.3 fits below nr.0 nr.1 f₂,
              )
        | inr nil ↦
            let f' : LinkedAt h g v v_arg b new (if stops b l then (p, root l) else place v b l) =
              rw nil at f in
            let (o0, o1) = place_outside p l r d.1 d.2 in
            rw (before, nil)
              (
                node_after up p c l r l (root (insert v b new l)) (root r) is.0 (omega arith)
                    (rw nil) d.0 pn pm f' (rw nil (root-insert_top l)) (rw nil),
                son_IsTree p l is.1 d.3 d.0 nl.0 nl.1 f'
                    (λ below f₂. insert-IsTree p l (c + 1) hi is.1 d.3 o.2 fits below nl.0 nl.1 f₂),
                untouched p r _ is.2 nr.0 nr.1 o0 o1 f',
              )
      ]
