-- ===== src/Radix/Tree/State/Insert.antt =====
-- `rn_insert` of src/freebsd/radix.c keeps the tree well-formed.
use freebsd_radix_userland.Common.{
  ℕ, ◌+◌, ◌-◌, ◌*◌, ◌/◌, ◌≤◌, ◌<◌, ◌≡◌, refl, sym, ◌≢◌, ◌⊎◌, inl, inr, true, false, Option, none,
  some, List, arith, length-drop, get_or, get_or-drop, drop, ltb, Bool-cases,
}
use mathlib.Core.Path.{subst}
use freebsd_radix_userland.Radix.Memory.{Ptr, RadixHead, Heap}
use freebsd_radix_userland.Radix.Masks.{len_byte}
use freebsd_radix_userland.Radix.Search.{mismatch, insert_bit}
use freebsd_radix_userland.Radix.Search.FirstBit.{key_bit, insert_bit-IsFirstBit}
use freebsd_radix_userland.Radix.Search.Mismatch.{mismatch_total, mismatch-none}
use freebsd_radix_userland.Radix.Insert.{rn_insert, insert_place, insert_link}
use freebsd_radix_userland.Radix.Tree.{
  Tree, leaf, inner, IsTree, IsLeafAt, descend, AllLeaves, IsOrdered, IsPatricia,
}
use freebsd_radix_userland.Radix.Tree.Search.{all_at, rn_search-descend}
use freebsd_radix_userland.Radix.Tree.Insert.{insert, place, stops, insert_descend-place}
use freebsd_radix_userland.Radix.Tree.Insert.Link.{
  Ready, linked_heap, linked_heap-Linked, insert_link-linked,
}
use freebsd_radix_userland.Radix.Tree.Insert.Holds.{has-place, IsDistinct, LinkedAt}
use freebsd_radix_userland.Radix.Tree.Insert.Total.{insert-IsTree}
use freebsd_radix_userland.Radix.Tree.Insert.Place.{PlaceAt, place-PlaceAt}
use freebsd_radix_userland.Radix.Tree.Insert.Distinct.{insert-IsDistinct}
use freebsd_radix_userland.Radix.Tree.Insert.Patricia.{
  SplitsAt, AllLeaves-insert, leaf_mem-descend, insert-IsOrdered, insert-IsPatricia, bit-descend,
}
use freebsd_radix_userland.Radix.Tree.State.{IsKey, IsState, IsNew}

-- The leaf to which a key leads holds its own key.
pub leaf_at :
    (h : Heap) (key : Ptr → List ℕ) (v : List ℕ) (up : Ptr) (t : Tree)
    → IsTree h key up t
    → (up' : Ptr) × IsLeafAt h up' (descend v t) (key (descend v t))
leaf_at h key v up (leaf p) is = (up, is)
leaf_at h key v up (inner p b l r) is = elim (Bool-cases (key_bit v b)) [
  | inl one ↦ rw one (leaf_at h key v p r is.2)
  | inr nil ↦ rw nil (leaf_at h key v p l is.1)
]

module _ (k : ℕ) (h : Heap) (key : Ptr → List ℕ) (top lo hi : ℕ) (l r : Tree) (v_arg new : Ptr)
    (v : List ℕ) (s : IsState h key top lo hi l r)
    (n : IsNew h key lo hi (inner top lo l r) v_arg new v) (fuel : hi < k + lo) where
  abbrev t : Tree
  t = inner top lo l r

  abbrev q : Ptr
  q = descend v t

  own : IsKey hi (key q)
  own = all_at (λ p. IsKey hi (key p)) q t s.keys (leaf_mem-descend v t)

  -- What the comparison of bytes in `rn_insert` finds.
  abbrev differs : Option (Option (ℕ × ℕ))
  differs = mismatch (len_byte v - lo / 8) (lo / 8) (drop (lo / 8) v) (drop (lo / 8) (key q))

  insert_place-eq :
      (d : Option (ℕ × ℕ))
      → differs ≡ some d
      → insert_place k h v top
        ≡ some (q, elim d [ none ↦ none | some (i, x) ↦ some (insert_bit i x) ])
  unfolding insert_place
  insert_place-eq d e =
      let (up', leaf_q) = leaf_at h key v top t s.tree in
      rw
        (
          s.tree.0.at,
          rn_search-descend h key k top t v lo hi s.tree s.ordered n.is_key.1 fuel
              (omega (arith, s.ordered)),
          leaf_q.at,
          leaf_q.holds,
          s.tree.0.offset,
          e,
        )
        refl

  -- The bit that `rn_insert` computes from a difference splits the tree.
  splits : (j z : ℕ) → differs ≡ some (some (j, z)) → SplitsAt key v lo hi (insert_bit j z) t
  splits j z e =
      let (f, _) = insert_bit-IsFirstBit v (key q) (lo / 8) (len_byte v) j z n.is_key.0 own.0 e in
      let whole : lo / 8 * 8 ≡ lo = omega (arith, s.aligned) in
      record {
        lower = omega (arith, f.lower);
        upper = omega (arith, f.upper, n.size);
        ne = f.ne;
        before = λ c lower upper. f.before c (omega arith) upper;
      }

  module _ (b : ℕ) (sp : SplitsAt key v lo hi b t) where
    below_root : stops b t ≡ false
    below_root =
        let ne : lo ≢ b = λ e. sp.ne (
          subst (λ c. key_bit v c ≡ key_bit (key q) c) e
            (sym (bit-descend key v lo top lo l r s.patricia))) in
        ground (arith, sp.lower)

    at : PlaceAt h v (place v b t)
    at = place-PlaceAt h key v b top t lo hi s.tree s.ordered s.distinct n.is_key.1 refl

    ready : Ready h v b (place v b t).0 (place v b t).1 new at.side
    ready =
        let w = has-place v b t in
        record {
          l = n.leaf_node.0;
          t = n.inner_node.0;
          pn = at.pn;
          xn = at.xn;
          at_l = n.leaf_node.1;
          at_t = n.inner_node.1;
          at_p = at.at_p;
          at_x = at.at_x;
          side = at.goes;
          apart = (
            at.ne,
            ground (arith, w, n.fresh),
            ground (arith, w, n.fresh),
            ground (arith, w, n.fresh),
            ground (arith, w, n.fresh),
          );
          fits = omega (arith, sp.upper, n.is_key);
        }

    after : Heap
    after = linked_heap h v v_arg b (place v b t).0 (place v b t).1 new ready

    after-LinkedAt : LinkedAt h after v v_arg b new (place v b t)
    unfolding after
    after-LinkedAt =
        (at.side, ready, linked_heap-Linked h v v_arg b (place v b t).0 (place v b t).1 new ready)

    after-IsTree : IsTree after key top (insert v b new t)
    after-IsTree =
        insert-IsTree h after key v v_arg b new n.holds n.key_new top t lo hi s.tree s.distinct
          s.ordered n.is_key.1 below_root n.fresh.0 n.fresh.1 after-LinkedAt

    grown : (l' : Tree) × (r' : Tree) × (insert v b new t ≡ inner top lo l' r')
    unfolding insert
    grown =
        let before : ltb lo b ≡ true = ground (arith, below_root) in
        elim (Bool-cases (key_bit v lo)) [
          | inl one ↦ (l, insert v b new r, rw (before, one) refl)
          | inr nil ↦ (insert v b new l, r, rw (before, nil) refl)
        ]

    after-IsState : IsState after key top lo hi grown.0 grown.1
    after-IsState =
        let e = grown.2 in
        record {
          tree = subst (IsTree after key top) e after-IsTree;
          ordered =
              subst (IsOrdered lo hi) e
                (insert-IsOrdered key v b new n.key_new lo hi t s.ordered s.patricia sp);
          patricia =
              subst (IsPatricia key lo) e
                (insert-IsPatricia key v b new n.key_new lo hi t s.ordered s.patricia sp);
          distinct =
              subst IsDistinct e (insert-IsDistinct v b new t s.distinct n.fresh.0 n.fresh.1);
          keys =
              subst (AllLeaves (λ p. IsKey hi (key p))) e
                (AllLeaves-insert (λ p. IsKey hi (key p)) v b new t (rw n.key_new n.is_key) s.keys);
          aligned = s.aligned;
        }

    insert_link-after :
        insert_link v v_arg b (place v b t).0 (place v b t).1 new h ≡ some (new, after)
    unfolding after
    insert_link-after = insert_link-linked h v v_arg b _ _ new ready

-- The key is in the tree already: `rn_insert` says so, gives its leaf, and changes nothing.
pub record Found (k : ℕ) (h : Heap) (key : Ptr → List ℕ) (head : RadixHead) (lo : ℕ) (t : Tree)
    (v_arg new : Ptr) (v : List ℕ) : Type 0 where
  pub run : rn_insert k v_arg head new h ≡ some ((descend v t, true), h)
  pub same : (i : ℕ) → lo / 8 ≤ i → i < len_byte v → get_or v i 0 ≡ get_or (key (descend v t)) i 0

-- It is not: `b` is the first bit at which it differs from the leaf that it leads to, and the heap
-- behind `rn_insert` holds the tree with the new leaf there.
pub record Entered (k : ℕ) (h : Heap) (key : Ptr → List ℕ) (head : RadixHead) (lo hi : ℕ) (t : Tree)
    (v_arg new : Ptr) (v : List ℕ) : Type 0 where
  pub b : ℕ
  pub splits_at : SplitsAt key v lo hi b t
  pub g : Heap
  pub run : rn_insert k v_arg head new h ≡ some ((new, false), g)
  pub l' : Tree
  pub r' : Tree
  pub link : LinkedAt h g v v_arg b new (place v b t)
  pub grown : insert v b new t ≡ inner head.rnh_treetop lo l' r'
  pub state : IsState g key head.rnh_treetop lo hi l' r'

module _ (k : ℕ) (h : Heap) (key : Ptr → List ℕ) (head : RadixHead) (lo hi : ℕ) (l r : Tree)
    (v_arg new : Ptr) (v : List ℕ) where
  abbrev whole : Tree
  whole = inner head.rnh_treetop lo l r

  module _ (s : IsState h key head.rnh_treetop lo hi l r) (n : IsNew h key lo hi whole v_arg new v)
      (fuel : hi < k + lo) where
    rn_insert-Found :
        differs k h key head.rnh_treetop lo hi l r v_arg new v s n fuel ≡ some none
        → Found k h key head lo whole v_arg new v
    unfolding rn_insert
    rn_insert-Found e = record {
      run =
          rw
            (
              n.holds,
              insert_place-eq k h key head.rnh_treetop lo hi l r v_arg new v s n fuel none e,
            )
            refl;
      same = λ i lower upper.
          let j = i - lo / 8 in
          let at : lo / 8 + j ≡ i = omega arith in
          let eq = mismatch-none (len_byte v - lo / 8) (lo / 8) _ _ e j (omega arith) in
          rw at at (
            rw (get_or-drop (lo / 8) j v 0, get_or-drop (lo / 8) j (key (descend v whole)) 0) at
              eq);
    }

    pub rn_insert-Entered :
        (j z : ℕ)
        → differs k h key head.rnh_treetop lo hi l r v_arg new v s n fuel ≡ some (some (j, z))
        → Entered k h key head lo hi whole v_arg new v
    unfolding rn_insert
    rn_insert-Entered j z e =
        let top = head.rnh_treetop in
        let sp = splits k h key top lo hi l r v_arg new v s n fuel j z e in
        let b = insert_bit j z in
        let new_tree = grown k h key top lo hi l r v_arg new v s n fuel b sp in
        record {
          b = b;
          splits_at = sp;
          g = after k h key top lo hi l r v_arg new v s n fuel b sp;
          run =
              rw
                (
                  n.holds,
                  insert_place-eq k h key top lo hi l r v_arg new v s n fuel (some (j, z)) e,
                  insert_descend-place h key k top whole v b lo hi s.tree s.ordered refl n.is_key.1
                      fuel,
                  insert_link-after k h key top lo hi l r v_arg new v s n fuel b sp,
                )
                refl;
          link = after-LinkedAt k h key top lo hi l r v_arg new v s n fuel b sp;
          l' = new_tree.0;
          r' = new_tree.1;
          grown = new_tree.2;
          state = after-IsState k h key top lo hi l r v_arg new v s n fuel b sp;
        }

    -- On a well-formed tree and a new key, with more fuel than there are bits from `lo` up to `hi`,
    -- `rn_insert` returns. Either the leaf to which the key leads holds the same bytes from the byte
    -- of `lo` on, and the result is that leaf with `*dupentry` set and the heap as it was; or the
    -- result is the new leaf, and the heap holds a well-formed tree: the old one with the new pair in
    -- it at the first bit at which the key differs from that leaf's.
    pub rn_insert-IsState :
        Found k h key head lo whole v_arg new v ⊎ Entered k h key head lo hi whole v_arg new v
    rn_insert-IsState =
        let top = head.rnh_treetop in
        let o = own k h key top lo hi l r v_arg new v s n fuel in
        let (d, e) =
          mismatch_total (len_byte v - lo / 8) (lo / 8) (drop (lo / 8) v)
            (drop (lo / 8) (key (descend v whole)))
            (omega (arith, length-drop (lo / 8) v, n.size, n.is_key))
            (omega (arith, length-drop (lo / 8) (key (descend v whole)), n.size, o)) in
        split d e
      where
        split :
            (d : Option (ℕ × ℕ))
            → differs k h key head.rnh_treetop lo hi l r v_arg new v s n fuel ≡ some d
            → Found k h key head lo whole v_arg new v ⊎ Entered k h key head lo hi whole v_arg new v
        split none e = inl (rn_insert-Found e)
        split (some (j, z)) e = inr (rn_insert-Entered j z e)
