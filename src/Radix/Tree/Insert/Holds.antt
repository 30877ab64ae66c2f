-- ===== src/Radix/Tree/Insert/Holds.antt =====
-- After `insert_link` the heap holds the tree with the new pair.
use freebsd_radix_userland.Common.{
  ℕ, ◌+◌, ◌≡◌, refl, ◌∙◌, ◌≢◌, inl, inr, Bool, true, false, some, List, arith, Bool-cases,
}
use freebsd_radix_userland.Radix.Memory.{Ptr, RadixNode, Heap, load, load_bytes}
use freebsd_radix_userland.Radix.Search.FirstBit.{key_bit}
use freebsd_radix_userland.Radix.Tree.{Tree, leaf, inner, root, has, IsLeafAt, IsTree}
use freebsd_radix_userland.Radix.Tree.Insert.Link.{
  Ready, Linked, with_parent, with_sons, new_leaf, new_inner,
}
use freebsd_radix_userland.Radix.Tree.Insert.{stops, pair, insert, place}

-- The nodes of a tree are distinct.
abbrev pub IsDistinct : Tree → Type 0
IsDistinct (leaf p) = Unit {0}
IsDistinct (inner p b l r) =
    (has p l ≡ false)
    × (has p r ≡ false)
    × ((a : Ptr) → has a l ≡ true → has a r ≡ false)
    × IsDistinct l
    × IsDistinct r

pub has-root : (t : Tree) → has (root t) t ≡ true
has-root (leaf p) = ground arith
has-root (inner p b l r) = ground arith

module _ (h g : Heap) (key : Ptr → List ℕ)
    (bytes : (a : Ptr) → load_bytes g a ≡ load_bytes h a) where
  -- A tree survives any change that spares its own nodes.
  pub IsTree-frame :
      (up : Ptr) (t : Tree)
      → ((a : Ptr) → has a t ≡ true → load g a ≡ load h a)
      → IsTree h key up t
      → IsTree g key up t
  IsTree-frame up (leaf p) same is = record {
    n = is.n;
    at = same p (ground arith) ∙ is.at;
    bit = is.bit;
    parent = is.parent;
    holds = bytes is.n.rn_key ∙ is.holds;
  }
  IsTree-frame up (inner p b l r) same is = (
    record {
      n = is.0.n;
      at = same p (ground arith) ∙ is.0.at;
      bit = is.0.bit;
      bmask = is.0.bmask;
      offset = is.0.offset;
      sons = is.0.sons;
      parent = is.0.parent;
    },
    IsTree-frame p l (λ a m. same a (ground arith)) is.1,
    IsTree-frame p r (λ a m. same a (ground arith)) is.2,
  )

  -- So does one that hangs its root under another node.
  pub IsTree-reparent :
      (up up' : Ptr) (t : Tree) {xn : RadixNode}
      → IsTree h key up t
      → IsDistinct t
      → load h (root t) ≡ some xn
      → load g (root t) ≡ some (with_parent up' xn)
      → ((a : Ptr) → has a t ≡ true → a ≢ root t → load g a ≡ load h a)
      → IsTree g key up' t
  IsTree-reparent up up' (leaf p) {xn} is d at at' same =
      let e : is.n ≡ xn = ground (arith, is.at) in
      record {
        n = with_parent up' xn;
        at = at';
        bit = rw e at is.bit;
        parent = refl;
        holds = bytes xn.rn_key ∙ rw e at is.holds;
      }
  IsTree-reparent up up' (inner p b l r) {xn} is d at at' same =
      let e : is.0.n ≡ xn = ground (arith, is.0.at) in
      (
        record {
          n = with_parent up' xn;
          at = at';
          bit = rw e at is.0.bit;
          bmask = rw e at is.0.bmask;
          offset = rw e at is.0.offset;
          sons = rw e at is.0.sons;
          parent = refl;
        },
        IsTree-frame p l (λ a m. same a (ground arith) (ground arith)) is.1,
        IsTree-frame p r (λ a m. same a (ground arith) (ground arith)) is.2,
      )

-- The pair at `new` has gone between the two nodes of `q`, in `g`.
abbrev pub LinkedAt : (h g : Heap) (v : List ℕ) (v_arg b new : ℕ) → Ptr × Ptr → Type 0
LinkedAt h g v v_arg b new q =
    (right : Bool) × (r : Ready h v b q.0 q.1 new right) × Linked h v v_arg b q.0 q.1 new r g

module _ (h g : Heap) (key : Ptr → List ℕ) (v : List ℕ) (v_arg b new : ℕ)
    (holds : load_bytes h v_arg ≡ some v) (key_new : key new ≡ v) where
  -- The part of the tree below the new pair.
  pub pair-IsTree :
      (p : Ptr) (t : Tree)
      → IsTree h key p t
      → IsDistinct t
      → has p t ≡ false
      → has new t ≡ false
      → has (new + 1) t ≡ false
      → LinkedAt h g v v_arg b new (p, root t)
      → IsTree g key p (pair v b new t)
  pair-IsTree p t is d np nn nm (right, r, k) = elim (Bool-cases (key_bit v b)) [
    | inl one ↦ rw one (
      record {
        n = with_sons true new (root t) (with_parent p (new_inner r.t b new));
        at = rw one at k.at_t;
        bit = refl;
        bmask = refl;
        offset = refl;
        sons = (refl, refl);
        parent = refl;
      },
      below,
      new_IsLeaf,
    )
    | inr nil ↦ rw nil (
      record {
        n = with_sons false new (root t) (with_parent p (new_inner r.t b new));
        at = rw nil at k.at_t;
        bit = refl;
        bmask = refl;
        offset = refl;
        sons = (refl, refl);
        parent = refl;
      },
      new_IsLeaf,
      below,
    )
  ]
    where
      below : IsTree g key (new + 1) t
      below =
          IsTree-reparent h g key k.bytes p (new + 1) t is d r.at_x k.at_x
            λ a m ne. k.same a (ground arith) (ground arith) (ground arith) ne

      new_IsLeaf : IsLeafAt g (new + 1) new (key new)
      new_IsLeaf = record {
        n = new_leaf r.l v_arg new;
        at = k.at_l;
        bit = tt;
        parent = refl;
        holds = rw key_new (k.bytes v_arg ∙ holds);
      }

pub insert-pair :
    (v : List ℕ) (b new : ℕ) (t : Tree) → stops b t ≡ true → insert v b new t ≡ pair v b new t
unfolding insert
insert-pair v b new (leaf p) stop = refl
insert-pair v b new (inner p c l r) stop = ground arith

pub root-pair : (v : List ℕ) (b new : ℕ) (t : Tree) → root (pair v b new t) ≡ new + 1
root-pair v b new t = ground arith

pub root-insert :
    (v : List ℕ) (b new : ℕ) (t : Tree) → stops b t ≡ false → root (insert v b new t) ≡ root t
unfolding insert
root-insert v b new (leaf p) on = cc
root-insert v b new (inner p c l r) on = ground arith

-- Both nodes of the place belong to the tree.
pub has-place :
    (v : List ℕ) (b : ℕ) (t : Tree)
    → (has (place v b t).0 t ≡ true) × (has (place v b t).1 t ≡ true)
unfolding place
has-place v b (leaf p) = (ground arith, ground arith)
has-place v b (inner p c l r) = (
  ground (arith, has-place v b l, has-place v b r, has-root l, has-root r),
  ground (arith, has-place v b l, has-place v b r, has-root l, has-root r),
)
