-- ===== src/Radix/Tree/Walk.antt =====
-- `rn_walktree` of src/freebsd/radix.c goes through the leaves of a tree from left to right.
pub mod Loop
use freebsd_radix_userland.Common.{
  ℕ, zero, suc, ◌+◌, ◌-◌, ◌≤◌, ◌<◌, ◌≡◌, refl, sym, ◌∙◌, ap, ◌≢◌, Bool, true, false, not, ◌&&◌,
  Option, none, some, List, [], ◌∷◌, ◌++◌, arith, length, length-append, ◌==◌, if◌then◌else◌,
  and_then, Bool-cases, inl, inr,
}
use mathlib.Core.Path.{subst}
use mathlib.Core.Option.{some-injective}
use freebsd_radix_userland.Common.Int.{pos, negsuc}
use freebsd_radix_userland.Radix.Memory.{Ptr, RadixNode, RadixHead, Heap, M, pure, load}
use freebsd_radix_userland.Radix.Walk.{
  leftmost, climb, next_leaf, walk_chain, walk_loop, rn_walktree,
}
use freebsd_radix_userland.Radix.Tree.{Tree, leaf, inner, root, has, IsTree, IsLeafAt, IsInnerAt}
use freebsd_radix_userland.Radix.Tree.Search.{leaf_bit}
use freebsd_radix_userland.Radix.Tree.Insert.Holds.{IsDistinct, has-root}

abbrev pub leaves : Tree → List Ptr
leaves (leaf p) = p ∷ []
leaves (inner p b l r) = leaves l ++ leaves r

abbrev pub first : Tree → Ptr
first (leaf p) = p
first (inner p b l r) = first l

abbrev pub last : Tree → Ptr
last (leaf p) = p
last (inner p b l r) = last r

-- The number of nodes.
abbrev pub size : Tree → ℕ
size (leaf p) = 1
size (inner p b l r) = 1 + size l + size r

-- The length of the right edge.
abbrev edge : Tree → ℕ
edge (leaf p) = 0
edge (inner p b l r) = 1 + edge r

abbrev pub IsPlainAt : Heap → Ptr → Type 0
IsPlainAt h p = (n : RadixNode) → load h p ≡ some n → n.rn_flags.root ≡ false

-- No right son below has the flag RNF_ROOT.
abbrev pub IsPlain : Heap → Tree → Type 0
IsPlain h (leaf p) = Unit {0}
IsPlain h (inner p b l r) = IsPlainAt h (root r) × IsPlain h l × IsPlain h r

-- No right son has it, but perhaps those on the right edge.
abbrev pub IsWalkable : Heap → Tree → Type 0
IsWalkable h (leaf p) = Unit {0}
IsWalkable h (inner p b l r) = IsPlain h l × IsWalkable h r

IsPlain-IsWalkable : (h : Heap) (t : Tree) → IsPlain h t → IsWalkable h t
IsPlain-IsWalkable h (leaf p) a = tt
IsPlain-IsWalkable h (inner p b l r) a = (a.1, IsPlain-IsWalkable h r a.2)

pub size-positive : (t : Tree) → 1 ≤ size t
size-positive (leaf p) = omega arith
size-positive (inner p b l r) = omega arith

edge-lt : (t : Tree) → edge t < size t
edge-lt (leaf p) = omega arith
edge-lt (inner p b l r) = omega (arith, edge-lt r)

module _ (h : Heap) (key : Ptr → List ℕ) where
  -- The node at the root of a tree, with its parent.
  root_node :
      (up : Ptr) (t : Tree)
      → IsTree h key up t
      → (n : RadixNode) × (load h (root t) ≡ some n) × (n.rn_parent ≡ up)
  root_node up (leaf p) is = (is.n, is.at, is.parent)
  root_node up (inner p b l r) is = (is.0.n, is.0.at, is.0.parent)

  pub leftmost-first :
      (k : ℕ) (up : Ptr) (t : Tree)
      → IsTree h key up t
      → size t ≤ k
      → leftmost k h (root t) ≡ some (first t)
  unfolding leftmost
  leftmost-first zero up t is le = absurd (omega (arith, size-positive t))
  leftmost-first (suc k) up (leaf p) is le =
      let (m, e) = leaf_bit is.n.rn_bit is.bit in rw (is.at, e) refl
  leftmost-first (suc k) up (inner p b l r) is le =
      rw (is.0.at, is.0.bit, is.0.sons.0) (leftmost-first k p l is.1 (omega arith))

  -- From the last leaf the climb goes up the right edge.
  climb-last :
      (k : ℕ) (up : Ptr) (t : Tree)
      → IsTree h key up t
      → IsPlain h t
      → climb (edge t + k) h (last t) ≡ climb k h (root t)
  unfolding climb
  climb-last k up (leaf p) is a = let e : 0 + k ≡ k = omega arith in ap (λ j. climb j h p) e
  climb-last k up (inner p b l r) is a =
      let e : edge r + suc k ≡ 1 + edge r + k = omega arith in
      let (n, at, pa) = root_node p r is.2 in
      let plain = a.0 n at in
      let same : (root r == root r) ≡ true = ground arith in
      rw e at (climb-last (suc k) p r is.2 a.2)
      ∙ rw (at, pa, is.0.at, is.0.sons.1, same, plain) refl

  roots-ne :
      (p : Ptr) (b : ℕ) (l r : Tree) → IsDistinct (inner p b l r) → (root r == root l) ≡ false
  roots-ne p b l r d = elim (Bool-cases (root r == root l)) [
    | inr differ ↦ differ
    | inl e ↦
        let q : root r ≡ root l = ground arith in
        let here = subst (λ a. has a r ≡ true) q (has-root r) in
        let away = d.2 (root l) (has-root l) in absurd (cc)
  ]

  -- Behind the last leaf of a left subtree comes the first of the right one.
  next_leaf-last :
      (k up p b : ℕ) (l r : Tree)
      → IsTree h key up (inner p b l r)
      → IsPlain h l
      → IsDistinct (inner p b l r)
      → size l + size r ≤ k
      → next_leaf k h (last l) ≡ some (first r)
  unfolding next_leaf climb
  next_leaf-last k up p b l r is a d le =
      let j = k - edge l - 1 in
      let e : edge l + suc j ≡ k = omega (arith, edge-lt l) in
      let (n, at, pa) = root_node p l is.1 in
      let ne = roots-ne p b l r d in
      let up_left : climb k h (last l) ≡ some (root l) =
        rw e at (climb-last (suc j) p l is.1 a) ∙ rw (at, pa, is.0.at, is.0.sons.1, ne) refl in
      rw (up_left, at, pa, is.0.at, is.0.sons.1) (leftmost-first k p r is.2 (omega arith))

abbrev pub head_or : List Ptr → Ptr → Ptr
head_or [] z = z
head_or (x ∷ xs) z = x

-- `next_leaf` goes from each leaf of the list to the next, and from the last to `z`.
abbrev pub IsLinked : ℕ → Heap → List Ptr → Ptr → Type 0
IsLinked k h [] z = Unit {0}
IsLinked k h (x ∷ xs) z = (next_leaf k h x ≡ some (head_or xs z)) × IsLinked k h xs z

head_or-append : (xs ys : List Ptr) (z : Ptr) → head_or (xs ++ ys) z ≡ head_or xs (head_or ys z)
head_or-append [] ys z = refl
head_or-append (x ∷ xs) ys z = refl

IsLinked-append :
    (k : ℕ) (h : Heap) (xs ys : List Ptr) (z : Ptr)
    → IsLinked k h xs (head_or ys z)
    → IsLinked k h ys z
    → IsLinked k h (xs ++ ys) z
IsLinked-append k h [] ys z a b = b
IsLinked-append k h (x ∷ xs) ys z a b =
    (a.0 ∙ ap some (sym (head_or-append xs ys z)), IsLinked-append k h xs ys z a.1 b)

pub head_or-leaves : (t : Tree) (z : Ptr) → head_or (leaves t) z ≡ first t
head_or-leaves (leaf p) z = refl
head_or-leaves (inner p b l r) z =
    head_or-append (leaves l) (leaves r) z ∙ head_or-leaves l (head_or (leaves r) z)

-- The leaves of a tree are linked from left to right.
pub leaves-IsLinked :
    (h : Heap) (key : Ptr → List ℕ) (k up : ℕ) (t : Tree) (z : Ptr)
    → IsTree h key up t
    → IsWalkable h t
    → IsDistinct t
    → size t ≤ k
    → next_leaf k h (last t) ≡ some z
    → IsLinked k h (leaves t) z
leaves-IsLinked h key k up (leaf p) z is a d le e = (e, tt)
leaves-IsLinked h key k up (inner p b l r) z is a d le e =
    let across = next_leaf-last h key k up p b l r is a.0 d (omega arith) in
    IsLinked-append k h (leaves l) (leaves r) z
      (leaves-IsLinked h key k p l (head_or (leaves r) z) is.1 (IsPlain-IsWalkable h l a.0) d.3
        (omega (arith, size-positive r)) (across ∙ ap some (sym (head_or-leaves r z))))
      (leaves-IsLinked h key k p r z is.2 a.1 d.4 (omega (arith, size-positive l)) e)

pub IsLinked-init :
    (k : ℕ) (h : Heap) (xs : List Ptr) (z y : Ptr)
    → IsLinked k h (xs ++ z ∷ []) y
    → IsLinked k h xs z
IsLinked-init k h [] z y a = tt
IsLinked-init k h (x ∷ xs) z y a =
    (a.0 ∙ ap some (head_or-append xs (z ∷ []) y), IsLinked-init k h xs z y a.1)

final : List Ptr → Ptr → Ptr
final [] d = d
final (x ∷ xs) d = final xs x

final-append : (xs ys : List Ptr) (d : Ptr) → final (xs ++ ys) d ≡ final ys (final xs d)
unfolding final
final-append [] ys d = refl
final-append (x ∷ xs) ys d = final-append xs ys x

final-leaves : (t : Tree) (d : Ptr) → final (leaves t) d ≡ last t
unfolding final
final-leaves (leaf p) d = refl
final-leaves (inner p b l r) d =
    final-append (leaves l) (leaves r) d ∙ final-leaves r (final (leaves l) d)

pub last-leaves : (t : Tree) (xs : List Ptr) (z : Ptr) → leaves t ≡ xs ++ z ∷ [] → last t ≡ z
unfolding final
last-leaves t xs z e = sym (final-leaves t 0) ∙ ap (λ ys. final ys 0) e ∙ final-append xs (z ∷ []) 0

pub length-leaves : (t : Tree) → length (leaves t) ≤ size t
length-leaves (leaf p) = omega arith
length-leaves (inner p b l r) =
    omega (arith, length-append (leaves l) (leaves r), length-leaves l, length-leaves r)

-- From the last leaf, which is marked as a root, `next_leaf` stays where it is.
pub next_leaf-root :
    (h : Heap) (key : Ptr → List ℕ) (k up p b : ℕ) (l r : Tree) (n : RadixNode)
    → IsTree h key up (inner p b l r)
    → load h (last r) ≡ some n
    → n.rn_flags.root ≡ true
    → next_leaf (suc k) h (last r) ≡ some (last r)
unfolding next_leaf climb leftmost
next_leaf-root h key k up p b l (leaf q) n is at marked =
    let m = is.2 in
    let same : (q == q) ≡ true = ground arith in
    let (i, e) = leaf_bit m.n.rn_bit m.bit in
    let n-same : m.n ≡ n = some-injective m.n n (sym m.at ∙ at) in
    let marked' : m.n.rn_flags.root ≡ true =
      subst (λ o. o.rn_flags.root ≡ true) (sym n-same) marked in
    rw
      (
        m.at, m.parent, is.0.at, is.0.sons.1, same, marked', m.at, m.parent, is.0.at, is.0.sons.1,
        m.at, e,
      )
      (ap some is.0.sons.1)
next_leaf-root h key k up p b l (inner q c l' r') n is at marked =
    next_leaf-root h key k p q c l' r' n is.2 at marked
