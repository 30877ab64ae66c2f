-- ===== src/Radix/Tree/State/Routes.antt =====
-- What `rn_match` of src/freebsd/radix.c finds after `rn_insert` has put in a host route.
use freebsd_radix_userland.Common.{
  ℕ, ◌+◌, ◌*◌, ◌/◌, ◌<◌, ◌≡◌, refl, sym, ◌∙◌, ap, ◌≢◌, ◌⊎◌, inl, inr, Bool, true, false, some, List,
  arith, ◌==◌, Bool-cases,
}
use mathlib.Core.Path.{subst}
use freebsd_radix_userland.Radix.Memory.{Ptr, null, RadixNode, RadixHead, Heap, load}
use freebsd_radix_userland.Radix.Masks.{len_byte}
use freebsd_radix_userland.Radix.Search.FirstBit.{key_bit}
use freebsd_radix_userland.Radix.Match.{rn_match}
use freebsd_radix_userland.Radix.Tree.{Tree, leaf, inner, has, leaf_mem}
use freebsd_radix_userland.Radix.Tree.Host.{IsHostTree}
use freebsd_radix_userland.Radix.Tree.Insert.{insert, place}
use freebsd_radix_userland.Radix.Tree.Insert.Link.{
  with_son, with_parent, with_sons, new_leaf, new_inner,
}
use freebsd_radix_userland.Radix.Tree.Insert.Holds.{LinkedAt}
use freebsd_radix_userland.Radix.Tree.Insert.Distinct.{has-insert}
use freebsd_radix_userland.Radix.Tree.State.{IsKey, IsNew}
use freebsd_radix_userland.Radix.Tree.State.Insert.{Entered}
use freebsd_radix_userland.Radix.Tree.State.Lookup.{leaf_mem-insert}
use freebsd_radix_userland.Radix.Tree.State.Match.{HasKey, IsRoot, rn_match-leaf}

-- A node with no mask, no duplicates and no list of masks.
pub record IsPlain (n : RadixNode) : Type 0 where
  pub mask : n.rn_mask ≡ null
  pub dupedkey : n.rn_dupedkey ≡ null
  pub mklist : n.rn_mklist ≡ null

abbrev pub IsPlainAt : Heap → Ptr → Type 0
IsPlainAt h a = (n : RadixNode) × (load h a ≡ some n) × IsPlain n

abbrev pub IsPlainTree : Heap → Tree → Type 0
IsPlainTree h t = (a : Ptr) → has a t ≡ true → IsPlainAt h a

IsPlainTree-IsHostTree : (h : Heap) (t : Tree) → IsPlainTree h t → IsHostTree h t
IsPlainTree-IsHostTree h (leaf p) plain =
    let (n, at, f) = plain p (ground arith) in
    record { n = n; at = at; mask = f.mask; dupedkey = f.dupedkey }
IsPlainTree-IsHostTree h (inner p b l r) plain =
    let (n, at, f) = plain p (ground arith) in
    (
      record { n = n; at = at; mklist = f.mklist },
      IsPlainTree-IsHostTree h l (λ a m. plain a (ground arith)),
      IsPlainTree-IsHostTree h r (λ a m. plain a (ground arith)),
    )

-- What linking leaves of a node.
record Kept (n n' : RadixNode) : Type 0 where
  flags : n'.rn_flags ≡ n.rn_flags
  plain : IsPlain n → IsPlain n'

with_son-Kept : (right : Bool) (t : Ptr) (n : RadixNode) → Kept n (with_son right t n)
with_son-Kept true t n = record {
  flags = refl;
  plain = λ f. record { mask = f.mask; dupedkey = f.dupedkey; mklist = f.mklist };
}
with_son-Kept false t n = record {
  flags = refl;
  plain = λ f. record { mask = f.mask; dupedkey = f.dupedkey; mklist = f.mklist };
}

with_parent-Kept : (p : Ptr) (n : RadixNode) → Kept n (with_parent p n)
with_parent-Kept p n = record {
  flags = refl;
  plain = λ f. record { mask = f.mask; dupedkey = f.dupedkey; mklist = f.mklist };
}

module _ (h g : Heap) (v : List ℕ) (v_arg b new : ℕ) (t : Tree)
    (link : LinkedAt h g v v_arg b new (place v b t)) where
  -- Every node but the two new ones is kept.
  Kept-at :
      (a : Ptr) (n : RadixNode)
      → a ≢ new
      → a ≢ new + 1
      → load h a ≡ some n
      → (n' : RadixNode) × (load g a ≡ some n') × Kept n n'
  Kept-at a n an am at =
      let (right, r, k) = link in
      elim (Bool-cases (a == (place v b t).0)) [
        | inl at_p ↦
            let e : a ≡ (place v b t).0 = ground arith in
            let both : some n ≡ some r.pn = sym at ∙ rw e r.at_p in
            let same : n ≡ r.pn = cc in
            (
              with_son right (new + 1) r.pn,
              rw e k.at_p,
              rw same (with_son-Kept right (new + 1) r.pn),
            )
        | inr not_p ↦ elim (Bool-cases (a == (place v b t).1)) [
          | inl at_x ↦
              let e : a ≡ (place v b t).1 = ground arith in
              let both : some n ≡ some r.xn = sym at ∙ rw e r.at_x in
              let same : n ≡ r.xn = cc in
              (with_parent (new + 1) r.xn, rw e k.at_x, rw same (with_parent-Kept (new + 1) r.xn))
          | inr not_x ↦ (
            n,
            k.same a an am (ground arith) (ground arith) ∙ at,
            record { flags = refl; plain = λ f. f },
          )
        ]
      ]

  linked-IsPlainTree :
      has new t ≡ false
      → has (new + 1) t ≡ false
      → IsPlainTree h t
      → IsPlainAt h new
      → IsPlainAt h (new + 1)
      → IsPlainTree g (insert v b new t)
  linked-IsPlainTree fn fm plain (nl, el, pl) (nt, et, pt) a m =
      let (right, r, k) = link in
      elim (Bool-cases (a == new)) [
        | inl at_new ↦
            let e : a ≡ new = ground arith in
            let both : some nl ≡ some r.l = sym el ∙ r.at_l in
            let same : nl ≡ r.l = cc in
            let f : IsPlain r.l = rw same at pl in
            (
              new_leaf r.l v_arg new,
              rw e k.at_l,
              record { mask = f.mask; dupedkey = f.dupedkey; mklist = refl },
            )
        | inr not_new ↦ elim (Bool-cases (a == new + 1)) [
          | inl at_up ↦
              let e : a ≡ new + 1 = ground arith in
              let both : some nt ≡ some r.t = sym et ∙ r.at_t in
              let same : nt ≡ r.t = cc in
              let f : IsPlain r.t = rw same at pt in
              (
                with_sons (key_bit v b) new (place v b t).1
                    (with_parent (place v b t).0 (new_inner r.t b new)),
                rw e k.at_t,
                sons-IsPlain (key_bit v b) (place v b t).1 f,
              )
          | inr not_up ↦
              let old : has a t ≡ true = ground (arith, has-insert a v b new t) in
              let (n, at, f) = plain a old in
              let (n', at', kept) = Kept-at a n (ground arith) (ground arith) at in
              (n', at', kept.plain f)
        ]
      ]
    where
      sons-IsPlain :
          (right : Bool) (x : Ptr) {n : RadixNode}
          → IsPlain n
          → IsPlain (with_sons right new x (with_parent (place v b t).0 (new_inner n b new)))
      sons-IsPlain true x f = record { mask = f.mask; dupedkey = f.dupedkey; mklist = refl }
      sons-IsPlain false x f = record { mask = f.mask; dupedkey = f.dupedkey; mklist = refl }

  -- A leaf is a root afterwards only if it was one.
  linked-IsRoot :
      (q : Ptr)
      → (n : RadixNode) × (load h q ≡ some n)
      → q ≢ new + 1
      → IsRoot g q
      → (q ≢ new) × IsRoot h q
  linked-IsRoot q (n, at) up (m, at_m, is_root) =
      let (right, r, k) = link in
      elim (Bool-cases (q == new)) [
        | inl at_new ↦
            let e : q ≡ new = ground arith in
            let both : some m ≡ some (new_leaf r.l v_arg new) = sym at_m ∙ rw e k.at_l in
            let same : m ≡ new_leaf r.l v_arg new = cc in
            let no : false ≡ true = rw same at is_root in absurd (cc)
        | inr not_new ↦
            let ne : q ≢ new = ground arith in
            let (n', at', kept) = Kept-at q n ne up at in
            let both : some m ≡ some n' = sym at_m ∙ at' in
            let same : m ≡ n' = cc in
            (ne, (n, at, sym (ap (λ f. f.root) kept.flags) ∙ rw same at is_root))
      ]

leaf_mem-has : (q : Ptr) (t : Tree) → leaf_mem q t ≡ true → has q t ≡ true
leaf_mem-has q (leaf p) m = ground arith
leaf_mem-has q (inner p b l r) m = ground (arith, leaf_mem-has q l, leaf_mem-has q r)

-- On a tree of host routes into which `rn_insert` has put a new one, whose pair of nodes was zeroed,
-- and with more fuel than bits, `rn_match` returns the new leaf for its key, and each leaf that was
-- there before, the roots aside, for that leaf's key.
pub rn_match-rn_insert :
    (k : ℕ) (h : Heap) (key : Ptr → List ℕ) (head : RadixHead) (lo hi : ℕ) (t : Tree)
    (v_arg new : Ptr) (v w : List ℕ) (q : Ptr) (e : Entered k h key head lo hi t v_arg new v)
    → IsNew h key lo hi t v_arg new v
    → IsPlainTree h t
    → IsPlainAt h new
    → IsPlainAt h (new + 1)
    → hi < k + lo
    → (q ≡ new) ⊎ ((leaf_mem q t ≡ true) × ¬ IsRoot h q)
    → IsKey hi w
    → len_byte w * 8 ≡ hi
    → HasKey (lo / 8) w (key q)
    → rn_match k e.g w head ≡ some q
rn_match-rn_insert k h key head lo hi t v_arg new v w q e n plain pl pt fuel m is_key size same =
    let here : leaf_mem q (insert v e.b new t) ≡ true =
      ground (arith, leaf_mem-insert q v e.b new t) in
    let host =
      IsPlainTree-IsHostTree e.g (insert v e.b new t)
        (linked-IsPlainTree h e.g v v_arg e.b new t e.link n.fresh.0 n.fresh.1 plain pl pt) in
    let moved = linked-IsRoot h e.g v v_arg e.b new t e.link q in
    rn_match-leaf k e.g key head lo hi e.l' e.r' w e.state (subst (IsHostTree e.g) e.grown host)
      is_key size fuel q (subst (λ t'. leaf_mem q t' ≡ true) e.grown here) same
      (elim m [
        | inl at_new ↦ λ is_root.
            let at : load h q ≡ some n.leaf_node.0 = rw at_new n.leaf_node.1 in
            (moved (n.leaf_node.0, at) (omega arith) is_root).0 at_new
        | inr (old, no_root) ↦ λ is_root.
            let (node, at, _) = plain q (leaf_mem-has q t old) in
            let up : q ≢ new + 1 = λ up.
              let z : has q t ≡ false = rw up n.fresh.1 in
              let o = leaf_mem-has q t old in absurd (cc) in
            no_root (moved (node, at) up is_root).1
      ])
