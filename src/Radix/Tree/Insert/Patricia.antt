-- ===== src/Radix/Tree/Insert/Patricia.antt =====
-- The new pair keeps the order of the bits and the agreement of the keys.
use freebsd_radix_userland.Common.{
  ℕ, ◌+◌, ◌≤◌, ◌<◌, ◌≡◌, refl, sym, ◌∙◌, ap, ◌≢◌, inl, inr, Bool, true, false, List, arith, ltb,
  Bool-cases,
}
use mathlib.Core.Path.{subst}
use freebsd_radix_userland.Radix.Memory.{Ptr}
use freebsd_radix_userland.Radix.Search.FirstBit.{key_bit}
use freebsd_radix_userland.Radix.Tree.{
  Tree, leaf, inner, descend, IsOrdered, AllLeaves, leaf_mem, IsPatricia,
}
use freebsd_radix_userland.Radix.Tree.Search.{all_at}
use freebsd_radix_userland.Radix.Tree.Insert.{stops, pair, insert}

AllLeaves-map :
    (P Q : Ptr → Type 0) (t : Tree) → ((q : Ptr) → P q → Q q) → AllLeaves P t → AllLeaves Q t
AllLeaves-map P Q (leaf p) f a = f p a
AllLeaves-map P Q (inner p b l r) f a = (AllLeaves-map P Q l f a.0, AllLeaves-map P Q r f a.1)

pub AllLeaves-insert :
    (P : Ptr → Type 0) (v : List ℕ) (b new : ℕ) (t : Tree)
    → P new
    → AllLeaves P t
    → AllLeaves P (insert v b new t)
unfolding insert
AllLeaves-insert P v b new (leaf p) n a = elim (Bool-cases (key_bit v b)) [
  | inl one ↦ rw one (a, n)
  | inr nil ↦ rw nil (n, a)
]
AllLeaves-insert P v b new (inner p c l r) n a = elim (Bool-cases (ltb c b)) [
  | inl before ↦ rw before (elim (Bool-cases (key_bit v c)) [
    | inl one ↦ rw one (a.0, AllLeaves-insert P v b new r n a.1)
    | inr nil ↦ rw nil (AllLeaves-insert P v b new l n a.0, a.1)
  ])
  | inr over ↦
      rw over
        (elim (Bool-cases (key_bit v b)) [ inl one ↦ rw one (a, n) | inr nil ↦ rw nil (n, a) ])
]

pub leaf_mem-descend : (v : List ℕ) (t : Tree) → leaf_mem (descend v t) t ≡ true
leaf_mem-descend v (leaf p) = ground arith
leaf_mem-descend v (inner p b l r) = ground (arith, leaf_mem-descend v l, leaf_mem-descend v r)

IsOrdered-weaken : (lo lo' hi : ℕ) (t : Tree) → lo' ≤ lo → IsOrdered lo hi t → IsOrdered lo' hi t
IsOrdered-weaken lo lo' hi (leaf p) le o = tt
IsOrdered-weaken lo lo' hi (inner p b l r) le o = (omega arith, o.1, o.2, o.3)

module _ (key : Ptr → List ℕ) where
  IsPatricia-weaken :
      (lo lo' : ℕ) (t : Tree) → lo ≤ lo' → IsPatricia key lo t → IsPatricia key lo' t
  IsPatricia-weaken lo lo' (leaf p) le a = tt
  IsPatricia-weaken lo lo' (inner p b l r) le a =
      (a.0, a.1, λ c lower upper. a.2 c (omega arith) upper, a.3, a.4)

  -- The leaf to which a key leads has the key's bit at the root.
  pub bit-descend :
      (v : List ℕ) (lo : ℕ) (p c : ℕ) (l r : Tree)
      → IsPatricia key lo (inner p c l r)
      → key_bit (key (descend v (inner p c l r))) c ≡ key_bit v c
  bit-descend v lo p c l r a = elim (Bool-cases (key_bit v c)) [
    | inl one ↦ rw one (all_at (λ q. key_bit (key q) c ≡ true) _ r a.1 (leaf_mem-descend v r))
    | inr nil ↦ rw nil (all_at (λ q. key_bit (key q) c ≡ false) _ l a.0 (leaf_mem-descend v l))
  ]

  -- Before the bit of the root all leaves agree with the one to which a key leads.
  agree :
      (v : List ℕ) (lo c : ℕ) (t : Tree)
      → IsPatricia key lo t
      → lo ≤ c
      → stops (c + 1) t ≡ true
      → AllLeaves (λ q. key_bit (key q) c ≡ key_bit (key (descend v t)) c) t
  agree v lo c (leaf p) a lower s = refl
  agree v lo c (inner p b l r) a lower s =
      let (w, al, ar) = a.2 c lower (ground arith) in
      let P : Ptr → Type 0 = λ q. key_bit (key q) c ≡ w in
      let e : key_bit (key (descend v (inner p b l r))) c ≡ w =
        all_at P (descend v (inner p b l r)) (inner p b l r) (al, ar)
          (leaf_mem-descend v (inner p b l r)) in
      AllLeaves-map P _ (inner p b l r) (λ q m. m ∙ sym e) (al, ar)

-- `b` is the first bit from `lo` on at which `v` differs from the key of the leaf that it leads to.
pub record SplitsAt (key : Ptr → List ℕ) (v : List ℕ) (lo hi b : ℕ) (t : Tree) : Type 0 where
  pub lower : lo ≤ b
  pub upper : b < hi
  pub ne : key_bit v b ≢ key_bit (key (descend v t)) b
  pub before : (c : ℕ) → lo ≤ c → c < b → key_bit v c ≡ key_bit (key (descend v t)) c

module _ (key : Ptr → List ℕ) (v : List ℕ) (b new : ℕ) (key_new : key new ≡ v) where
  -- The root of a tree that is not below the split tests a later bit.
  stops_after :
      (lo hi : ℕ) (t : Tree)
      → IsPatricia key lo t
      → SplitsAt key v lo hi b t
      → stops b t ≡ true
      → stops (b + 1) t ≡ true
  stops_after lo hi (leaf p) a s stop = refl
  stops_after lo hi (inner p c l r) a s stop =
      let q = descend v (inner p c l r) in
      let ne : c ≢ b = λ e.
        s.ne
          (subst (λ d. key_bit v d ≡ key_bit (key q) d) e (sym (bit-descend key v lo p c l r a))) in
      ground arith

  -- So the pair over it is in order.
  pair-IsOrdered :
      (lo hi : ℕ) (t : Tree)
      → IsOrdered lo hi t
      → IsPatricia key lo t
      → SplitsAt key v lo hi b t
      → stops b t ≡ true
      → IsOrdered lo hi (pair v b new t)
  pair-IsOrdered lo hi t o a s stop =
      let o' = raise t o (stops_after lo hi t a s stop) in
      elim (Bool-cases (key_bit v b)) [
        | inl one ↦ rw one (s.lower, s.upper, o', tt)
        | inr nil ↦ rw nil (s.lower, s.upper, tt, o')
      ]
    where
      raise : (t : Tree) → IsOrdered lo hi t → stops (b + 1) t ≡ true → IsOrdered (b + 1) hi t
      raise (leaf p) o e = tt
      raise (inner p c l r) o e = (ground arith, o.1, o.2, o.3)

  -- All leaves below the split have the other bit there, and agree before it.
  pair-IsPatricia :
      (lo hi : ℕ) (t : Tree)
      → IsPatricia key lo t
      → SplitsAt key v lo hi b t
      → stops b t ≡ true
      → IsPatricia key lo (pair v b new t)
  pair-IsPatricia lo hi t a s stop =
      let q = descend v t in
      let later = stops_after lo hi t a s stop in
      let same = agree key v lo b t a s.lower later in
      let a' = IsPatricia-weaken key lo (b + 1) t (omega (arith, s.lower)) a in
      let common : (c : ℕ) → lo ≤ c → c < b → AllLeaves (λ q'. key_bit (key q') c ≡ key_bit v c) t =
        λ c lower upper.
          AllLeaves-map (λ q'. key_bit (key q') c ≡ key_bit (key q) c) _ t
            (λ q' e. e ∙ sym (s.before c lower upper))
            (agree key v lo c t a lower (stops_mono c t upper later)) in
      let own : (c : ℕ) → key_bit (key new) c ≡ key_bit v c = λ c. ap (λ w. key_bit w c) key_new in
      elim (Bool-cases (key_bit v b)) [
        | inl one ↦ rw one (
          AllLeaves-map (λ q'. key_bit (key q') b ≡ key_bit (key q) b) _ t
              (λ q' e. ground (arith, e, s.ne)) same,
          own b ∙ one,
          λ c lower upper. (key_bit v c, common c lower upper, own c),
          a',
          tt,
        )
        | inr nil ↦ rw nil (
          own b ∙ nil,
          AllLeaves-map (λ q'. key_bit (key q') b ≡ key_bit (key q) b) _ t
              (λ q' e. ground (arith, e, s.ne)) same,
          λ c lower upper. (key_bit v c, own c, common c lower upper),
          tt,
          a',
        )
      ]
    where
      stops_mono : (c : ℕ) (t : Tree) → c < b → stops (b + 1) t ≡ true → stops (c + 1) t ≡ true
      stops_mono c (leaf p) lt e = refl
      stops_mono c (inner p d l r) lt e = ground arith

  split_right :
      (lo hi p c : ℕ) (l r : Tree)
      → SplitsAt key v lo hi b (inner p c l r)
      → c < b
      → lo ≤ c
      → key_bit v c ≡ true
      → SplitsAt key v (c + 1) hi b r
  split_right lo hi p c l r s lt le one = record {
    lower = omega arith;
    upper = s.upper;
    ne = rw one at s.ne;
    before = λ d lower upper. rw one at (s.before d (omega arith) upper);
  }

  split_left :
      (lo hi p c : ℕ) (l r : Tree)
      → SplitsAt key v lo hi b (inner p c l r)
      → c < b
      → lo ≤ c
      → key_bit v c ≡ false
      → SplitsAt key v (c + 1) hi b l
  split_left lo hi p c l r s lt le nil = record {
    lower = omega arith;
    upper = s.upper;
    ne = rw nil at s.ne;
    before = λ d lower upper. rw nil at (s.before d (omega arith) upper);
  }

  pub insert-IsOrdered :
      (lo hi : ℕ) (t : Tree)
      → IsOrdered lo hi t
      → IsPatricia key lo t
      → SplitsAt key v lo hi b t
      → IsOrdered lo hi (insert v b new t)
  unfolding insert
  insert-IsOrdered lo hi (leaf p) o a s = pair-IsOrdered lo hi (leaf p) o a s refl
  insert-IsOrdered lo hi (inner p c l r) o a s = elim (Bool-cases (ltb c b)) [
    | inr over ↦ rw over (pair-IsOrdered lo hi (inner p c l r) o a s (ground arith))
    | inl before ↦
        let lt : c < b = ground arith in
        rw before (elim (Bool-cases (key_bit v c)) [
          | inl one ↦ rw one (
            o.0,
            o.1,
            o.2,
            insert-IsOrdered (c + 1) hi r o.3 a.4 (split_right lo hi p c l r s lt o.0 one),
          )
          | inr nil ↦ rw nil (
            o.0,
            o.1,
            insert-IsOrdered (c + 1) hi l o.2 a.3 (split_left lo hi p c l r s lt o.0 nil),
            o.3,
          )
        ])
  ]

  pub insert-IsPatricia :
      (lo hi : ℕ) (t : Tree)
      → IsOrdered lo hi t
      → IsPatricia key lo t
      → SplitsAt key v lo hi b t
      → IsPatricia key lo (insert v b new t)
  unfolding insert
  insert-IsPatricia lo hi (leaf p) o a s = pair-IsPatricia lo hi (leaf p) a s refl
  insert-IsPatricia lo hi (inner p c l r) o a s = elim (Bool-cases (ltb c b)) [
    | inr over ↦ rw over (pair-IsPatricia lo hi (inner p c l r) a s (ground arith))
    | inl before ↦
        let lt : c < b = ground arith in
        let own : (d : ℕ) → key_bit (key new) d ≡ key_bit v d =
          λ d. ap (λ w. key_bit w d) key_new in
        let q = descend v (inner p c l r) in
        let whole : (d : ℕ) (w : Bool)
            → lo ≤ d
            → d < c
            → AllLeaves (λ q'. key_bit (key q') d ≡ w) (inner p c l r)
            → key_bit (key new) d ≡ w =
          λ d w lower upper all.
            own d
            ∙ s.before d lower (omega arith)
            ∙ all_at (λ q'. key_bit (key q') d ≡ w) q (inner p c l r) all
                (leaf_mem-descend v (inner p c l r)) in
        rw before (elim (Bool-cases (key_bit v c)) [
          | inl one ↦ rw one (
            a.0,
            AllLeaves-insert (λ q'. key_bit (key q') c ≡ true) v b new r (own c ∙ one) a.1,
            (λ d lower upper.
                let (w, al, ar) = a.2 d lower upper in
                (
                  w,
                  al,
                  AllLeaves-insert (λ q'. key_bit (key q') d ≡ w) v b new r
                      (whole d w lower upper (al, ar)) ar,
                )),
            a.3,
            insert-IsPatricia (c + 1) hi r o.3 a.4 (split_right lo hi p c l r s lt o.0 one),
          )
          | inr nil ↦ rw nil (
            AllLeaves-insert (λ q'. key_bit (key q') c ≡ false) v b new l (own c ∙ nil) a.0,
            a.1,
            (λ d lower upper.
                let (w, al, ar) = a.2 d lower upper in
                (
                  w,
                  AllLeaves-insert (λ q'. key_bit (key q') d ≡ w) v b new l
                      (whole d w lower upper (al, ar)) al,
                  ar,
                )),
            insert-IsPatricia (c + 1) hi l o.2 a.3 (split_left lo hi p c l r s lt o.0 nil),
            a.4,
          )
        ])
  ]
