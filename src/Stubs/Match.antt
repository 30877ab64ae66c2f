-- ===== src/Stubs/Match.antt =====
-- src/radix_stubs.c: the search of `stub_matchaddr` is for the largest mask that matches.
use freebsd_radix_userland.Common.{
  ℕ, max, zero, suc, ◌+◌, ◌≤◌, ◌≡◌, refl, ◌∙◌, ap, ◌⊎◌, inl, inr, Bool, true, false, not, Option,
  none, some, List, [], ◌∷◌, get_elem?, length, arith, leb, ◌==◌, if◌then◌else◌, bit_and,
  Bool-cases, get_elem?-eq_some,
}
use mathlib.Core.Path.{subst}
use freebsd_radix_userland.Radix.Memory.{null}
use freebsd_radix_userland.Stubs.{
  sa_family, sin_addr, Entry, StubHead, addr_matches, better, match_loop, stub_matchaddr,
}

-- Whether the entry is an IPv4 one that has the address under its mask.
abbrev pub is_hit : List ℕ → Entry → Bool
is_hit v e =
    if not (sa_family v == sa_family e.dst)
    then false
    else if not (sa_family v == 2)
    then false
    else bit_and (sin_addr v) (sin_addr e.mask) == bit_and (sin_addr e.dst) (sin_addr e.mask)

-- An entry with an IPv4 mask ranks by it, above every entry with none, and that above no entry.
abbrev pub rank : Entry → ℕ
rank e = if sa_family e.mask == 2 then 2 + sin_addr e.mask else 1

rank-positive : (e : Entry) → 1 ≤ rank e
rank-positive e = ground arith

abbrev pub rank? : Option Entry → ℕ
rank? none = 0
rank? (some e) = rank e

pub addr_matches-is_hit :
    (v : List ℕ) (e : Entry) → 8 ≤ length v → addr_matches v e.dst (some e.mask) ≡ some (is_hit v e)
unfolding addr_matches
addr_matches-is_hit v e long =
    let enough : leb 8 (length v) ≡ true = ground arith in
    rw (get_elem?-eq_some v 1 0 (omega arith), enough)
      (elim (Bool-cases (sa_family v == sa_family e.dst)) [
        | inr differ ↦ rw differ refl
        | inl same ↦ elim (Bool-cases (sa_family v == 2)) [
          | inl inet ↦ rw (same, inet) refl
          | inr other ↦ rw (same, other) refl
        ]
      ])

-- `best_mask` is the mask of `best_match`.
abbrev Keeps : Option Entry × ℕ → Type 0
Keeps acc = acc.1 + 2 ≡ max (rank? acc.0) 2

-- What one round leaves.
record IsRound (hit : Bool) (e : Entry) (acc next : Option Entry × ℕ) : Type 0 where
  keeps : Keeps next
  grows : rank? acc.0 ≤ rank? next.0
  covers : hit ≡ true → rank e ≤ rank? next.0
  source : (next.0 ≡ acc.0) ⊎ ((hit ≡ true) × (next.0 ≡ some e))

better-IsRound :
    (hit : Bool) (e : Entry) (acc : Option Entry × ℕ)
    → Keeps acc
    → IsRound hit e acc (better hit e acc)
unfolding better
better-IsRound false e (best, best_mask) k = record {
  keeps = k;
  grows = omega arith;
  covers = λ h. absurd (cc);
  source = inl refl;
}
better-IsRound true e (best, best_mask) k = elim (Bool-cases (sa_family e.mask == 2)) [
  | inl inet ↦
      let re : rank e ≡ 2 + sin_addr e.mask = rw inet refl in
      elim (Bool-cases (leb best_mask (sin_addr e.mask))) [
        | inl more ↦
            let le : best_mask ≤ sin_addr e.mask = ground arith in
            rw (inet, more)
              (record {
                keeps = omega (arith, re);
                grows = omega (arith, re, k, le);
                covers = λ h. omega arith;
                source = inr (refl, refl);
              })
        | inr less ↦
            let gt : suc (sin_addr e.mask) ≤ best_mask = ground arith in
            rw (inet, less)
              (record {
                keeps = k;
                grows = omega arith;
                covers = λ h. omega (arith, re, k, gt);
                source = inl refl;
              })
      ]
  | inr other ↦ let re : rank e ≡ 1 = rw other refl in rw other (first best k re)
]
  where
    first :
        (b : Option Entry)
        → Keeps (b, best_mask)
        → rank e ≡ 1
        → IsRound true e (b, best_mask) (elim b [ none ↦ some e | some b' ↦ some b' ], best_mask)
    first none k re = record {
      keeps = omega (arith, re, k);
      grows = omega arith;
      covers = λ h. omega arith;
      source = inr (refl, refl);
    }
    first (some b) k re = elim (Bool-cases (sa_family b.mask == 2)) [
      | inl inet ↦
          let rb : rank b ≡ 2 + sin_addr b.mask = rw inet refl in
          record {
            keeps = k;
            grows = omega arith;
            covers = λ h. omega (arith, re, rb);
            source = inl refl;
          }
      | inr plain ↦
          let rb : rank b ≡ 1 = rw plain refl in
          record {
            keeps = k;
            grows = omega arith;
            covers = λ h. omega (arith, re, rb);
            source = inl refl;
          }
    ]

-- What the loop finds in a list, from an entry that it has found before.
record IsBest (v : List ℕ) (es : List Entry) (start best : Option Entry) : Type 0 where
  grows : rank? start ≤ rank? best
  covers : (i : ℕ) (e : Entry) → get_elem? es i ≡ some e → is_hit v e ≡ true → rank e ≤ rank? best
  source :
      (best ≡ start)
      ⊎ ((i : ℕ) × (e : Entry) × (get_elem? es i ≡ some e) × (is_hit v e ≡ true) × (best ≡ some e))

module _ (v : List ℕ) (e : Entry) (es : List Entry) (acc next : Option Entry × ℕ)
    (best : Option Entry) (round : IsRound (is_hit v e) e acc next)
    (is : IsBest v es next.0 best) where
  covers-cons :
      (i : ℕ) (x : Entry) → get_elem? (e ∷ es) i ≡ some x → is_hit v x ≡ true → rank x ≤ rank? best
  covers-cons zero x at =
      let same : e ≡ x = cc in
      subst (λ y. is_hit v y ≡ true → rank y ≤ rank? best) same
        (λ h. omega (arith, round.covers h, is.grows))
  covers-cons (suc j) x at = is.covers j x at

  IsBest-cons : IsBest v (e ∷ es) acc.0 best
  IsBest-cons = record {
    grows = omega (arith, round.grows, is.grows);
    covers = covers-cons;
    source = elim is.source [
      | inr (i, x, at, h, same) ↦ inr (suc i, x, at, h, same)
      | inl kept ↦ elim round.source [
        | inl before ↦ inl (kept ∙ before)
        | inr (h, here) ↦ inr (0, e, refl, h, kept ∙ here)
      ]
    ];
  }

match_loop-IsBest :
    (v : List ℕ) (es : List Entry) (acc : Option Entry × ℕ)
    → 8 ≤ length v
    → Keeps acc
    → (best : Option Entry) × (match_loop v es acc ≡ some best) × IsBest v es acc.0 best
unfolding match_loop
match_loop-IsBest v [] acc long k =
    (acc.0, refl, record { grows = omega arith; covers = λ i e at. absurd (cc); source = inl refl })
match_loop-IsBest v (e ∷ es) acc long k =
    let next = better (is_hit v e) e acc in
    let round = better-IsRound (is_hit v e) e acc k in
    let (best, run, is) = match_loop-IsBest v es next long round.keeps in
    (best, rw (addr_matches-is_hit v e long) run, IsBest-cons v e es acc next best round is)

-- `stub_matchaddr` for an address that can be read as a `struct sockaddr_in` returns. Either no
-- entry has the address under its mask and the result is NULL; or the result is an entry that has,
-- and no other that has is one with a larger IPv4 mask, nor with an IPv4 mask if this one has none.
pub stub_matchaddr-best :
    (v : List ℕ) (rh : StubHead)
    → 8 ≤ length v
    → ((stub_matchaddr (some v) rh ≡ some null)
        × ((i : ℕ) (e : Entry) → get_elem? rh.entries i ≡ some e → is_hit v e ≡ false))
      ⊎ ((i : ℕ) × (b : Entry) × (stub_matchaddr (some v) rh ≡ some b.at)
          × (get_elem? rh.entries i ≡ some b)
          × (is_hit v b ≡ true)
          × ((j : ℕ) (e : Entry)
              → get_elem? rh.entries j ≡ some e
              → is_hit v e ≡ true
              → rank e ≤ rank b))
unfolding stub_matchaddr
stub_matchaddr-best v rh long =
    let (best, run, is) = match_loop-IsBest v rh.entries (none, 0) long refl in
    elim is.source [
      | inl nothing ↦
          let low : rank? best ≡ 0 = ap rank? nothing in
          inl (
            rw (run, nothing) refl,
            λ i e at. elim (Bool-cases (is_hit v e)) [
              | inr miss ↦ miss
              | inl hit ↦ absurd (omega (arith, is.covers i e at hit, low, rank-positive e))
            ],
          )
      | inr (i, b, at, hit, found) ↦
          let top : rank? best ≡ rank b = ap rank? found in
          inr (
            i,
            b,
            rw (run, found) refl,
            at,
            hit,
            λ j e at' hit'. omega (arith, is.covers j e at' hit', top),
          )
    ]
