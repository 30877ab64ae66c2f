-- ===== src/Stubs/Count.antt =====
-- src/radix_stubs.c: the number of entries that the head keeps.
use freebsd_radix_userland.Common.{
  ℕ, suc, ◌^◌, ◌<◌, ◌≡◌, refl, sym, inl, inr, leb, Bool-cases, ◌∙◌, ap, Option, none, some, List,
  [], ◌∷◌, length, arith, and_then, Bool, true, false, ◌==◌, if◌then◌else◌,
}
use freebsd_radix_userland.Common.Int.{ℤ, pos, ◌+ℤ◌, ◌-ℤ◌}
use freebsd_radix_userland.Stubs.Exact.{one_more, one_less}
use mathlib.Core.Path.{subst}
use freebsd_radix_userland.Radix.Memory.{Ptr}
use freebsd_radix_userland.Stubs.{
  Entry, StubHead, exact_match, delete_loop, as_int, store, store_mask, rn_inithead, stub_addaddr,
  stub_deladdr,
}

-- The tables that calls of the code lead to, one after the other.
pub data IsReached : StubHead → Type 0 where
  by_inithead :
      (rh : Ptr) (off n : ℕ) (head : StubHead)
      → rn_inithead rh off ≡ (n, some head)
      → IsReached head
  by_addaddr :
      (entry p : Ptr) (v mask : Option (List ℕ)) (rh rh' : StubHead)
      → IsReached rh
      → stub_addaddr entry v mask rh ≡ some (p, rh')
      → IsReached rh'
  by_deladdr :
      (p : Ptr) (v mask : Option (List ℕ)) (rh rh' : StubHead)
      → IsReached rh
      → stub_deladdr v mask rh ≡ some (p, rh')
      → IsReached rh'

abbrev IsCounted : StubHead → Type 0
IsCounted rh = (rh.count ≡ pos (length rh.entries)) × (length rh.entries < 2 ^ 31)

kept : Entry → Option (Entry × List Entry) → Option (Entry × List Entry)
kept e none = none
kept e (some (y, ys)) = some (y, e ∷ ys)

shorter :
    (found : Option Bool) (rest : Option (Option (Entry × List Entry))) (e : Entry)
    (es : List Entry) (x : Entry) (xs : List Entry)
    → ((y : Entry) (ys : List Entry) → rest ≡ some (some (y, ys)) → length es ≡ suc (length ys))
    → and_then found (λ b. if b then some (some (e, es)) else and_then rest (λ r. some (kept e r)))
      ≡ some (some (x, xs))
    → length (e ∷ es) ≡ suc (length xs)
unfolding kept
shorter none rest e es x xs h eq = absurd (cc)
shorter (some true) rest e es x xs h eq = let same : es ≡ xs = cc in ap (λ l. suc (length l)) same
shorter (some false) none e es x xs h eq = absurd (cc)
shorter (some false) (some none) e es x xs h eq = absurd (cc)
shorter (some false) (some (some (y, ys))) e es x xs h eq =
    let same : e ∷ ys ≡ xs = cc in ap suc (h y ys refl) ∙ ap (λ l. suc (length l)) same

delete_loop-length :
    (v : List ℕ) (mask : Option (List ℕ)) (es : List Entry) (x : Entry) (xs : List Entry)
    → delete_loop v mask es ≡ some (some (x, xs))
    → length es ≡ suc (length xs)
unfolding delete_loop kept
delete_loop-length v mask [] x xs h = absurd (cc)
delete_loop-length v mask (e ∷ es) x xs h =
    shorter (exact_match v mask e) (delete_loop v mask es) e es x xs (delete_loop-length v mask es)
      h

-- What a count that fits says.
as_int-eq : (n : ℕ) (c : ℤ) → as_int (pos n) ≡ some c → (c ≡ pos n) × (n < 2 ^ 31)
unfolding as_int
as_int-eq n c h = elim (Bool-cases (leb n 2147483647)) [
  | inl fits ↦ let same : pos n ≡ c = ground arith in (sym same, ground arith)
  | inr over ↦ absurd (ground arith)
]

IsCounted-stub_addaddr :
    (entry p : Ptr) (v mask : Option (List ℕ)) (rh rh' : StubHead)
    → IsCounted rh
    → stub_addaddr entry v mask rh ≡ some (p, rh')
    → IsCounted rh'
unfolding stub_addaddr
IsCounted-stub_addaddr entry p none mask rh rh' c h =
    let same : rh ≡ rh' = cc in subst IsCounted same c
IsCounted-stub_addaddr entry p (some v) mask rh rh' c h =
    go (entry == 0) (store v) (store_mask mask) (as_int (rh.count +ℤ pos 1))
      (λ n e.
        let more : rh.count +ℤ pos 1 ≡ pos (suc (length rh.entries)) =
          ap (λ z. z +ℤ pos 1) c.0 ∙ one_more (length rh.entries) in
        as_int-eq (suc (length rh.entries)) n (rw more at e))
      h
  where
    refused : Option (Ptr × StubHead)
    refused = some (0, rh)

    with_entry : (dst m : List ℕ) → ℤ → StubHead
    with_entry d m n = record {
      entries = record { at = entry; dst = d; mask = m } ∷ rh.entries;
      count = n;
    }

    go :
        (isnull : Bool) (dst m : Option (List ℕ)) (count : Option ℤ)
        → ((n : ℤ)
            → count ≡ some n
            → (n ≡ pos (suc (length rh.entries))) × (suc (length rh.entries) < 2 ^ 31))
        → (if isnull
            then refused
            else and_then dst
                (λ d. and_then m (λ m'. and_then count (λ n. some (entry, with_entry d m' n)))))
          ≡ some (p, rh')
        → IsCounted rh'
    go true dst m count l h = let same : rh ≡ rh' = cc in subst IsCounted same c
    go false none m count l h = absurd (cc)
    go false (some d) none count l h = absurd (cc)
    go false (some d) (some m') none l h = absurd (cc)
    go false (some d) (some m') (some n) l h =
        let same : with_entry d m' n ≡ rh' = cc in subst IsCounted same (l n refl)

taken : StubHead → Option ℤ → Option (Entry × List Entry) → Option (Ptr × StubHead)
taken rh count none = some (0, rh)
taken rh count (some (e, es)) =
    and_then count (λ n. some (e.at, record { entries = es; count = n }))

IsCounted-stub_deladdr :
    (p : Ptr) (v mask : Option (List ℕ)) (rh rh' : StubHead)
    → IsCounted rh
    → stub_deladdr v mask rh ≡ some (p, rh')
    → IsCounted rh'
unfolding stub_deladdr taken
IsCounted-stub_deladdr p none mask rh rh' c h = let same : rh ≡ rh' = cc in subst IsCounted same c
IsCounted-stub_deladdr p (some v) mask rh rh' c h =
    go (delete_loop v mask rh.entries) (as_int (rh.count -ℤ pos 1))
      (delete_loop-length v mask rh.entries)
      (λ m less n e.
        let fewer : rh.count -ℤ pos 1 ≡ pos m =
          ap (λ z. z -ℤ pos 1) (c.0 ∙ ap pos less) ∙ one_less m in
        as_int-eq m n (rw fewer at e))
      h
  where
    go :
        (r : Option (Option (Entry × List Entry))) (count : Option ℤ)
        → ((x : Entry) (xs : List Entry)
            → r ≡ some (some (x, xs))
            → length rh.entries ≡ suc (length xs))
        → ((m : ℕ)
            → length rh.entries ≡ suc m
            → (n : ℤ) → count ≡ some n
            → (n ≡ pos m) × (m < 2 ^ 31))
        → and_then r (taken rh count) ≡ some (p, rh')
        → IsCounted rh'
    go none count l f h = absurd (cc)
    go (some none) count l f h = let same : rh ≡ rh' = cc in subst IsCounted same c
    go (some (some (e, es))) none l f h = absurd (cc)
    go (some (some (e, es))) (some n) l f h =
        let less : StubHead = record { entries = es; count = n } in
        let same : less ≡ rh' = cc in subst IsCounted same (f (length es) (l e es refl) n refl)

IsCounted-rn_inithead :
    (rh : Ptr) (off n : ℕ) (head : StubHead) → rn_inithead rh off ≡ (n, some head) → IsCounted head
unfolding rn_inithead
IsCounted-rn_inithead rh off n head = go (rh == 0)
  where
    fresh : ℕ × Option StubHead
    fresh = (1, some (record { entries = []; count = pos 0 }))

    go : (isnull : Bool) → (if isnull then (0, none) else fresh) ≡ (n, some head) → IsCounted head
    go true h = let no : none ≡ some head = ap (λ r. r.1) h in absurd (cc)
    go false h =
        let yes : some (record { entries = []; count = pos 0 }) ≡ some head = ap (λ r. r.1) h in
        let same : record { entries = []; count = pos 0 } ≡ head = cc in
        subst IsCounted same (refl, omega arith)

-- In every table that calls of `rn_inithead`, `stub_addaddr` and `stub_deladdr` lead to, an overflow of
-- the `int` being a fault, `count` is the number of entries in the list, which is below 2^31.
pub stub_count-IsReached :
    (rh : StubHead)
    → IsReached rh
    → (rh.count ≡ pos (length rh.entries)) × (length rh.entries < 2 ^ 31)
stub_count-IsReached rh (by_inithead p off n head h) = IsCounted-rn_inithead p off n head h
stub_count-IsReached rh (by_addaddr e p v m old new r h) =
    IsCounted-stub_addaddr e p v m old rh (stub_count-IsReached old r) h
stub_count-IsReached rh (by_deladdr p v m old new r h) =
    IsCounted-stub_deladdr p v m old rh (stub_count-IsReached old r) h
