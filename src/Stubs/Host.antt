-- ===== src/Stubs/Host.antt =====
-- src/radix_stubs.c: the entry of a route with no mask.
use freebsd_radix_userland.Common.{
  ℕ, suc, zero, ◌≤◌, ◌≡◌, refl, ◌∙◌, ◌≢◌, true, none, some, List, [], ◌∷◌, length, arith,
}
use freebsd_radix_userland.Common.Int.{pos}
use freebsd_radix_userland.Common.Digits.{bit_and_zero}
use freebsd_radix_userland.Radix.Memory.{Ptr, null}
use freebsd_radix_userland.Stubs.{
  sa_len, sa_family, sin_addr, Entry, StubHead, better, match_loop, stub_addaddr, stub_matchaddr,
}
use freebsd_radix_userland.Stubs.Exact.{
  IsStorable, stored_of, mask_of, entered, after, stub_addaddr-after,
}
use freebsd_radix_userland.Stubs.Match.{is_hit, addr_matches-is_hit}

sa_family-stored_of :
    (x : List ℕ) → IsStorable x → 2 ≤ sa_len x → sa_family (stored_of x) ≡ sa_family x
unfolding stored_of
sa_family-stored_of [] s h = absurd (omega arith)
sa_family-stored_of (n ∷ []) s h = absurd (omega (arith, s.stored))
sa_family-stored_of (zero ∷ y ∷ xs) s h = absurd (omega arith)
sa_family-stored_of (suc zero ∷ y ∷ xs) s h = absurd (omega arith)
sa_family-stored_of (suc (suc n) ∷ y ∷ xs) s h = refl

-- The IPv4 route that is put into an empty table with no mask is the result of `stub_matchaddr` for
-- every IPv4 address, not only for its own.
pub stub_matchaddr-host :
    (entry : Ptr) (v w : List ℕ)
    → IsStorable v
    → 2 ≤ sa_len v
    → sa_family v ≡ 2
    → entry ≢ null
    → 8 ≤ length w
    → sa_family w ≡ 2
    → (rh : StubHead) × (stub_addaddr entry (some v) none (record { entries = []; count = pos 0 })
        ≡ some (entry, rh))
      × (stub_matchaddr (some w) rh ≡ some entry)
unfolding stub_matchaddr match_loop after entered better mask_of
stub_matchaddr-host entry v w iv size fv new long fw =
    let start : StubHead = record { entries = []; count = pos 0 } in
    let e : Entry = entered entry v none start iv tt new 0 refl (omega arith) in
    let family : sa_family e.dst ≡ 2 = sa_family-stored_of v iv size ∙ fv in
    let hit : is_hit w e ≡ true =
      rw (family, fw, bit_and_zero (sin_addr w), bit_and_zero (sin_addr e.dst)) refl in
    (
      after entry v none start iv tt new 0 refl (omega arith),
      stub_addaddr-after entry v none start iv tt new 0 refl (omega arith),
      rw (addr_matches-is_hit w e long, hit) refl,
    )
