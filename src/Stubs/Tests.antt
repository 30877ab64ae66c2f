-- ===== src/Stubs/Tests.antt =====
-- The theorems on the table of src/radix_stubs.c at a few routes.
use freebsd_radix_userland.Common.{
  ℕ, ◌^◌, ◌<◌, ◌≤◌, ◌≡◌, ◌⊎◌, refl, true, false, none, some, List, [], ◌∷◌, ◌++◌, length, get_elem?,
  replicate, arith,
}
use freebsd_radix_userland.Common.Int.{pos, ◌+ℤ◌}
use freebsd_radix_userland.Radix.Memory.{null}
use freebsd_radix_userland.Stubs.{
  Entry, StubHead, store, store_mask, rn_inithead, stub_addaddr, stub_deladdr, stub_lookup,
  stub_matchaddr,
}
use freebsd_radix_userland.Stubs.Exact.{IsStorable, stub_deladdr-stub_addaddr}
use freebsd_radix_userland.Stubs.Match.{is_hit, rank, stub_matchaddr-best}
use freebsd_radix_userland.Stubs.Host.{stub_matchaddr-host}
use freebsd_radix_userland.Stubs.Count.{IsReached, by_inithead, by_addaddr, stub_count-IsReached}

abbrev sin : ℕ → ℕ → List ℕ
sin a b = 16 ∷ 2 ∷ 0 ∷ 0 ∷ a ∷ b ∷ replicate 10 0

abbrev bare : StubHead
bare = record { entries = []; count = pos 0 }

-- 10/8 and 10.1/16.
abbrev two : StubHead
two = record {
  entries =
      record { at = 600; dst = sin 10 1 ++ replicate 112 0; mask = sin 255 255 ++ replicate 112 0 }
      ∷ record { at = 500; dst = sin 10 0 ++ replicate 112 0; mask = sin 255 0 ++ replicate 112 0 }
      ∷ [];
  count = pos 2;
}

sin-IsStorable : (a b : ℕ) → IsStorable (sin a b)
sin-IsStorable a b = record { fits = omega arith; stored = omega arith }

stub_deladdr-stub_addaddr_example :
    (rh' : StubHead) × (stub_addaddr 700 (some (sin 10 0)) (some (sin 255 0)) two ≡ some (700, rh'))
    × (stub_lookup (some (sin 10 0)) (some (sin 255 0)) rh' ≡ some 700)
    × (stub_deladdr (some (sin 10 0)) (some (sin 255 0)) rh' ≡ some (700, two))
stub_deladdr-stub_addaddr_example =
    stub_deladdr-stub_addaddr 700 (sin 10 0) (some (sin 255 0)) two (sin-IsStorable 10 0)
      (sin-IsStorable 255 0, omega arith) (omega arith) 2 refl (omega arith)

stub_matchaddr-best_example :
    ((stub_matchaddr (some (sin 10 1)) two ≡ some null)
      × ((i : ℕ) (e : Entry) → get_elem? two.entries i ≡ some e → is_hit (sin 10 1) e ≡ false))
    ⊎ ((i : ℕ) × (b : Entry) × (stub_matchaddr (some (sin 10 1)) two ≡ some b.at)
        × (get_elem? two.entries i ≡ some b)
        × (is_hit (sin 10 1) b ≡ true)
        × ((j : ℕ) (e : Entry)
            → get_elem? two.entries j ≡ some e
            → is_hit (sin 10 1) e ≡ true
            → rank e ≤ rank b))
stub_matchaddr-best_example = stub_matchaddr-best (sin 10 1) two (omega arith)

stub_matchaddr-host_example :
    (rh : StubHead) × (stub_addaddr 700 (some (sin 10 1)) none bare ≡ some (700, rh))
    × (stub_matchaddr (some (sin 192 168)) rh ≡ some 700)
stub_matchaddr-host_example =
    stub_matchaddr-host 700 (sin 10 1) (sin 192 168) (sin-IsStorable 10 1) (omega arith) refl
      (omega arith) (omega arith) refl

abbrev one : StubHead
one = record {
  entries =
      record { at = 500; dst = sin 10 0 ++ replicate 112 0; mask = sin 255 0 ++ replicate 112 0 }
      ∷ [];
  count = pos 1;
}

one-IsReached : IsReached one
unfolding rn_inithead stub_addaddr store store_mask ◌+ℤ◌
one-IsReached =
    by_addaddr 500 500 (some (sin 10 0)) (some (sin 255 0)) bare one
      (by_inithead 400 32 1 bare refl) refl

stub_count-IsReached_example :
    (one.count ≡ pos (length one.entries)) × (length one.entries < 2 ^ 31)
stub_count-IsReached_example = stub_count-IsReached one one-IsReached
