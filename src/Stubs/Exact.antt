-- ===== src/Stubs/Exact.antt =====
-- src/radix_stubs.c: what `stub_lookup` and `stub_deladdr` find behind `stub_addaddr`.
use freebsd_radix_userland.Common.{
  ℕ, zero, suc, ◌-◌, ◌≤◌, ◌<◌, ◌^◌, ◌≡◌, refl, ◌≢◌, true, false, Option, none, some, List, [], ◌∷◌,
  ◌++◌, length, arith, take, replicate, ltb, ◌==◌,
}
use freebsd_radix_userland.Common.Int.{pos, ◌+ℤ◌, ◌-ℤ◌}
use freebsd_radix_userland.Radix.Memory.{Ptr, null}
use freebsd_radix_userland.Radix.Search.{same_bytes}
use freebsd_radix_userland.Stubs.{
  sa_len, Entry, StubHead, store, store_mask, as_int, mask_match, exact_match, stub_addaddr,
  stub_deladdr, stub_lookup, delete_loop, lookup_loop,
}

-- An address that `memcpy` and `memcmp` may read, and that fits into storage.
pub record IsStorable (x : List ℕ) : Type 0 where
  pub fits : sa_len x ≤ 128
  pub stored : sa_len x ≤ length x

-- A mask that is given has a length that is not zero.
abbrev pub IsMaskOk : Option (List ℕ) → Type 0
IsMaskOk none = Unit {0}
IsMaskOk (some m) = IsStorable m × (0 < sa_len m)

same_bytes-take : (k : ℕ) (x r : List ℕ) → k ≤ length x → same_bytes k (take k x ++ r) x ≡ some true
unfolding same_bytes
same_bytes-take zero x r h = refl
same_bytes-take (suc k) [] r h = absurd (omega arith)
same_bytes-take (suc k) (x ∷ xs) r h = ground (arith, same_bytes-take k xs r)

unfoldable pub stored_of : List ℕ → List ℕ
stored_of x = take (sa_len x) x ++ replicate (128 - sa_len x) 0

store-eq : (x : List ℕ) → IsStorable x → store x ≡ some (stored_of x)
unfolding store stored_of
store-eq x s = ground (arith, s.fits, s.stored)

same_bytes-stored_of :
    (x : List ℕ) → IsStorable x → same_bytes (sa_len x) (stored_of x) x ≡ some true
unfolding stored_of
same_bytes-stored_of x s = same_bytes-take (sa_len x) x (replicate (128 - sa_len x) 0) s.stored

sa_len-stored_of : (x : List ℕ) → IsStorable x → 0 < sa_len x → sa_len (stored_of x) ≡ sa_len x
unfolding stored_of
sa_len-stored_of [] s h = absurd (omega arith)
sa_len-stored_of (zero ∷ xs) s h = absurd (omega arith)
sa_len-stored_of (suc n ∷ xs) s h = refl

unfoldable pub mask_of : Option (List ℕ) → List ℕ
mask_of none = replicate 128 0
mask_of (some m) = stored_of m

mask_match-mask_of : (m : Option (List ℕ)) → IsMaskOk m → mask_match m (mask_of m) ≡ some true
unfolding mask_match mask_of
mask_match-mask_of none ok = refl
mask_match-mask_of (some m) ok =
    let long : ltb 0 (sa_len (stored_of m)) ≡ true =
      ground (arith, sa_len-stored_of m ok.0 ok.1, ok.1) in
    rw long (same_bytes-stored_of m ok.0)

store_mask-eq : (m : Option (List ℕ)) → IsMaskOk m → store_mask m ≡ some (mask_of m)
unfolding store_mask mask_of
store_mask-eq none ok = refl
store_mask-eq (some m) ok = store-eq m ok.0

pub as_int-fits : (n : ℕ) → n < 2 ^ 31 → as_int (pos n) ≡ some (pos n)
unfolding as_int
as_int-fits n fits = ground arith

pub one_more : (n : ℕ) → pos n +ℤ pos 1 ≡ pos (suc n)
unfolding ◌+ℤ◌
one_more n = ground arith

pub one_less : (n : ℕ) → pos (suc n) -ℤ pos 1 ≡ pos n
unfolding ◌-ℤ◌
one_less n = ground arith

module _ (entry : Ptr) (v : List ℕ) (mask : Option (List ℕ)) (rh : StubHead) (iv : IsStorable v)
    (ok : IsMaskOk mask) (new : entry ≢ null) (n : ℕ) (count : rh.count ≡ pos n)
    (room : suc n < 2 ^ 31) where
  unfoldable pub entered : Entry
  entered = record { at = entry; dst = stored_of v; mask = mask_of mask }

  unfoldable pub after : StubHead
  after = record { entries = entered ∷ rh.entries; count = pos (suc n) }

  pub stub_addaddr-after : stub_addaddr entry (some v) mask rh ≡ some (entry, after)
  unfolding stub_addaddr after entered mask_of
  stub_addaddr-after =
      let there : (entry == 0) ≡ false = ground arith in
      rw (there, store-eq v iv, store_mask-eq mask ok, count, one_more n, as_int-fits (suc n) room)
        refl

  exact_match-entered : exact_match v mask entered ≡ some true
  unfolding exact_match entered
  exact_match-entered = rw (same_bytes-stored_of v iv, mask_match-mask_of mask ok) refl

  -- For a storable address, and no mask or a storable one whose length byte is not zero, in a table
  -- whose count is at least zero and less than the greatest `int`: the route that `stub_addaddr` puts
  -- in is the one that `stub_lookup` finds for the address and the mask, and `stub_deladdr` for them
  -- takes it out again and leaves the table as it was before.
  pub stub_deladdr-stub_addaddr :
      (rh' : StubHead) × (stub_addaddr entry (some v) mask rh ≡ some (entry, rh'))
      × (stub_lookup (some v) mask rh' ≡ some entry)
      × (stub_deladdr (some v) mask rh' ≡ some (entry, rh))
  unfolding stub_lookup stub_deladdr lookup_loop delete_loop after entered
  stub_deladdr-stub_addaddr = (
    after,
    stub_addaddr-after,
    rw exact_match-entered refl,
    rw (exact_match-entered, one_less n, as_int-fits n (omega arith), count) refl,
  )
