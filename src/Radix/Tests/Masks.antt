-- ===== src/Radix/Tests/Masks.antt =====
-- The theorems on the masks of src/freebsd/radix.c at concrete masks and keys.
use freebsd_radix_userland.Common.{
  ℕ, zero, suc, ◌<◌, ◌≤◌, ◌≡◌, refl, ◌≢◌, ◌↔◌, ◌⊎◌, ◌&&◌, Bool, true, max, some, List, [], ◌∷◌,
  arith, length, get_or, ltb, replicate,
}
use freebsd_radix_userland.Common.Int.{negsuc, leb_ℤ}
use freebsd_radix_userland.Radix.Masks.{
  len_byte, lexobetter_loop, rn_refines, rn_lexobetter, rn_satisfies_leaf, addmask_key, mask_index,
}
use freebsd_radix_userland.Radix.Masks.Refines.{IsMask, IsWithin, IsSame, rn_refines_iff}
use freebsd_radix_userland.Radix.Masks.Order.{Exceeds, rn_refines_strict, rn_lexobetter_iff}
use freebsd_radix_userland.Radix.Masks.Satisfies.{
  IsStored, AgreeOn, limit_of, mask_of, rn_satisfies_leaf_iff,
}
use freebsd_radix_userland.Radix.Masks.Canonical.{cut_byte, addmask_key_iff}
use freebsd_radix_userland.Radix.Masks.Interned.{IsMaskIndex, addmask_key-IsMaskIndex}
use freebsd_radix_userland.Radix.Masks.Shortcut.{rn_satisfies_leaf-normal_mask}
use freebsd_radix_userland.Radix.Search.{mismatch, insert_bit, match_bit}
use freebsd_radix_userland.Radix.Search.FirstBit.{IsBytes, IsFirstBit, insert_bit-IsFirstBit}

abbrev pub all_bytes : List ℕ → Bool
all_bytes [] = true
all_bytes (x ∷ xs) = ltb x 256 && all_bytes xs

pub all_bytes-IsBytes : (xs : List ℕ) → all_bytes xs ≡ true → IsBytes xs
all_bytes-IsBytes [] e i = omega arith
all_bytes-IsBytes (x ∷ xs) e zero = ground arith
all_bytes-IsBytes (x ∷ xs) e (suc i) = all_bytes-IsBytes xs (ground arith) i

-- Masks of 8, 16 and 20 bits of a `struct sockaddr_in`, and two that do not nest.
abbrev mask_8 : List ℕ
mask_8 = 5 ∷ 0 ∷ 0 ∷ 0 ∷ 255 ∷ []

abbrev mask_16 : List ℕ
mask_16 = 6 ∷ 0 ∷ 0 ∷ 0 ∷ 255 ∷ 255 ∷ []

abbrev mask_20 : List ℕ
mask_20 = 7 ∷ 0 ∷ 0 ∷ 0 ∷ 255 ∷ 255 ∷ 240 ∷ []

abbrev mask_low : List ℕ
mask_low = 6 ∷ 0 ∷ 0 ∷ 0 ∷ 15 ∷ 255 ∷ []

abbrev mask_high : List ℕ
mask_high = 6 ∷ 0 ∷ 0 ∷ 0 ∷ 255 ∷ 15 ∷ []

is_mask : (m : List ℕ) → 1 ≤ len_byte m → len_byte m ≤ length m → IsBytes m → IsMask m
is_mask m size stored bytes = record { size = size; stored = stored; bytes = bytes }

mask_8-IsMask : IsMask mask_8
mask_8-IsMask = is_mask mask_8 (omega arith) (omega arith) (all_bytes-IsBytes mask_8 refl)

mask_16-IsMask : IsMask mask_16
mask_16-IsMask = is_mask mask_16 (omega arith) (omega arith) (all_bytes-IsBytes mask_16 refl)

mask_20-IsMask : IsMask mask_20
mask_20-IsMask = is_mask mask_20 (omega arith) (omega arith) (all_bytes-IsBytes mask_20 refl)

mask_low-IsMask : IsMask mask_low
mask_low-IsMask = is_mask mask_low (omega arith) (omega arith) (all_bytes-IsBytes mask_low refl)

mask_high-IsMask : IsMask mask_high
mask_high-IsMask = is_mask mask_high (omega arith) (omega arith) (all_bytes-IsBytes mask_high refl)

rn_refines_iff_example :
    (r : Bool) × (rn_refines mask_16 mask_8 ≡ some r)
    × ((r ≡ true) ↔ (IsWithin mask_8 mask_16 × ¬ IsSame mask_8 mask_16))
rn_refines_iff_example = rn_refines_iff mask_16 mask_8 mask_16-IsMask mask_8-IsMask

rn_refines_strict_example :
    (rn_refines mask_20 mask_20 ≢ some true)
    × (rn_refines mask_20 mask_16 ≡ some true
        → rn_refines mask_16 mask_8 ≡ some true
        → rn_refines mask_20 mask_8 ≡ some true)
rn_refines_strict_example =
    rn_refines_strict mask_20 mask_16 mask_8 mask_20-IsMask mask_16-IsMask mask_8-IsMask

rn_lexobetter_iff_example :
    (r : Bool) × (rn_lexobetter mask_16 mask_low ≡ some r)
    × ((r ≡ true) ↔ (
        (len_byte mask_low < len_byte mask_16)
        ⊎ ((len_byte mask_16 ≡ len_byte mask_low) × Exceeds (len_byte mask_16) mask_16 mask_low)))
rn_lexobetter_iff_example = rn_lexobetter_iff mask_16 mask_low mask_16-IsMask mask_low-IsMask

-- Each of the two is better than the other.
both_better :
    (rn_lexobetter mask_low mask_high ≡ some true) × (rn_lexobetter mask_high mask_low ≡ some true)
unfolding rn_lexobetter lexobetter_loop
both_better = (refl, refl)

abbrev trial : List ℕ
trial = 8 ∷ 2 ∷ 0 ∷ 0 ∷ 10 ∷ 1 ∷ 2 ∷ 3 ∷ []

abbrev route : List ℕ
route = 8 ∷ 2 ∷ 0 ∷ 0 ∷ 10 ∷ 1 ∷ 0 ∷ 0 ∷ []

trial-IsStored : IsStored trial
trial-IsStored = record { stored = omega arith; bytes = all_bytes-IsBytes trial refl }

route-IsStored : IsStored route
route-IsStored = record { stored = omega arith; bytes = all_bytes-IsBytes route refl }

rn_satisfies_leaf_iff_example :
    (r : Bool) × (rn_satisfies_leaf trial route (some mask_16) 4 ≡ some r)
    × ((r ≡ true) ↔ (
        (i : ℕ)
        → 4 ≤ i
        → i < limit_of trial route (some mask_16)
        → AgreeOn (get_or (mask_of (some mask_16)) i 0) (get_or trial i 0) (get_or route i 0)))
rn_satisfies_leaf_iff_example =
    rn_satisfies_leaf_iff trial route trial-IsStored route-IsStored (some mask_16) 4 (omega arith)

-- The mask of 16 bits as a whole `struct sockaddr_in`, and with other bytes in front.
abbrev long_16 : List ℕ
long_16 = 8 ∷ 2 ∷ 7 ∷ 7 ∷ 255 ∷ 255 ∷ 0 ∷ 0 ∷ []

long_16-IsStored : IsStored long_16
long_16-IsStored = record { stored = omega arith; bytes = all_bytes-IsBytes long_16 refl }

mask_16-IsStored : IsStored mask_16
mask_16-IsStored = record { stored = mask_16-IsMask.stored; bytes = mask_16-IsMask.bytes }

addmask_key_iff_example :
    (addmask_key long_16 4 ≡ addmask_key mask_16 4)
    ↔ ((i : ℕ) → max 4 1 ≤ i → cut_byte long_16 i ≡ cut_byte mask_16 i)
addmask_key_iff_example = addmask_key_iff long_16 mask_16 4 long_16-IsStored mask_16-IsStored

insert_bit-IsFirstBit_example :
    IsFirstBit trial route 4 8 (insert_bit 6 2) × (match_bit 6 2 ≡ insert_bit 6 2)
unfolding mismatch
insert_bit-IsFirstBit_example =
    insert_bit-IsFirstBit trial route 4 8 6 2 trial-IsStored.bytes route-IsStored.bytes refl

-- The mask of 16 bits as `rn_addmask` keeps it.
abbrev kept_16 : List ℕ
kept_16 = 6 ∷ 255 ∷ 255 ∷ 255 ∷ 255 ∷ 255 ∷ replicate 26 0

kept_16-IsStored : IsStored kept_16
kept_16-IsStored = record { stored = omega arith; bytes = all_bytes-IsBytes kept_16 refl }

addmask_key-IsMaskIndex_example : IsMaskIndex kept_16 4 (48, true)
unfolding addmask_key mask_index
addmask_key-IsMaskIndex_example = addmask_key-IsMaskIndex long_16 4 kept_16 long_16-IsStored refl

rn_satisfies_leaf-normal_mask_example :
    rn_satisfies_leaf trial route (some kept_16) 6 ≡ some (leb_ℤ (negsuc 54) (negsuc 48))
unfolding mismatch addmask_key mask_index match_bit
rn_satisfies_leaf-normal_mask_example =
    rn_satisfies_leaf-normal_mask trial route long_16 kept_16 4 8 6 2 trial-IsStored route-IsStored
      long_16-IsStored kept_16-IsStored (omega arith) (omega arith) refl refl refl
