-- ===== src/Radix/Masks/Interned.antt =====
-- The index and the flag that `rn_addmask` of src/freebsd/radix.c gives the mask in its buffer.
use freebsd_radix_userland.Common.{
  ℕ, zero, suc, ◌+◌, ◌-◌, ◌*◌, ◌/◌, ◌%◌, ◌≤◌, ◌<◌, ◌≡◌, refl, sym, ◌∙◌, ◌≢◌, ◌↔◌, Bool, true, false,
  min, max, some, List, [], ◌∷◌, arith, length, length-drop, length-take, get_or, get_or-drop,
  get_or-take, take, drop, ltb, Bool-cases, inl, inr,
}
use mathlib.Core.Path.{subst}
use native.Mathlib.Decide.{dec_lt, dec_le}
use freebsd_radix_userland.Radix.Masks.{len_byte, trimmed, addmask_key, mask_index}
use freebsd_radix_userland.Radix.Masks.Satisfies.{IsStored}
use freebsd_radix_userland.Radix.Masks.Canonical.{
  trimmed-le_iff, buffer, buffer-at, cut_byte, trimmed-clear_iff, cleared, keyed,
  addmask_key-IsKeyed,
}
use freebsd_radix_userland.Radix.Masks.Index.{IsTrimmed, mask_index-IsIndex}
use freebsd_radix_userland.Radix.Search.FirstBit.{key_bit, IsBytes}

-- What the index and the flag of a mask mean: from byte `s` on the bits before the index are set,
-- that at the index is not, and the mask is normal exactly when no bit behind it is set.
pub record IsMaskIndex (m : List ℕ) (s : ℕ) (r : ℕ × Bool) : Type 0 where
  pub lower : s * 8 ≤ r.0
  pub upper : r.0 ≤ len_byte m * 8
  pub set : (c : ℕ) → s * 8 ≤ c → c < r.0 → key_bit m c ≡ true
  pub unset : r.0 < len_byte m * 8 → key_bit m r.0 ≡ false
  pub normal : (r.1 ≡ true) ↔ ((c : ℕ) → r.0 ≤ c → c < len_byte m * 8 → key_bit m c ≡ false)

-- The bytes of a mask that the second half of `rn_addmask` goes through.
abbrev pub masked : ℕ → List ℕ → List ℕ
masked s m = drop s (take (len_byte m) m)

module _ (m : List ℕ) (s : ℕ) (size : s ≤ len_byte m) (stored : len_byte m ≤ length m) where
  length-masked : length (masked s m) ≡ len_byte m - s
  length-masked = omega (arith, length-drop s (take (len_byte m) m), length-take (len_byte m) m)

  masked-get_or : (i : ℕ) → s + i < len_byte m → get_or (masked s m) i 0 ≡ get_or m (s + i) 0
  masked-get_or i lt =
      get_or-drop s i (take (len_byte m) m) 0 ∙ get_or-take (len_byte m) (s + i) m 0 lt

  key_bit-masked :
      (c : ℕ) → s * 8 ≤ c → c < len_byte m * 8 → key_bit (masked s m) (c - s * 8) ≡ key_bit m c
  key_bit-masked c lo hi =
      let q : s + (c - s * 8) / 8 ≡ c / 8 = omega arith in
      let r : (c - s * 8) % 8 ≡ c % 8 = omega arith in
      let e : get_or (masked s m) ((c - s * 8) / 8) 0 ≡ get_or m (c / 8) 0 =
        rw q at (masked-get_or ((c - s * 8) / 8) (omega arith)) in
      rw (e, r) refl

  mask_index-IsMaskIndex :
      IsBytes (masked s m) → IsTrimmed (masked s m) → IsMaskIndex m s (mask_index s (masked s m))
  mask_index-IsMaskIndex bytes trim =
      let f = mask_index-IsIndex s (masked s m) bytes in
      record {
        lower = f.lower;
        upper = omega (arith, f.upper, length-masked);
        set = λ c lo lt.
            sym (key_bit-masked c lo (omega (arith, f.upper, length-masked)))
            ∙ f.set (c - s * 8) (omega arith);
        unset = λ lt.
            sym (key_bit-masked _ f.lower lt)
            ∙ f.unset _ (omega (arith, f.lower, length-masked)) (omega (arith, f.lower));
        normal = (
          (λ e c lo lt.
              sym (key_bit-masked c (omega (arith, f.lower)) lt)
              ∙ f.rest e (c - s * 8) (omega (arith, f.lower, length-masked))
                  (omega (arith, f.lower))),
          (λ clear. f.normal trim λ c lt le.
              let e : s * 8 + c - s * 8 ≡ c = omega arith in
              rw e at (
                key_bit-masked (s * 8 + c) (omega arith) (omega (arith, length-masked))
                ∙ clear (s * 8 + c) le (omega (arith, length-masked)))),
        );
      }

get_or-beyond : (xs : List ℕ) (i : ℕ) → length xs ≤ i → get_or xs i 0 ≡ 0
get_or-beyond [] i le = refl
get_or-beyond (x ∷ xs) zero le = absurd (omega arith)
get_or-beyond (x ∷ xs) (suc i) le = get_or-beyond xs i (omega arith)

trimmed-le-length : (xs : List ℕ) → trimmed xs ≤ length xs
unfolding trimmed
trimmed-le-length [] = omega arith
trimmed-le-length (x ∷ xs) = ground (arith, trimmed-le-length xs)

-- The last byte of what is left is not zero.
trimmed-last : (xs : List ℕ) (k : ℕ) → trimmed xs ≡ suc k → get_or xs k 0 ≢ 0
trimmed-last xs k e z =
    let above = (trimmed-le_iff xs (suc k)).0 (omega arith) in
    let le : trimmed xs ≤ k = (trimmed-le_iff xs k).1 λ i lo. elim (dec_le (suc k) i) [
      | yes p ↦ above i p
      | no p ↦ let here : k ≡ i = omega arith in rw here at z
    ] in
    omega arith

cut_byte-lt : (m : List ℕ) → IsBytes m → (i : ℕ) → cut_byte m i < 256
cut_byte-lt m h i = elim (Bool-cases (ltb i (min (len_byte m) 32))) [
  | inl e ↦ rw e (h i)
  | inr e ↦ rw e (omega arith)
]

module _ (m : List ℕ) (s : ℕ) (im : IsStored m) (pos : 1 ≤ s)
    (reach : s < min (len_byte m) 32) where
  abbrev kept : List ℕ
  kept = trimmed (0 ∷ buffer m s) ∷ buffer m s

  kept-at : (i : ℕ) → s ≤ i → get_or kept i 0 ≡ get_or (0 ∷ buffer m s) i 0
  kept-at zero le = absurd (omega arith)
  kept-at (suc i) le = refl

  buffer-IsMaskIndex :
      s < trimmed (0 ∷ buffer m s) → IsMaskIndex kept s (mask_index s (masked s kept))
  buffer-IsMaskIndex size =
      let n = trimmed (0 ∷ buffer m s) in
      let stored : n ≤ length kept = trimmed-le-length (0 ∷ buffer m s) in
      let shorter = length-masked kept s (omega arith) stored in
      mask_index-IsMaskIndex kept s (omega arith) stored
        (λ i. elim (dec_lt (s + i) n) [
          | yes lt ↦
              rw
                (
                  masked-get_or kept s (omega arith) stored i lt,
                  kept-at (s + i) (omega arith),
                  buffer-at m s im pos reach (s + i) (omega arith),
                )
                (cut_byte-lt m im.bytes (s + i))
          | no ge ↦ rw (get_or-beyond (masked s kept) i (omega (arith, shorter))) (omega arith)
        ])
        (λ k e z. trimmed-last (0 ∷ buffer m s) (s + k) (omega (arith, shorter)) (
          sym (kept-at (s + k) (omega arith))
          ∙ sym (masked-get_or kept s (omega arith) stored k (omega (arith, shorter)))
          ∙ z))

-- The mask that `rn_addmask` puts into the tree, as `addmask_key` leaves it: from byte `max skip 1` on
-- all bits before its index are set, the bit at the index is not, and it is flagged as normal exactly
-- when no bit behind the index is set. The index lies within its bytes.
pub addmask_key-IsMaskIndex :
    (netmask : List ℕ) (skip : ℕ) (key : List ℕ)
    → IsStored netmask
    → addmask_key netmask skip ≡ some key
    → IsMaskIndex key (max skip 1) (mask_index (max skip 1) (masked (max skip 1) key))
addmask_key-IsMaskIndex netmask skip key im e = elim (addmask_key-IsKeyed netmask skip im) [
  | cleared a c ↦ absurd (cc)
  | keyed reach a c ↦
      let s = max skip 1 in
      let same : trimmed (0 ∷ buffer netmask s) ∷ buffer netmask s ≡ key = cc in
      let left : s < trimmed (0 ∷ buffer netmask s) =
        elim (dec_lt s (trimmed (0 ∷ buffer netmask s))) [
          | yes p ↦ p
          | no p ↦ absurd (c ((trimmed-clear_iff netmask s im (omega arith) reach).0 (omega arith)))
        ] in
      subst (λ m. IsMaskIndex m s (mask_index s (masked s m))) same
        (buffer-IsMaskIndex netmask s im (omega arith) reach left)
]
