-- ===== src/Radix/Masks/Canonical.antt =====
-- `rn_addmask` of src/freebsd/radix.c brings masks into a canonical form before it looks them up.
use freebsd_radix_userland.Common.{
  ℕ, zero, suc, ◌+◌, ◌-◌, ◌≤◌, ◌<◌, ◌≡◌, refl, sym, ◌∙◌, ap, ◌↔◌, true, false, min, max, Option,
  none, some, List, [], ◌∷◌, ◌++◌, arith, length, length-drop, length-take, length-append,
  length-replicate, get_or, get_or-drop, get_or-append_left, get_or-append_right,
  get_or-replicate_self, get_or-take, eq_of_get_or, take, drop, replicate, ltb, leb, if◌then◌else◌,
}
use native.Mathlib.Decide.{dec_lt}
use freebsd_radix_userland.Radix.Masks.{len_byte, trimmed, addmask_key}
use freebsd_radix_userland.Radix.Masks.Satisfies.{IsStored}

pub trimmed-le_iff :
    (xs : List ℕ) (n : ℕ) → (trimmed xs ≤ n) ↔ ((i : ℕ) → n ≤ i → get_or xs i 0 ≡ 0)
unfolding trimmed
trimmed-le_iff [] n = ((λ h i le. refl), λ h. omega arith)
trimmed-le_iff (x ∷ xs) zero =
    let (a, b) = trimmed-le_iff xs 0 in
    (
      (λ h. elim [ zero ↦ λ le. ground arith | suc i ↦ λ le. a (ground arith) i (omega arith) ]),
      (λ h.
          let z : trimmed xs ≤ 0 = b (λ i le. h (suc i) (omega arith)) in
          let e : x ≡ 0 = h 0 (omega arith) in ground arith),
    )
trimmed-le_iff (x ∷ xs) (suc n) =
    let (a, b) = trimmed-le_iff xs n in
    (
      (λ h. elim [
        | zero ↦ λ le. absurd (omega arith)
        | suc i ↦ λ le. a (ground arith) i (omega arith)
      ]),
      (λ h. let z : trimmed xs ≤ n = b (λ i le. h (suc i) (omega arith)) in ground arith),
    )

-- Byte `i` of a mask cut to 32 bytes, 0 behind its end.
abbrev pub cut_byte : List ℕ → ℕ → ℕ
cut_byte m i = if ltb i (min (len_byte m) 32) then get_or m i 0 else 0

-- The bytes of the buffer that the mask gives, from byte `s` on.
abbrev pub reached : List ℕ → ℕ → List ℕ
reached m s = take (min (len_byte m) 32 - s) (drop s m) ++ replicate (32 - min (len_byte m) 32) 0

-- The buffer behind its length byte, for a mask that reaches beyond `s` bytes.
abbrev pub buffer : List ℕ → ℕ → List ℕ
buffer m s = replicate (s - 1) 255 ++ reached m s

module _ (m : List ℕ) (s : ℕ) (im : IsStored m) (pos : 1 ≤ s)
    (reach : s < min (len_byte m) 32) where
  length-middle : length (take (min (len_byte m) 32 - s) (drop s m)) ≡ min (len_byte m) 32 - s
  length-middle =
      omega (arith, length-take (min (len_byte m) 32 - s) (drop s m), length-drop s m, im.stored)

  length-reached : length (reached m s) ≡ 32 - s
  length-reached =
      let b =
        length-append (take (min (len_byte m) 32 - s) (drop s m))
          (replicate (32 - min (len_byte m) 32) 0) in
      omega (arith, b, length-middle, length-replicate {A = ℕ} (32 - min (len_byte m) 32) 0)

  reached-cut_byte : (j : ℕ) → get_or (reached m s) j 0 ≡ cut_byte m (s + j)
  reached-cut_byte j =
      let d = min (len_byte m) 32 - s in
      let mid = take d (drop s m) in
      let tail : List ℕ = replicate (32 - min (len_byte m) 32) 0 in
      elim (dec_lt j d) [
        | yes lt ↦
            let inside : ltb (s + j) (min (len_byte m) 32) ≡ true = ground arith in
            rw inside (
              get_or-append_left mid tail j 0 (omega (arith, length-middle))
              ∙ get_or-take d j (drop s m) 0 lt
              ∙ get_or-drop s j m 0)
        | no ge ↦
            let beyond : ltb (s + j) (min (len_byte m) 32) ≡ false = ground arith in
            let at : d + (j - d) ≡ j = omega arith in
            rw beyond (
              rw at at (get_or-append_right mid tail (j - d) d 0 length-middle)
              ∙ get_or-replicate_self (32 - min (len_byte m) 32) (j - d) 0)
      ]

  buffer-cut_byte : (j : ℕ) → get_or (buffer m s) (s - 1 + j) 0 ≡ cut_byte m (s + j)
  buffer-cut_byte j =
      get_or-append_right (replicate (s - 1) 255) (reached m s) j (s - 1) 0
        (length-replicate {A = ℕ} (s - 1) 255)
      ∙ reached-cut_byte j

-- The mask has no bit from byte `s` on.
abbrev pub IsClearFrom : ℕ → List ℕ → Type 0
IsClearFrom s m = (i : ℕ) → s ≤ i → cut_byte m i ≡ 0

module _ (m : List ℕ) (s : ℕ) (im : IsStored m) (pos : 1 ≤ s) where
  clear-short : min (len_byte m) 32 ≤ s → IsClearFrom s m
  clear-short le i si = let e : ltb i (min (len_byte m) 32) ≡ false = ground arith in simp e

  pub buffer-at :
      s < min (len_byte m) 32 → (i : ℕ) → s ≤ i → get_or (0 ∷ buffer m s) i 0 ≡ cut_byte m i
  buffer-at reach i si =
      let g = buffer-cut_byte m s im pos reach (i - s) in
      let e : s + (i - s) ≡ i = omega arith in
      let f : suc (s - 1 + (i - s)) ≡ i = omega arith in
      let g₂ : get_or (0 ∷ buffer m s) (suc (s - 1 + (i - s))) 0 ≡ cut_byte m (s + (i - s)) = g in
      rw f at (rw e at g₂)

  pub trimmed-clear_iff : s < min (len_byte m) 32 → (trimmed (0 ∷ buffer m s) ≤ s) ↔ IsClearFrom s m
  trimmed-clear_iff reach =
      let (a, b) = trimmed-le_iff (0 ∷ buffer m s) s in
      (
        (λ le i si. sym (buffer-at reach i si) ∙ a le i si),
        (λ c. b (λ i si. buffer-at reach i si ∙ c i si)),
      )

-- What becomes of a mask.
pub data IsKeyed (m : List ℕ) (s : ℕ) (r : Option (List ℕ)) : Type 0 where
  cleared : r ≡ none → IsClearFrom s m → IsKeyed m s r
  keyed :
      s < min (len_byte m) 32
      → r ≡ some (trimmed (0 ∷ buffer m s) ∷ buffer m s)
      → (IsClearFrom s m → ⊥)
      → IsKeyed m s r

pub addmask_key-IsKeyed :
    (m : List ℕ) (skip : ℕ) → IsStored m → IsKeyed m (max skip 1) (addmask_key m skip)
unfolding addmask_key
addmask_key-IsKeyed m skip im =
    let s = max skip 1 in
    elim (dec_lt s (min (len_byte m) 32)) [
      | no ge ↦
          let short : leb (min (len_byte m) 32) s ≡ true = ground arith in
          cleared (simp short) (clear-short m s im (omega arith) (omega arith))
      | yes reach ↦
          let long : leb (min (len_byte m) 32) s ≡ false = ground arith in
          let (a, b) = trimmed-clear_iff m s im (omega arith) reach in
          elim (dec_lt s (trimmed (0 ∷ buffer m s))) [
            | no le ↦
                let e : leb (trimmed (0 ∷ buffer m s)) s ≡ true = ground arith in
                cleared (simp (long, e)) (a (omega arith))
            | yes gt ↦
                let e : leb (trimmed (0 ∷ buffer m s)) s ≡ false = ground arith in
                keyed reach (simp (long, e)) (λ c. let le = b c in omega arith)
          ]
    ]

-- Masks of the same bytes from byte `s` on leave the same buffer.
buffer-agrees :
    (m n : List ℕ) (s : ℕ)
    → IsStored m
    → IsStored n
    → 1 ≤ s
    → s < min (len_byte m) 32
    → s < min (len_byte n) 32
    → ((i : ℕ) → s ≤ i → cut_byte m i ≡ cut_byte n i)
    → buffer m s ≡ buffer n s
buffer-agrees m n s im in₂ pos rm rn h =
    ap (λ xs. replicate (s - 1) 255 ++ xs)
      (eq_of_get_or (reached m s) (reached n s) 0
        (length-reached m s im pos rm ∙ sym (length-reached n s in₂ pos rn))
        (λ j.
          reached-cut_byte m s im pos rm j
          ∙ h (s + j) (omega arith)
          ∙ sym (reached-cut_byte n s in₂ pos rn j)))

module _ (m n : List ℕ) (skip : ℕ) (im : IsStored m) (in₂ : IsStored n) where
  keys-agree :
      addmask_key m skip ≡ addmask_key n skip
      → (i : ℕ) → max skip 1 ≤ i
      → cut_byte m i ≡ cut_byte n i
  keys-agree e i si = elim (addmask_key-IsKeyed m skip im) [
    | cleared a c ↦ elim (addmask_key-IsKeyed n skip in₂) [
      | cleared b d ↦ c i si ∙ sym (d i si)
      | keyed r b d ↦ cc
    ]
    | keyed q a c ↦ elim (addmask_key-IsKeyed n skip in₂) [
      | cleared b d ↦ cc
      | keyed r b d ↦
          let same : buffer m (max skip 1) ≡ buffer n (max skip 1) = cc in
          let at : get_or (0 ∷ buffer m (max skip 1)) i 0 ≡ get_or (0 ∷ buffer n (max skip 1)) i 0 =
            ap (λ xs. get_or (0 ∷ xs) i 0) same in
          sym (buffer-at m (max skip 1) im (omega arith) q i si)
          ∙ at
          ∙ buffer-at n (max skip 1) in₂ (omega arith) r i si
    ]
  ]

  agree-keys :
      ((i : ℕ) → max skip 1 ≤ i → cut_byte m i ≡ cut_byte n i)
      → addmask_key m skip ≡ addmask_key n skip
  agree-keys h = elim (addmask_key-IsKeyed m skip im) [
    | cleared a c ↦ elim (addmask_key-IsKeyed n skip in₂) [
      | cleared b d ↦ a ∙ sym b
      | keyed r b d ↦ absurd (d (λ i si. sym (h i si) ∙ c i si))
    ]
    | keyed q a c ↦ elim (addmask_key-IsKeyed n skip in₂) [
      | cleared b d ↦ absurd (c (λ i si. h i si ∙ d i si))
      | keyed r b d ↦
          a
          ∙ ap (λ xs. some (trimmed (0 ∷ xs) ∷ xs))
              (buffer-agrees m n (max skip 1) im in₂ (omega arith) q r h)
          ∙ sym b
    ]
  ]

-- Two stored masks get the same buffer in `rn_addmask` (or both none) exactly when they have the
-- same bytes, zeros at the end aside, from byte `max skip 1` up to the 32 that a mask may have.
pub addmask_key_iff :
    (m n : List ℕ) (skip : ℕ)
    → IsStored m
    → IsStored n
    → (addmask_key m skip ≡ addmask_key n skip)
      ↔ ((i : ℕ) → max skip 1 ≤ i → cut_byte m i ≡ cut_byte n i)
addmask_key_iff m n skip im in₂ = (keys-agree m n skip im in₂, agree-keys m n skip im in₂)
