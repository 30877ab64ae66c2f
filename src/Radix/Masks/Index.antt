-- ===== src/Radix/Masks/Index.antt =====
-- The index that the second half of `rn_addmask` of src/freebsd/radix.c gives a list of bytes, and its
-- flag for a normal mask, against the bits.
use freebsd_radix_userland.Common.{
  ℕ, suc, ◌+◌, ◌-◌, ◌*◌, ◌/◌, ◌%◌, ◌≤◌, ◌<◌, ◌≡◌, refl, ◌≢◌, ◌∙◌, sym, inl, inr, Bool, true, false,
  ◌&&◌, List, [], ◌∷◌, arith, length, get_or, ◌==◌, Bool-cases,
}
use native.Mathlib.Decide.{dec_lt}
use freebsd_radix_userland.Common.Bytes.{every_below-at}
use freebsd_radix_userland.Radix.Masks.{leading_ones, contig, mask_index}
use freebsd_radix_userland.Radix.Masks.Byte.{
  full_table, byte-zero, leading_ones-lt, leading_ones-before, leading_ones-end, contig-clear,
  clear-contig,
}
use freebsd_radix_userland.Radix.Search.FirstBit.{byte_bit, key_bit, IsBytes}

key_bit-head : (x : ℕ) (cs : List ℕ) (c : ℕ) → c < 8 → key_bit (x ∷ cs) c ≡ byte_bit x c
key_bit-head x cs c lt =
    let q : c / 8 ≡ 0 = omega arith in let r : c % 8 ≡ c = omega arith in rw (q, r) refl

key_bit-tail : (x : ℕ) (cs : List ℕ) (c : ℕ) → 8 ≤ c → key_bit (x ∷ cs) c ≡ key_bit cs (c - 8)
key_bit-tail x cs c le =
    let q : c / 8 ≡ suc ((c - 8) / 8) = omega arith in
    let r : c % 8 ≡ (c - 8) % 8 = omega arith in rw (q, r) refl

-- The last byte is not zero.
abbrev pub IsTrimmed : List ℕ → Type 0
IsTrimmed cs = (k : ℕ) → suc k ≡ length cs → get_or cs k 0 ≢ 0

-- All bits from place `b` on are clear, bit 0 of the list at place `lo`.
abbrev pub IsClear : (lo b : ℕ) → List ℕ → Type 0
IsClear lo b cs = (c : ℕ) → c < length cs * 8 → b ≤ lo + c → key_bit cs c ≡ false

-- A list of bytes with a last byte that is not zero has a bit set.
trimmed-not_clear :
    (lo : ℕ) (cs : List ℕ) → IsBytes cs → IsTrimmed cs → IsClear lo 0 cs → length cs ≡ 0
trimmed-not_clear lo [] h t clear = refl
trimmed-not_clear lo (x ∷ cs) h t clear =
    let k = length cs in
    let last : get_or (x ∷ cs) k 0 ≡ 0 = byte-zero (get_or (x ∷ cs) k 0) (h k) λ c lt.
      let q : (k * 8 + c) / 8 ≡ k = omega arith in
      let r : (k * 8 + c) % 8 ≡ c = omega arith in
      rw (q, r) at (clear (k * 8 + c) (omega arith) (omega arith)) in
    absurd (t k refl last)

-- What the index and the flag mean for bytes whose first bit has place `lo`.
pub record IsIndex (lo : ℕ) (cs : List ℕ) (r : ℕ × Bool) : Type 0 where
  pub lower : lo ≤ r.0
  pub upper : r.0 ≤ lo + length cs * 8
  pub set : (c : ℕ) → lo + c < r.0 → key_bit cs c ≡ true
  pub unset : (c : ℕ) → c < length cs * 8 → lo + c ≡ r.0 → key_bit cs c ≡ false
  pub rest : r.1 ≡ true → IsClear lo r.0 cs
  pub normal : IsTrimmed cs → IsClear lo r.0 cs → r.1 ≡ true

-- A byte with all bits set moves the index on.
IsIndex-full :
    (lo : ℕ) (cs : List ℕ) (r : ℕ × Bool) → IsIndex (lo + 8) cs r → IsIndex lo (255 ∷ cs) r
IsIndex-full lo cs r f = record {
  lower = omega (arith, f.lower);
  upper = omega (arith, f.upper);
  set = λ c lt. elim (dec_lt c 8) [
    | yes p ↦ key_bit-head 255 cs c p ∙ every_below-at 8 (byte_bit 255) c full_table p
    | no p ↦ key_bit-tail 255 cs c (omega arith) ∙ f.set (c - 8) (omega arith)
  ];
  unset = λ c lt e.
      let far : 8 ≤ c = omega (arith, f.lower) in
      key_bit-tail 255 cs c far ∙ f.unset (c - 8) (omega arith) (omega arith);
  rest = λ e c lt le.
      let far : 8 ≤ c = omega (arith, f.lower) in
      key_bit-tail 255 cs c far ∙ f.rest e (c - 8) (omega arith) (omega arith);
  normal = λ t clear.
      f.normal (λ k e. t (suc k) (omega arith))
        λ c lt le.
          let e : c + 8 - 8 ≡ c = omega arith in
          rw e at (
            sym (key_bit-tail 255 cs (c + 8) (omega arith))
            ∙ clear (c + 8) (omega arith) (omega arith));
}

-- The first byte with a bit that is not set ends the loop.
IsIndex-stop :
    (lo x : ℕ) (cs : List ℕ)
    → x < 256
    → x ≢ 255
    → IsBytes cs
    → IsIndex lo (x ∷ cs) (lo + leading_ones 8 128 x, contig x && (length cs == 0))
IsIndex-stop lo x cs h ne hs =
    let n = leading_ones 8 128 x in
    let small = leading_ones-lt x h ne in
    record {
      lower = omega arith;
      upper = omega (arith, small);
      set = λ c lt.
          key_bit-head x cs c (omega (arith, small)) ∙ leading_ones-before x h ne c (omega arith);
      unset = λ c lt e.
          let at : c ≡ n = omega arith in
          rw at (key_bit-head x cs n small ∙ leading_ones-end x h ne);
      rest = λ e c lt le.
          let short : length cs ≡ 0 = ground arith in
          let near : c < 8 = omega arith in
          key_bit-head x cs c near ∙ contig-clear x h ne (ground arith) c near (omega arith);
      normal = λ t clear.
          let ok : contig x ≡ true =
            clear-contig x h ne
              λ c lt le. sym (key_bit-head x cs c lt) ∙ clear c (omega arith) (omega arith) in
          let short : length cs ≡ 0 =
            trimmed-not_clear 0 cs hs (λ k e. t (suc k) (omega arith))
              λ c lt le.
                let e : c + 8 - 8 ≡ c = omega arith in
                rw e at (
                  sym (key_bit-tail x cs (c + 8) (omega arith))
                  ∙ clear (c + 8) (omega arith) (omega (arith, small))) in
          rw (ok, short) refl;
    }

pub mask_index-IsIndex : (i : ℕ) (cs : List ℕ) → IsBytes cs → IsIndex (i * 8) cs (mask_index i cs)
unfolding mask_index
mask_index-IsIndex i [] h = record {
  lower = omega arith;
  upper = omega arith;
  set = λ c lt. absurd (omega arith);
  unset = λ c lt e. absurd (omega arith);
  rest = λ e c lt le. absurd (omega arith);
  normal = λ t clear. refl;
}
mask_index-IsIndex i (x ∷ cs) h = elim (Bool-cases (x == 255)) [
  | inl full ↦
      let e : x ≡ 255 = ground arith in
      let step : (i + 1) * 8 ≡ i * 8 + 8 = omega arith in
      let f = mask_index-IsIndex (i + 1) cs (λ j. h (suc j)) in
      rw (full, e) (IsIndex-full (i * 8) cs (mask_index (i + 1) cs) (rw step at f))
  | inr part ↦ rw part (IsIndex-stop (i * 8) x cs (h 0) (ground arith) (λ j. h (suc j)))
]
