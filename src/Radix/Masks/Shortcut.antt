-- ===== src/Radix/Masks/Shortcut.antt =====
-- The test on a normal mask that `rn_match` of src/freebsd/radix.c uses in place of
-- `rn_satisfies_leaf`: the first bit at which the keys differ against the mask's index.
use freebsd_radix_userland.Common.{
  ℕ, ◌+◌, ◌-◌, ◌*◌, ◌/◌, ◌%◌, ◌≤◌, ◌<◌, ◌≡◌, refl, sym, ◌∙◌, ap, ◌↔◌, Bool, true, false, min, some,
  List, arith, get_or, max, drop, Bool-cases, inl, inr,
}
use native.Mathlib.Decide.{dec_le}
use freebsd_radix_userland.Common.Int.{negsuc, leb_ℤ}
use freebsd_radix_userland.Common.Digits.{digit, digit-lt-two}
use freebsd_radix_userland.Radix.Masks.{len_byte, rn_satisfies_leaf, addmask_key, mask_index}
use freebsd_radix_userland.Radix.Masks.Satisfies.{IsStored, AgreeOn, rn_satisfies_leaf_iff}
use freebsd_radix_userland.Radix.Masks.Interned.{IsMaskIndex, masked, addmask_key-IsMaskIndex}
use freebsd_radix_userland.Radix.Search.{mismatch, match_bit, insert_bit}
use freebsd_radix_userland.Radix.Search.FirstBit.{
  byte_bit, byte_bit-digit, key_bit, IsFirstBit, insert_bit-IsFirstBit, insert_bit-eq,
  mismatch-Differs,
}

-- Agreement under a mask, bit by bit from the highest.
AgreeOn-byte_bit :
    (m x y : ℕ)
    → m < 256
    → x < 256
    → y < 256
    → AgreeOn m x y ↔ ((c : ℕ) → c < 8 → byte_bit m c ≡ true → byte_bit x c ≡ byte_bit y c)
AgreeOn-byte_bit m x y hm hx hy = (
  (λ all c lt e.
      let h : digit m (7 - c) ≡ 1 → digit x (7 - c) ≡ digit y (7 - c) = all (7 - c) (omega arith) in
      let one : digit m (7 - c) ≡ 1 = ground (arith, byte_bit-digit m c hm lt) in
      let same = h one in ground (arith, byte_bit-digit x c hx lt, byte_bit-digit y c hy lt)),
  (λ all k lt one.
      let c = 7 - k in
      let back : 7 - c ≡ k = omega arith in
      let near : c < 8 = omega arith in
      let dm = rw back at (byte_bit-digit m c hm near) in
      let dx = rw back at (byte_bit-digit x c hx near) in
      let dy = rw back at (byte_bit-digit y c hy near) in
      let set : byte_bit m c ≡ true = ground arith in
      let same = all c near set in ground (arith, digit-lt-two x k, digit-lt-two y k)),
)

-- Bit `c` of byte `i` of a key.
key_bit-at : (x : List ℕ) (i c : ℕ) → c < 8 → key_bit x (i * 8 + c) ≡ byte_bit (get_or x i 0) c
key_bit-at x i c lt =
    let q : (i * 8 + c) / 8 ≡ i = omega arith in
    let r : (i * 8 + c) % 8 ≡ c = omega arith in rw (q, r) refl

module _ (v key m : List ℕ) (iv : IsStored v) (ik : IsStored key) (im : IsStored m) where
  -- Bytes of a key agree under a normal mask up to the first bit at which the keys differ, if the
  -- mask ends before that bit.
  normal-AgreeOn :
      {s off vlen b : ℕ} {r : ℕ × Bool} (i : ℕ)
      → IsMaskIndex m s r
      → r.1 ≡ true
      → IsFirstBit v key off vlen b
      → r.0 ≤ b
      → off ≤ i
      → i < len_byte m
      → AgreeOn (get_or m i 0) (get_or v i 0) (get_or key i 0)
  normal-AgreeOn {b} {r} i index normal first le lo hi =
      (AgreeOn-byte_bit (get_or m i 0) (get_or v i 0) (get_or key i 0) (im.bytes i) (iv.bytes i)
          (ik.bytes i)).1
        λ c lt set. elim (dec_le r.0 (i * 8 + c)) [
          | yes p ↦
              let clear = index.normal.0 normal (i * 8 + c) p (omega arith) in
              let bit = key_bit-at m i c lt in absurd (cc)
          | no p ↦
              sym (key_bit-at v i c lt)
              ∙ first.before (i * 8 + c) (omega arith) (omega arith)
              ∙ key_bit-at key i c lt
        ]

  -- The first bit at which the keys differ is one of the mask's.
  not-AgreeOn :
      {s off vlen b : ℕ} {r : ℕ × Bool}
      → IsMaskIndex m s r
      → IsFirstBit v key off vlen b
      → b < r.0
      → s * 8 ≤ b
      → ¬ AgreeOn (get_or m (b / 8) 0) (get_or v (b / 8) 0) (get_or key (b / 8) 0)
  not-AgreeOn {b} index first lt lo all = first.ne (
      (AgreeOn-byte_bit _ _ _ (im.bytes (b / 8)) (iv.bytes (b / 8)) (ik.bytes (b / 8))).0 all
        (b % 8) (omega arith) (index.set b lo lt))

  -- For a normal mask the leaf's test is a comparison of the first difference and the mask's index.
  rn_satisfies_leaf-normal :
      (s off vlen skip b : ℕ) (r : ℕ × Bool)
      → IsMaskIndex m s r
      → r.1 ≡ true
      → IsFirstBit v key off vlen b
      → s ≤ skip
      → off ≤ skip
      → skip ≤ b / 8
      → b < min (len_byte v) (len_byte key) * 8
      → rn_satisfies_leaf v key (some m) skip ≡ some (leb_ℤ (negsuc b) (negsuc r.0))
  rn_satisfies_leaf-normal s off vlen skip b r index normal first ls lo here within =
      let (q, run, iff) =
        rn_satisfies_leaf_iff v key iv ik (some m) skip (omega (arith, im.stored)) in
      run
      ∙ ap some (elim (dec_le r.0 b) [
        | yes p ↦
            let hit : q ≡ true =
              iff.1 λ i above below.
                normal-AgreeOn i index normal first p (omega arith) (omega arith) in
            ground arith
        | no p ↦
            let miss : q ≡ false = elim (Bool-cases q) [
              | inl e ↦ absurd (
                  not-AgreeOn index first (omega arith) (omega arith)
                    (iff.0 e (b / 8) here (omega (arith, index.upper))))
              | inr e ↦ e
            ] in
            ground arith
      ])

-- When `rn_match` finds that a key and a leaf's key differ at byte `j`, and the leaf's mask is one that
-- `rn_addmask` has flagged as normal, `rn_satisfies_leaf` from byte `j` on returns exactly the
-- comparison of bit numbers that `rn_match` makes instead. The search starts at a byte `off` behind the
-- length bytes and stays within both keys.
pub rn_satisfies_leaf-normal_mask :
    (v key netmask m : List ℕ) (off vlen j z : ℕ)
    → IsStored v
    → IsStored key
    → IsStored netmask
    → IsStored m
    → 1 ≤ off
    → vlen ≤ min (len_byte v) (len_byte key)
    → mismatch (vlen - off) off (drop off v) (drop off key) ≡ some (some (j, z))
    → addmask_key netmask off ≡ some m
    → (mask_index off (masked off m)).1 ≡ true
    → rn_satisfies_leaf v key (some m) j
      ≡ some (leb_ℤ (negsuc (match_bit j z)) (negsuc (mask_index off (masked off m)).0))
rn_satisfies_leaf-normal_mask v key netmask m off vlen j z iv ik im₀ im pos fits run made normal =
    let (first, same) = insert_bit-IsFirstBit v key off vlen j z iv.bytes ik.bytes run in
    let f = mismatch-Differs (vlen - off) off (drop off v) (drop off key) run in
    let one : max off 1 ≡ off = omega arith in
    let index : IsMaskIndex m off (mask_index off (masked off m)) =
      rw one at (addmask_key-IsMaskIndex netmask off m im₀ made) in
    rw same (
      rn_satisfies_leaf-normal v key m iv ik im off off vlen j (insert_bit j z)
        (mask_index off (masked off m)) index normal first (omega (arith, f.place))
        (omega (arith, f.place)) (omega (arith, insert_bit-eq j z)) (omega (arith, first.upper)))
