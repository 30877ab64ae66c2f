-- ===== src/Radix/Masks.antt =====
-- The comparisons of masks and keys in src/freebsd/radix.c, on the bytes that their pointers lead to.
-- A pointer that a loop advances is the rest of the bytes; a read past the end is a fault.
pub mod Bits
pub mod Refines
pub mod Order
pub mod Satisfies
pub mod Canonical
pub mod Byte
pub mod Index
pub mod Interned
pub mod Shortcut
use freebsd_radix_userland.Common.{
  ℕ, zero, suc, ◌+◌, ◌-◌, ◌*◌, ◌/◌, ◌%◌, min, max, bit_and, bit_xor, Bool, true, false, not, ◌&&◌,
  Option, none, some, List, [], ◌∷◌, ◌++◌, ltb, leb, ◌==◌, if◌then◌else◌, and_then, length, get_or,
  take, drop, replicate,
}

-- `LEN(x)`: the first byte holds the size of the whole structure.
abbrev pub len_byte : List ℕ → ℕ
len_byte x = get_or x 0 0

-- `x & m`, as a condition.
abbrev pub bit_test : ℕ → ℕ → Bool
bit_test m x = not (bit_and m x == 0)

-- `b & ~a` on bytes, as a condition.
abbrev pub outside : ℕ → ℕ → Bool
outside b a = bit_test b (255 - a)

-- Some byte of the next `k` is not zero.
unfoldable pub any_nonzero : ℕ → List ℕ → Option Bool
any_nonzero zero xs = some false
any_nonzero (suc k) [] = none
any_nonzero (suc k) (x ∷ xs) = if x == 0 then any_nonzero k xs else some true

-- The end of `rn_refines`, behind the bytes that both masks have: `longer` bytes more of `n`, or
-- `shorter` more of `m`.
unfoldable pub refines_tail : (longer shorter : ℕ) → (n m : List ℕ) → Bool → Option Bool
unfolding any_nonzero
refines_tail longer shorter n m masks_are_equal = and_then (any_nonzero longer n) λ rest.
    if rest then some false else if masks_are_equal then any_nonzero shorter m else some true

-- `while (n < lim)`: `k` bytes are left to compare.
unfoldable pub refines_loop : (k longer shorter : ℕ) → (n m : List ℕ) → Bool → Option Bool
unfolding refines_tail
refines_loop zero longer shorter n m masks_are_equal =
    refines_tail longer shorter n m masks_are_equal
refines_loop (suc k) longer shorter (b ∷ n) (a ∷ m) masks_are_equal =
    let rest = refines_loop k longer shorter n m (masks_are_equal && (b == a)) in
    if outside b a then some false else rest
refines_loop (suc k) longer shorter n m masks_are_equal = none

unfoldable pub rn_refines : (m n : List ℕ) → Option Bool
unfolding refines_loop
rn_refines m n =
    refines_loop (min (len_byte n) (len_byte m) - 1) (len_byte n - max (len_byte m) 1)
      (len_byte m - len_byte n) (drop 1 n) (drop 1 m) true

-- `for (lim = mp + LEN(mp); mp < lim;)`
unfoldable pub lexobetter_loop : ℕ → (mp np : List ℕ) → Option Bool
lexobetter_loop zero mp np = some false
lexobetter_loop (suc k) (a ∷ mp) (b ∷ np) =
    let rest = lexobetter_loop k mp np in if ltb b a then some true else rest
lexobetter_loop (suc k) mp np = none

unfoldable pub rn_lexobetter : (m n : List ℕ) → Option Bool
unfolding lexobetter_loop
rn_lexobetter m n =
    if ltb (len_byte n) (len_byte m)
    then some true
    else if len_byte m == len_byte n
    then lexobetter_loop (len_byte m) m n
    else some false

-- `for (cp += skip; cp < cplim; cp++, cp2++, cp3++)`
unfoldable pub satisfies_loop : ℕ → (cp cp2 cp3 : List ℕ) → Option Bool
satisfies_loop zero cp cp2 cp3 = some true
satisfies_loop (suc k) (x ∷ cp) (y ∷ cp2) (m ∷ cp3) =
    let rest = satisfies_loop k cp cp2 cp3 in if bit_test (bit_xor x y) m then some false else rest
satisfies_loop (suc k) cp cp2 cp3 = none

-- The content of `rn_ones`.
abbrev pub ones : List ℕ
ones = replicate 32 255

-- The leaf's key and mask come as bytes; a leaf with no mask is a host route.
unfoldable pub rn_satisfies_leaf :
    (trial key : List ℕ) → (mask : Option (List ℕ)) → (skip : ℕ) → Option Bool
unfolding satisfies_loop
rn_satisfies_leaf trial key none skip =
    satisfies_loop (min (len_byte trial) (len_byte key) - skip) (drop skip trial) (drop skip key)
      (drop skip ones)
rn_satisfies_leaf trial key (some mask) skip =
    satisfies_loop (min (min (len_byte trial) (len_byte key)) (len_byte mask) - skip)
      (drop skip trial) (drop skip key) (drop skip mask)

-- The length of a byte string without the zeros at its end.
unfoldable pub trimmed : List ℕ → ℕ
trimmed [] = 0
trimmed (x ∷ xs) = let n = trimmed xs in if n == 0 && x == 0 then 0 else n + 1

-- The first half of `rn_addmask`, up to the search: the buffer `addmask_key` of 32 bytes, with the
-- mask cut to 32 bytes, its first `skip` bytes set and its length, less the zeros at the end, in
-- front. `none` is the case where nothing is left and the function returns `mask_nodes`.
unfoldable pub addmask_key : List ℕ → ℕ → Option (List ℕ)
unfolding trimmed
addmask_key netmask skip₀ =
    let skip = max skip₀ 1 in
    let mlen₀ = min (len_byte netmask) 32 in
    let body =
      replicate (skip - 1) 255
      ++ (take (mlen₀ - skip) (drop skip netmask) ++ replicate (32 - mlen₀) 0) in
    let mlen = trimmed (0 ∷ body) in
    if leb mlen₀ skip then none else if leb mlen skip then none else some (mlen ∷ body)

-- `for (j = 0x80; (j & *c) != 0; j >>= 1) b++;`
unfoldable pub leading_ones : ℕ → ℕ → ℕ → ℕ
leading_ones zero j c = 0
leading_ones (suc k) j c =
    let rest = leading_ones k (j / 2) c in if bit_test j c then rest + 1 else 0

-- `CONTIG(c)` on a byte.
unfoldable pub contig : ℕ → Bool
contig c = let low = (256 - c) % 256 in bit_and low c == low

-- The second half of `rn_addmask`: the index of a mask and whether it is normal. `i` is the place
-- of the byte that heads the list.
unfoldable pub mask_index : ℕ → List ℕ → ℕ × Bool
unfolding leading_ones contig
mask_index i [] = (i * 8, true)
mask_index i (c ∷ cs) =
    let rest = mask_index (i + 1) cs in
    if c == 255 then rest else (i * 8 + leading_ones 8 128 c, contig c && (length cs == 0))
