-- ===== src/Radix/Search.antt =====
-- `rn_search` and `rn_search_m` of src/freebsd/radix.c, and the loops that compare a key with a leaf's.
pub mod FirstBit
pub mod Mismatch
use freebsd_radix_userland.Common.{
  ℕ, zero, suc, ◌+◌, ◌-◌, ◌*◌, ◌/◌, bit_xor, Bool, true, false, ◌&&◌, Option, none, some, List, ◌∷◌,
  ltb, ◌==◌, if◌then◌else◌, and_then, get_elem?,
}
use freebsd_radix_userland.Common.Int.{pos, negsuc}
use freebsd_radix_userland.Common.Steps.{◌>>=◌}
use freebsd_radix_userland.Radix.Memory.{Ptr, RadixNode, Heap, load}
use freebsd_radix_userland.Radix.Masks.{bit_test}

-- The son of an inner node on the side of the key's bit.
unfoldable pub child : List ℕ → RadixNode → Option Ptr
child v n = do
  c ← get_elem? v n.rn_offset
  some (if bit_test n.rn_bmask c then n.rn_right else n.rn_left)

-- Fuel bounds the depth: each round goes one node down.
unfoldable pub rn_search : ℕ → Heap → List ℕ → Ptr → Option Ptr
unfolding child load
rn_search zero h v x = none
rn_search (suc k) h v x = do
  n ← load h x
  elim n.rn_bit [ negsuc _ ↦ some x | pos _ ↦ and_then (child v n) (rn_search k h v) ]

unfoldable pub child_m : List ℕ → List ℕ → RadixNode → Option Ptr
child_m v m n = do
  c ← get_elem? v n.rn_offset
  d ← get_elem? m n.rn_offset
  some (if bit_test n.rn_bmask d && bit_test n.rn_bmask c then n.rn_right else n.rn_left)

unfoldable pub rn_search_m : ℕ → Heap → List ℕ → List ℕ → Ptr → Option Ptr
unfolding child_m load
rn_search_m zero h v m x = none
rn_search_m (suc k) h v m x = do
  n ← load h x
  elim n.rn_bit [ negsuc _ ↦ some x | pos _ ↦ and_then (child_m v m n) (rn_search_m k h v m) ]

-- The loop over `cp` and `cp2` up to `cplim`: `k` bytes are left, and `i` is `cp - v`. The result
-- is the place of the first byte that differs, and how it differs.
unfoldable pub mismatch : ℕ → ℕ → (cp cp2 : List ℕ) → Option (Option (ℕ × ℕ))
mismatch zero i cp cp2 = some none
mismatch (suc k) i (x ∷ cp) (y ∷ cp2) =
    let rest = mismatch k (i + 1) cp cp2 in if x == y then rest else some (some (i, bit_xor x y))
mismatch (suc k) i cp cp2 = none

-- `for (b = 7; (test >>= 1) > 0;) b--;` in `rn_match`.
unfoldable pub match_shift : ℕ → ℕ → ℕ → ℕ
match_shift zero test b = b
match_shift (suc k) test b =
    let rest = match_shift k (test / 2) (b - 1) in if ltb 0 (test / 2) then rest else b

-- The first bit at which the key and the leaf differ, as `rn_match` finds it.
unfoldable pub match_bit : ℕ → ℕ → ℕ
unfolding match_shift
match_bit matched_off test = match_shift 8 test 7 + matched_off * 8

-- `for (b = (cp - v) << 3; cmp_res; b--) cmp_res >>= 1;` in `rn_insert`, with `cp` behind the byte.
unfoldable pub insert_shift : ℕ → ℕ → ℕ → ℕ
insert_shift zero cmp_res b = b
insert_shift (suc k) cmp_res b =
    let rest = insert_shift k (cmp_res / 2) (b - 1) in if cmp_res == 0 then b else rest

unfoldable pub insert_bit : ℕ → ℕ → ℕ
unfolding insert_shift
insert_bit i cmp_res = insert_shift 8 cmp_res ((i + 1) * 8)

-- `bcmp(a, b, k) == 0`
unfoldable pub same_bytes : ℕ → List ℕ → List ℕ → Option Bool
same_bytes zero xs ys = some true
same_bytes (suc k) (x ∷ xs) (y ∷ ys) =
    let rest = same_bytes k xs ys in if x == y then rest else some false
same_bytes (suc k) xs ys = none
