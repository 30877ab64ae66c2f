-- ===== src/Stubs.antt =====
-- src/radix_stubs.c: the table of routes as a linked list behind the names of the radix tree.
pub mod Match
pub mod Exact
pub mod Host
pub mod Count
mod Tests
use freebsd_radix_userland.Common.{
  ℕ, ◌-◌, ◌+◌, ◌*◌, bit_and, Bool, true, false, ◌&&◌, not, Option, none, some, List, [], ◌∷◌, ◌++◌,
  length, get_or, get_elem?, take, replicate, ltb, leb, ◌==◌, if◌then◌else◌, and_then,
}
use freebsd_radix_userland.Common.Int.{ℤ, pos, negsuc, leb_ℤ, ◌+ℤ◌, ◌-ℤ◌}
use freebsd_radix_userland.Common.Steps.{◌>>=◌}
use freebsd_radix_userland.Radix.Memory.{Ptr, null}
unfoldable pub use freebsd_radix_userland.Sockaddr.{
  sa_len, sa_family, af_inet, sin_addr, storage_size, store,
}
use freebsd_radix_userland.Radix.Search.{same_bytes}

-- `struct radix_stub_entry`, with the address at which it stands.
pub record Entry : Type 0 where
  pub at : Ptr
  pub dst : List ℕ
  pub mask : List ℕ

-- `struct radix_stub_head`: `next` is the order of the list.
pub record StubHead : Type 0 where
  pub entries : List Entry
  pub count : ℤ

-- A pointer that may be NULL is an `Option`. The result 1 comes with the head.
unfoldable pub rn_inithead : Ptr → ℕ → ℕ × Option StubHead
rn_inithead rh off =
    if rh == null then (0, none) else (1, some (record { entries = []; count = pos 0 }))

-- The result is `*head` behind the call, too.
unfoldable pub rn_detachhead : Option StubHead → ℕ × Option StubHead
rn_detachhead none = (0, none)
rn_detachhead (some rh) = (1, none)

-- The mask of a new entry: with none given, its storage stays zero.
unfoldable pub store_mask : Option (List ℕ) → Option (List ℕ)
unfolding store
store_mask none = some (replicate storage_size 0)
store_mask (some mask) = store mask

-- An `int`: beyond its range an increment or a decrement is a fault.
unfoldable pub as_int : ℤ → Option ℤ
as_int c = if leb_ℤ (negsuc 2147483647) c && leb_ℤ c (pos 2147483647) then some c else none

-- `entry` is what `bsd_malloc` returns.
unfoldable pub stub_addaddr : Ptr → (v mask : Option (List ℕ)) → StubHead → Option (Ptr × StubHead)
unfolding store store_mask as_int
stub_addaddr entry none mask rh = some (null, rh)
stub_addaddr entry (some v) mask rh = if entry == null then some (null, rh) else do
  dst ← store v
  m ← store_mask mask
  count ← as_int (rh.count +ℤ pos 1)
  some (
    entry,
    record { entries = record { at = entry; dst = dst; mask = m } ∷ rh.entries; count = count },
  )

-- `mask_match`
unfoldable pub mask_match : Option (List ℕ) → List ℕ → Option Bool
unfolding same_bytes
mask_match none entry_mask = some (sa_len entry_mask == 0)
mask_match (some m) entry_mask =
    if ltb 0 (sa_len entry_mask) then same_bytes (sa_len m) entry_mask m else some false

-- `dst_match && mask_match`
unfoldable pub exact_match : List ℕ → Option (List ℕ) → Entry → Option Bool
unfolding same_bytes mask_match
exact_match v mask entry = do
  dst_match ← same_bytes (sa_len v) entry.dst v
  m ← mask_match mask entry.mask
  some (dst_match && m)

-- `while (entry)` in `stub_deladdr`: the entry taken out, and the list without it.
unfoldable pub delete_loop :
    List ℕ → Option (List ℕ) → List Entry → Option (Option (Entry × List Entry))
unfolding exact_match
delete_loop v mask [] = some none
delete_loop v mask (e ∷ es) = do
  found ← exact_match v mask e
  if found then some (some (e, es)) else do
    rest ← delete_loop v mask es
    some (elim rest [ none ↦ none | some (x, xs) ↦ some (x, e ∷ xs) ])

unfoldable pub stub_deladdr : (v mask : Option (List ℕ)) → StubHead → Option (Ptr × StubHead)
unfolding delete_loop as_int
stub_deladdr none mask rh = some (null, rh)
stub_deladdr (some v) mask rh = do
  r ← delete_loop v mask rh.entries
  elim r [
    | none ↦ some (null, rh)
    | some (e, es) ↦ do
      count ← as_int (rh.count -ℤ pos 1)
      some (e.at, record { entries = es; count = count })
  ]

-- `addr_matches`, for an address that is not NULL; it is read as far as the code reads it.
unfoldable pub addr_matches : (addr dst : List ℕ) → Option (List ℕ) → Option Bool
addr_matches addr dst mask = do
  family ← get_elem? addr 1
  let mask_ip : ℕ = elim mask [ none ↦ 4294967295 | some m ↦ sin_addr m ]
  if not (family == sa_family dst)
      then some false
      else if not (family == af_inet)
      then some false
      else if leb 8 (length addr)
      then some (bit_and (sin_addr addr) mask_ip == bit_and (sin_addr dst) mask_ip)
      else none

-- One round of the search: `best_match` and `best_mask` behind it.
unfoldable pub better : Bool → Entry → Option Entry × ℕ → Option Entry × ℕ
better hit e (best, best_mask) =
    if not hit
    then (best, best_mask)
    else if sa_family e.mask == af_inet
    then (if leb best_mask (sin_addr e.mask) then (some e, sin_addr e.mask) else (best, best_mask))
    else (elim best [ none ↦ some e | some b ↦ some b ], best_mask)

unfoldable pub match_loop : List ℕ → List Entry → Option Entry × ℕ → Option (Option Entry)
unfolding addr_matches better
match_loop v [] acc = some acc.0
match_loop v (e ∷ es) acc = do
  hit ← addr_matches v e.dst (some e.mask)
  match_loop v es (better hit e acc)

unfoldable pub stub_matchaddr : Option (List ℕ) → StubHead → Option Ptr
unfolding match_loop
stub_matchaddr none rh = some null
stub_matchaddr (some v) rh = do
  best ← match_loop v rh.entries (none, 0)
  some (elim best [ none ↦ null | some e ↦ e.at ])

unfoldable pub lookup_loop : List ℕ → Option (List ℕ) → List Entry → Option Ptr
unfolding exact_match
lookup_loop v mask [] = some null
lookup_loop v mask (e ∷ es) = do
  found ← exact_match v mask e
  if found then some e.at else lookup_loop v mask es

unfoldable pub stub_lookup : (v mask : Option (List ℕ)) → StubHead → Option Ptr
unfolding lookup_loop
stub_lookup none mask rh = some null
stub_lookup (some v) mask rh = lookup_loop v mask rh.entries

-- The callback reads entries and changes a state of its own, what `w` points to.
module _ {W : Type 0} (f : Ptr → W → ℤ × W) where
  unfoldable pub walk_loop : List Entry → W → ℤ × W
  walk_loop [] w = (pos 0, w)
  walk_loop (e ∷ es) w =
      let (result, w') = f e.at w in
      elim result [
        | pos n ↦ let rest = walk_loop es w' in if n == 0 then rest else (pos n, w')
        | negsuc n ↦ (negsuc n, w')
      ]

  unfoldable pub stub_walktree : StubHead → W → ℤ × W
  unfolding walk_loop
  stub_walktree rh w = walk_loop rh.entries w
