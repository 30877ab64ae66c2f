-- ===== src/Radix/Tests.antt =====
-- Runs of the tree on small tables.
mod Masks
mod Tree
mod Walk
mod Match
mod AddRoute
use freebsd_radix_userland.Common.{
  ℕ, ◌+◌, ◌≡◌, refl, Option, none, some, List, [], ◌∷◌, replicate, and_then, ◌==◌, if◌then◌else◌,
}
use freebsd_radix_userland.Radix.Memory.{
  Ptr, RadixHead, Heap, M, pure, ◌>>=◌, ◌>>◌, reads, put, put_bytes,
}
use freebsd_radix_userland.Radix.Masks.{ones}
use freebsd_radix_userland.Radix.AddMask.{zero_node, rn_lookup}
use freebsd_radix_userland.Radix.Match.{rn_match}
use freebsd_radix_userland.Radix.Insert.{rn_inithead_internal}
use freebsd_radix_userland.Radix.AddRoute.{rn_addroute}
use freebsd_radix_userland.Radix.Delete.{rn_delete}
use freebsd_radix_userland.Radix.Walk.{Walker, rn_walktree}

-- An empty tree at 100 with its masks at 110, keys compared from bit `off` on.
abbrev start : Heap
start = record {
  node = λ _. none;
  mask = λ _. none;
  bytes = λ p. if p == 1 then some (replicate 32 0) else if p == 2 then some ones else none;
  mallocs = 200 ∷ 300 ∷ 400 ∷ 500 ∷ 600 ∷ 700 ∷ [];
}

abbrev head : RadixHead
head = record { rnh_treetop = 101; mask_nodes = 110; mask_treetop = 111 }

init : ℕ → M (Unit {0})
unfolding rn_inithead_internal
init off = do
  put 100 zero_node
  put 101 zero_node
  put 102 zero_node
  put 110 zero_node
  put 111 zero_node
  put 112 zero_node
  rn_inithead_internal 100 off
  rn_inithead_internal 110 0
  pure tt

-- A `struct sockaddr_in`.
abbrev sin : ℕ → ℕ → ℕ → ℕ → List ℕ
sin a b c d = 16 ∷ 2 ∷ 0 ∷ 0 ∷ a ∷ b ∷ c ∷ d ∷ replicate 8 0

add : Ptr → List ℕ → Option (List ℕ) → M Ptr
unfolding rn_addroute
add p v m = do put p zero_node; put (p + 1) zero_node; put_bytes p v; rn_addroute 64 p m head p

-- A default route, 10/8, 10.1/16 and a host in it.
table : ℕ → M (List Ptr)
unfolding init add rn_match
table off = do
  init off
  add 1000 (sin 10 0 0 0) (some (sin 255 0 0 0))
  add 1010 (sin 10 1 0 0) (some (sin 255 255 0 0))
  add 1020 (sin 10 1 2 3) none
  add 1030 (sin 0 0 0 0) (some (sin 0 0 0 0))
  add 1040 (sin 10 0 0 0) (some (sin 255 255 0 0))
  a ← reads (λ h. rn_match 64 h (sin 10 1 2 3) head)
  b ← reads (λ h. rn_match 64 h (sin 10 1 9 9) head)
  c ← reads (λ h. rn_match 64 h (sin 10 7 9 9) head)
  d ← reads (λ h. rn_match 64 h (sin 11 7 9 9) head)
  e ← reads (λ h. rn_match 64 h (sin 10 0 1 9) head)
  pure (a ∷ b ∷ c ∷ d ∷ e ∷ [])

results : ℕ → Option (List Ptr)
unfolding table
results off = and_then (table off start) (λ r. some r.0)

-- The most specific route is found, with keys compared from the address on and from the start.
results_32 : results 32 ≡ some (1020 ∷ 1010 ∷ 1000 ∷ 1030 ∷ 1040 ∷ [])
unfolding results
results_32 = refl

results_4 : results 4 ≡ some (1020 ∷ 1010 ∷ 1000 ∷ 1030 ∷ 1040 ∷ [])
unfolding results
results_4 = refl

collect : Walker (List Ptr)
collect rn w = pure (0, rn ∷ w)

-- Lookups and walks round the deletion of a leaf in a chain, of one alone, and of the others.
session : M (List Ptr × List Ptr × List Ptr × List Ptr × Ptr)
unfolding table rn_delete rn_walktree collect rn_lookup
session = do
  table 32
  (_, before) ← rn_walktree collect 64 head []
  a ← rn_lookup 64 (sin 10 0 0 0) (some (sin 255 0 0 0)) head
  b ← rn_lookup 64 (sin 10 0 0 0) (some (sin 255 255 0 0)) head
  c ← rn_lookup 64 (sin 10 0 0 0) none head
  d ← rn_lookup 64 (sin 10 1 2 3) none head
  x ← rn_delete 64 (sin 10 0 0 0) (some (sin 255 255 0 0)) head
  y ← rn_delete 64 (sin 10 1 0 0) (some (sin 255 255 0 0)) head
  again ← rn_delete 64 (sin 10 1 0 0) (some (sin 255 255 0 0)) head
  (_, after) ← rn_walktree collect 64 head []
  e ← reads (λ h. rn_match 64 h (sin 10 1 9 9) head)
  pure (before, a ∷ b ∷ c ∷ d ∷ [], x ∷ y ∷ again ∷ [], after, e)

-- The lists of the walks are reversed: the callback puts each leaf in front of those before it.
session_results :
    and_then (session start) (λ r. some r.0)
    ≡ some (
      1020 ∷ 1010 ∷ 1000 ∷ 1040 ∷ 1030 ∷ [],
      1000 ∷ 1040 ∷ 0 ∷ 1020 ∷ [],
      1040 ∷ 1010 ∷ 0 ∷ [],
      1020 ∷ 1000 ∷ 1030 ∷ [],
      1000,
    )
unfolding session
session_results = refl
