-- ===== src/Radix/Walk.antt =====
-- `rn_walktree`, `rn_walktree_from`, `rn_inithead`, `rn_freeentry` and `rn_detachhead` of
-- src/freebsd/radix.c. The callback is a parameter: it may change the heap, as one that deletes the leaf
-- it is given does, and it threads a state of its own, what its argument `w` points to.
use freebsd_radix_userland.Common.{
  ℕ, zero, suc, ◌+◌, ◌-◌, Bool, true, false, ◌||◌, ◌&&◌, not, Option, none, some, List, ◌==◌,
  if◌then◌else◌, and_then, get_elem?,
}
use freebsd_radix_userland.Common.Int.{ℤ, pos, negsuc, leb_ℤ}
use freebsd_radix_userland.Radix.Memory.{
  Ptr, null, RadixHead, Heap, M, pure, ◌>>=◌, ◌>>◌, load, load_bytes, reads, put, malloc, free_pair,
  free_head,
}
use freebsd_radix_userland.Radix.Masks.{bit_test}
use freebsd_radix_userland.Radix.Insert.{rn_inithead_internal}
use freebsd_radix_userland.Radix.AddMask.{zero_node}
use freebsd_radix_userland.Radix.Delete.{rn_delete}

-- The result is the error code, 0 to go on.
abbrev pub Walker : Type 0 → Type 0
Walker W = Ptr → W → M (ℕ × W)

-- `while (rn->rn_bit >= 0) rn = rn->rn_left;`
unfoldable pub leftmost : ℕ → Heap → Ptr → Option Ptr
unfolding load
leftmost zero h rn = none
leftmost (suc k) h rn =
    and_then (load h rn) λ n. elim n.rn_bit [ negsuc _ ↦ some rn | pos _ ↦ leftmost k h n.rn_left ]

-- `while (rn->rn_parent->rn_right == rn && (rn->rn_flags & RNF_ROOT) == 0) rn = rn->rn_parent;`
unfoldable pub climb : ℕ → Heap → Ptr → Option Ptr
unfolding load
climb zero h rn = none
climb (suc k) h rn = and_then (load h rn) λ n. and_then (load h n.rn_parent) λ p.
    let rest = climb k h n.rn_parent in
    if (p.rn_right == rn) && not n.rn_flags.root then rest else some rn

-- The leaf behind `rn`'s, from left to right.
unfoldable pub next_leaf : ℕ → Heap → Ptr → Option Ptr
unfolding leftmost climb load
next_leaf k h rn =
    and_then (climb k h rn)
      λ up. and_then (load h up) λ n. and_then (load h n.rn_parent) λ p. leftmost k h p.rn_right

module _ {W : Type 0} (f : Walker W) where
  -- `while ((rn = base) != NULL)`: the callback on a leaf and its duplicates.
  unfoldable pub walk_chain : ℕ → Ptr → W → M (ℕ × W)
  unfolding load
  walk_chain zero rn w = λ _. none
  walk_chain (suc k) rn w = if rn == null then pure (0, w) else do
    n ← reads (λ h. load h rn)
    (error, w') ← if n.rn_flags.root then pure (0, w) else f rn w
    if error == 0 then walk_chain k n.rn_dupedkey w' else pure (error, w')

  -- `for (;;)`
  unfoldable pub walk_loop : ℕ → ℕ → Ptr → W → M (ℕ × W)
  unfolding next_leaf walk_chain load
  walk_loop zero depth rn w = λ _. none
  walk_loop (suc k) depth rn w = do
    next ← reads (λ h. next_leaf depth h rn)
    (error, w') ← walk_chain depth rn w
    if not (error == 0) then pure (error, w') else do
      n ← reads (λ h. load h next)
      if n.rn_flags.root then pure (0, w') else walk_loop k depth next w'

  unfoldable pub rn_walktree : ℕ → RadixHead → W → M (ℕ × W)
  unfolding walk_loop
  rn_walktree k head w = do rn ← reads (λ h. leftmost k h head.rnh_treetop); walk_loop k k rn w

-- The descent of `rn_walktree_from`: the node at which it stops, and the index `lastb`.
unfoldable pub walk_start : ℕ → Heap → (xa xm : List ℕ) → (rn last : Ptr) → Option (Ptr × Ptr)
unfolding load
walk_start zero h xa xm rn last = none
walk_start (suc k) h xa xm rn last = and_then (load h rn) λ n. elim n.rn_bit [
  | negsuc _ ↦ some (rn, last)
  | pos _ ↦ and_then (get_elem? xm n.rn_offset) λ m. elim (bit_test n.rn_bmask m) [
    | false ↦ some (rn, rn)
    | true ↦
        and_then (get_elem? xa n.rn_offset)
          λ a. walk_start k h xa xm (if bit_test n.rn_bmask a then n.rn_right else n.rn_left) rn
  ]
]

-- The climb of `rn_walktree_from`, which notes whether it went up beyond `lastb`.
unfoldable pub climb_from : ℕ → Heap → ℤ → Ptr → Bool → Option (Ptr × Bool)
unfolding load
climb_from zero h lastb rn stopping = none
climb_from (suc k) h lastb rn stopping = and_then (load h rn) λ n.
    and_then (load h n.rn_parent) λ p.
      let rest = climb_from k h lastb n.rn_parent (stopping || leb_ℤ p.rn_bit lastb) in
      if (p.rn_right == rn) && not n.rn_flags.root then rest else some (rn, stopping)

-- The next leaf, and whether the walk is to stop behind this one.
unfoldable pub next_from : ℕ → Heap → ℤ → Ptr → Option (Ptr × Bool)
unfolding leftmost climb_from load
next_from k h lastb rn = and_then (climb_from k h lastb rn false) λ r. and_then (load h r.0) λ n.
    and_then (load h n.rn_parent)
      λ p. and_then (leftmost k h p.rn_right) λ next. some (next, r.1 || p.rn_flags.root)

module _ {W : Type 0} (f : Walker W) where
  unfoldable pub walk_from_loop : ℕ → ℕ → ℤ → Ptr → W → M (ℕ × W)
  unfolding next_from walk_chain load
  walk_from_loop zero depth lastb rn w = λ _. none
  walk_from_loop (suc k) depth lastb rn w = do
    (next, stopping) ← reads (λ h. next_from depth h lastb rn)
    (error, w') ← walk_chain f depth rn w
    if not (error == 0) then pure (error, w') else do
      n ← reads (λ h. load h next)
      if stopping || n.rn_flags.root then pure (0, w') else walk_from_loop k depth lastb next w'

  unfoldable pub rn_walktree_from : ℕ → RadixHead → (a m : List ℕ) → W → M (ℕ × W)
  unfolding walk_from_loop walk_start leftmost load
  rn_walktree_from k head a m w = do
    (rn, last) ← reads (λ h. walk_start k h a m head.rnh_treetop null)
    lastn ← reads (λ h. load h last)
    start ← reads (λ h. leftmost k h rn)
    walk_from_loop k k lastn.rn_bit start w

-- The arguments are `*head` and `off`; the result comes with `*head` behind the call. The heads' nodes
-- stand at the blocks that the allocator returns; a block that is freed again had no nodes put there.
unfoldable pub rn_inithead : Option RadixHead → ℕ → M (ℕ × Option RadixHead)
unfolding rn_inithead_internal malloc
rn_inithead (some head) off = pure (1, some head)
rn_inithead none off = do
  rnh ← malloc
  rmh ← malloc
  if (rnh == null) || (rmh == null) then pure (0, none) else do
    put rnh zero_node
    put (rnh + 1) zero_node
    put (rnh + 2) zero_node
    put rmh zero_node
    put (rmh + 1) zero_node
    put (rmh + 2) zero_node
    top ← rn_inithead_internal rnh off
    mask_top ← rn_inithead_internal rmh 0
    pure (1, some (record { rnh_treetop = top; mask_nodes = rmh; mask_treetop = mask_top }))

-- The key of a mask's leaf stands behind its two nodes, at `rn + 2`.
unfoldable pub rn_freeentry : ℕ → RadixHead → Walker (Unit {0})
unfolding rn_delete load_bytes
rn_freeentry k masks rn w = do
  key ← reads (λ h. load_bytes h (rn + 2))
  x ← rn_delete k key none masks
  if x == null then pure (0, tt) else (free_pair x >> pure (0, tt))

-- The masks' leaves are freed, then the two heads with their three nodes, whose root is the second.
unfoldable pub rn_detachhead : ℕ → RadixHead → M (Unit {0})
unfolding rn_walktree rn_freeentry
rn_detachhead k head = do
  let masks : RadixHead = record head { rnh_treetop = head.mask_treetop }
  rn_walktree (rn_freeentry k masks) k masks tt
  free_head head.mask_nodes
  free_head (head.rnh_treetop - 1)
