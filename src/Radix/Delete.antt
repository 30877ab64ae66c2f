-- ===== src/Radix/Delete.antt =====
-- `rn_delete` of src/freebsd/radix.c.
use freebsd_radix_userland.Common.{
  ℕ, zero, suc, ◌+◌, ◌-◌, Bool, true, false, ◌||◌, not, Option, none, some, List, drop, ◌==◌,
  if◌then◌else◌, and_then,
}
use freebsd_radix_userland.Common.Int.{pos, negsuc, ltb_ℤ, leb_ℤ, ◌-ℤ◌}
use freebsd_radix_userland.Radix.Memory.{
  Ptr, null, RadixHead, Heap, M, pure, ◌>>=◌, ◌>>◌, load, load_mask, load_bytes, reads, put, modify,
  modify_mask, free_mask,
}
use freebsd_radix_userland.Radix.Masks.{len_byte}
use freebsd_radix_userland.Radix.Search.{rn_search, same_bytes}
use freebsd_radix_userland.Radix.Match.{chain_find}
use freebsd_radix_userland.Radix.AddMask.{rn_addmask}
use freebsd_radix_userland.Radix.AddRoute.{
  flip, replace_son, Slot, of_node, of_mask, read_slot, write_slot, lift,
}

-- The head of the chain with the key, if there is one: the first half of the search.
unfoldable pub delete_head : ℕ → Heap → List ℕ → Ptr → Option (Option Ptr)
unfolding rn_search same_bytes load load_bytes
delete_head k h v top = and_then (load h top) λ root. and_then (rn_search k h v top) λ tt.
    and_then (load h tt) λ leaf. and_then (load_bytes h leaf.rn_key) λ key.
      let off = root.rn_offset in
      and_then (same_bytes (len_byte v - off) (drop off v) (drop off key))
        λ same. some (if same then some tt else none)

-- The leaf of the chain with the mask: `none` if the function returns NULL here.
unfoldable pub delete_target : ℕ → Option (List ℕ) → RadixHead → ℕ → Ptr → M (Option Ptr)
unfolding rn_addmask chain_find load
delete_target k none head head_off saved_tt = pure (some saved_tt)
delete_target k (some netmask) head head_off saved_tt = do
  x ← rn_addmask k netmask head true head_off
  if x == null then pure none else do
    n ← reads (λ h. load h x)
    tt ← reads (λ h. chain_find k h n.rn_key saved_tt)
    pure (if tt == null then none else some tt)

-- `for (mp = &x->rn_mklist; (m = *mp); mp = &m->rm_mklist) if (m == saved_m) …`: whether it is found.
unfoldable pub unlink_mask : ℕ → Ptr → Slot → M Bool
unfolding read_slot write_slot load_mask
unlink_mask zero saved_m mp = λ _. none
unlink_mask (suc k) saved_m mp = do
  m ← reads (read_slot mp)
  if m == null
      then pure false
      else if m == saved_m
      then (do
        mask ← reads (λ h. load_mask h m)
        write_slot mp mask.rm_mklist
        free_mask m
        pure true)
      else unlink_mask k saved_m (of_mask m)

-- "Delete our route from mask lists"; the result says whether to go on to `on1`.
unfoldable pub delete_mask : ℕ → (tt saved_tt top : Ptr) → M Bool
unfolding lift unlink_mask load load_mask modify_mask
delete_mask k tt saved_tt top = do
  n ← reads (λ h. load h tt)
  if (n.rn_mask == null) || (n.rn_mklist == null) then pure true else do
    m ← reads (λ h. load_mask h n.rn_mklist)
    let inconsistent = not (m.rm_leaf == tt) || ltb_ℤ (pos 0) m.rm_refs
    let lifted = do
      saved ← reads (λ h. load h saved_tt)
      t ← reads (λ h. load h saved.rn_parent)
      if ltb_ℤ t.rn_bit (flip n.rn_bit) then pure true else do
        x ← reads (λ h. lift k h (flip n.rn_bit) top saved.rn_parent)
        found ← unlink_mask k n.rn_mklist (of_node x)
        pure (found || not n.rn_flags.normal)
    if n.rn_flags.normal
        then (if inconsistent then pure false else lifted)
        else if not (m.rm_mask == n.rn_mask)
        then pure true
        else do
          modify_mask n.rn_mklist λ m'. record m' { rm_refs = m'.rm_refs -ℤ pos 1 }
          if ltb_ℤ (pos 0) m.rm_refs then pure true else lifted

-- `for (x = p = saved_tt; p && p->rn_dupedkey != tt;) p = p->rn_dupedkey;`
unfoldable pub find_before : ℕ → Heap → (tt p : Ptr) → Option Ptr
unfolding load
find_before zero h tt p = none
find_before (suc k) h tt p =
    if p == null
    then some null
    else and_then (load h p) λ n.
      let rest = find_before k h tt n.rn_dupedkey in if n.rn_dupedkey == tt then some p else rest

abbrev pub when : Bool → M (Unit {0}) → M (Unit {0})
when b m = if b then m else pure tt

-- `*x = *t`, for an inner node that moves to the pair of another leaf; its neighbours follow.
unfoldable pub move_inner : (t x : Ptr) → M (Unit {0})
unfolding load modify
move_inner t x = do
  n ← reads (λ h. load h t)
  put x n
  modify n.rn_parent (replace_son t x)
  modify n.rn_left λ l. record l { rn_parent = x }
  modify n.rn_right λ r. record r { rn_parent = x }

-- The leaf leaves its chain of duplicates. The result is the leaf whose pair takes the inner node.
unfoldable pub unchain : ℕ → (tt saved_tt : Ptr) → M Ptr
unfolding find_before load modify
unchain k tt₀ saved_tt = do
  n ← reads (λ h. load h tt₀)
  if tt₀ == saved_tt
      then (do
        modify n.rn_dupedkey λ x. record x { rn_parent = n.rn_parent }
        modify n.rn_parent (replace_son tt₀ n.rn_dupedkey)
        pure n.rn_dupedkey)
      else (do
        p ← reads (λ h. find_before k h tt₀ saved_tt)
        when (not (p == null)) (do
          modify p λ x. record x { rn_dupedkey = n.rn_dupedkey }
          when (not (n.rn_dupedkey == null)) (modify n.rn_dupedkey λ x. record x { rn_parent = p }))
        pure saved_tt)

-- The end of a list of masks.
unfoldable pub last_slot : ℕ → Slot → Heap → Option Slot
unfolding read_slot
last_slot zero mp h = none
last_slot (suc k) mp h =
    and_then (read_slot mp h)
      λ m. let rest = last_slot k (of_mask m) h in if m == null then some mp else rest

-- "Demote routes attached to us", where the sibling is a chain of leaves.
unfoldable pub demote_chain : ℕ → (m x : Ptr) → M (Unit {0})
unfolding load load_mask modify modify_mask
demote_chain zero m x = λ _. none
demote_chain (suc k) m x = if (m == null) || (x == null) then pure tt else do
  n ← reads (λ h. load h x)
  if not (n.rn_mklist == m) then demote_chain k m n.rn_dupedkey else do
    mask ← reads (λ h. load_mask h m)
    modify x λ x'. record x' { rn_mklist = null }
    modify_mask m λ m'. record m' { rm_refs = m'.rm_refs -ℤ pos 1 }
    when (leb_ℤ mask.rm_refs (pos 0)) (free_mask m)
    demote_chain k mask.rm_mklist n.rn_dupedkey

unfoldable pub demote : ℕ → (t x : Ptr) → M (Unit {0})
unfolding last_slot demote_chain write_slot load
demote k t x = do
  tn ← reads (λ h. load h t)
  xn ← reads (λ h. load h x)
  when (not (tn.rn_mklist == null)) (elim xn.rn_bit [
    | pos _ ↦ do mp ← reads (last_slot k (of_node x)); write_slot mp tn.rn_mklist
    | negsuc _ ↦ demote_chain k tn.rn_mklist x
  ])

-- The leaf is alone under its parent `t`: both go, and its sibling moves up.
unfoldable pub splice : ℕ → (tt t : Ptr) → M (Unit {0})
unfolding demote load modify
splice k tt₀ t = do
  tn ← reads (λ h. load h t)
  let x = if tn.rn_left == tt₀ then tn.rn_right else tn.rn_left
  modify tn.rn_parent
      λ p. if p.rn_right == t then record p { rn_right = x } else record p { rn_left = x }
  modify x λ n. record n { rn_parent = tn.rn_parent }
  demote k t x

-- The inner node of the leaf's own pair moves to the pair of `t`, if it is another.
unfoldable pub unlink : ℕ → (tt saved_tt : Ptr) → M (Unit {0})
unfolding unchain splice move_inner load modify
unlink k tt₀ saved_tt = do
  n ← reads (λ h. load h tt₀)
  saved ← reads (λ h. load h saved_tt)
  if not (saved.rn_dupedkey == null)
      then (do
        x ← unchain k tt₀ saved_tt
        inner ← reads (λ h. load h (tt₀ + 1))
        when inner.rn_flags.active (move_inner (tt₀ + 1) (x + 1)))
      else (do
        splice k tt₀ n.rn_parent
        when (not (n.rn_parent == tt₀ + 1)) (move_inner (tt₀ + 1) n.rn_parent))
  modify tt₀ λ x. record x { rn_flags = record x.rn_flags { active = false } }
  modify (tt₀ + 1) λ x. record x { rn_flags = record x.rn_flags { active = false } }

-- The result is the leaf taken out, or NULL.
unfoldable pub rn_delete : ℕ → List ℕ → Option (List ℕ) → RadixHead → M Ptr
unfolding delete_head delete_target delete_mask unlink load
rn_delete k v netmask head = do
  top ← reads (λ h. load h head.rnh_treetop)
  found ← reads (λ h. delete_head k h v head.rnh_treetop)
  elim found [
    | none ↦ pure null
    | some saved_tt ↦ do
      target ← delete_target k netmask head top.rn_offset saved_tt
      elim target [
        | none ↦ pure null
        | some tt₀ ↦ do
          go_on ← delete_mask k tt₀ saved_tt head.rnh_treetop
          n ← reads (λ h. load h tt₀)
          if not go_on || n.rn_flags.root then pure null else (unlink k tt₀ saved_tt >> pure tt₀)
      ]
  ]
