-- ===== src/Radix/AddRoute.antt =====
-- `rn_addroute` of src/freebsd/radix.c.
use freebsd_radix_userland.Common.{
  ℕ, zero, suc, Bool, true, false, ◌||◌, ◌&&◌, not, Option, none, some, List, ◌==◌, if◌then◌else◌,
  and_then,
}
use freebsd_radix_userland.Common.Int.{ℤ, pos, negsuc, ltb_ℤ, leb_ℤ, ◌+ℤ◌}
use freebsd_radix_userland.Radix.Memory.{
  Ptr, null, RadixNode, RadixHead, Heap, M, pure, ◌>>=◌, ◌>>◌, load, load_mask, load_bytes, reads,
  modify, modify_mask,
}
use freebsd_radix_userland.Radix.Masks.{rn_refines, rn_lexobetter}
use freebsd_radix_userland.Radix.Insert.{active_only, rn_insert}
use freebsd_radix_userland.Radix.AddMask.{rn_addmask, rn_new_radix_mask}

-- `-1 - b`
abbrev pub flip : ℤ → ℤ
flip (pos n) = negsuc n
flip (negsuc n) = pos n

-- The node that `rn_addmask` returned, `x`, with its index and the pointer to its mask.
pub record Netmask : Type 0 where
  pub x : Ptr
  pub b_leaf : ℤ
  pub b : ℤ
  pub netmask : Ptr
  pub normal : Bool

abbrev pub no_netmask : Netmask
no_netmask = record { x = null; b_leaf = pos 0; b = pos 0; netmask = null; normal = false }

-- `none` is the case where `rn_addmask` returns NULL.
unfoldable pub intern_mask : ℕ → Option (List ℕ) → RadixHead → M (Option Netmask)
unfolding rn_addmask load
intern_mask k none head = pure (some no_netmask)
intern_mask k (some n_arg) head = do
  top ← reads (λ h. load h head.rnh_treetop)
  x ← rn_addmask k n_arg head false top.rn_offset
  if x == null then pure none else do
    n ← reads (λ h. load h x)
    pure (
        some (record {
          x = x;
          b_leaf = n.rn_bit;
          b = flip n.rn_bit;
          netmask = n.rn_key;
          normal = n.rn_flags.normal;
        }))

-- `rn_refines(netmask, mask) || rn_lexobetter(netmask, mask)`
unfoldable pub goes_before : Heap → (netmask mask : Ptr) → Option Bool
unfolding rn_refines rn_lexobetter load_bytes
goes_before h netmask mask = and_then (load_bytes h netmask) λ a.
    and_then (load_bytes h mask)
      λ b. and_then (rn_refines a b) λ refines. if refines then some true else rn_lexobetter a b

-- The place of a new leaf in a chain of duplicates: `none` if the route is there already,
-- otherwise the values of `t` and `tt` behind the loop.
unfoldable pub dup_scan : ℕ → Heap → Netmask → (t tt : Ptr) → Option (Option (Ptr × Ptr))
unfolding goes_before load
dup_scan zero h new t tt = none
dup_scan (suc k) h new t tt =
    if tt == null
    then some (some (t, tt))
    else and_then (load h tt) λ n.
      let rest = dup_scan k h new tt n.rn_dupedkey in
      let stop =
        if new.netmask == null
        then some true
        else if n.rn_mask == null
        then some false
        else if ltb_ℤ new.b_leaf n.rn_bit
        then some true
        else goes_before h new.netmask n.rn_mask in
      if n.rn_mask == new.netmask
      then some none
      else and_then stop λ found. if found then some (some (t, tt)) else rest

-- `if (x->rn_left == t) x->rn_left = tt; else x->rn_right = tt;`
abbrev pub replace_son : Ptr → Ptr → RadixNode → RadixNode
replace_son t tt x =
    if x.rn_left == t then record x { rn_left = tt } else record x { rn_right = tt }

-- The leaf `nodes` becomes the head of the chain that `t` was the head of.
unfoldable pub link_head : (t nodes : Ptr) → M (Unit {0})
unfolding load modify
link_head t nodes = do
  n ← reads (λ h. load h t)
  modify nodes λ tt. record tt { rn_dupedkey = t; rn_flags = n.rn_flags; rn_parent = n.rn_parent }
  modify t λ n'. record n' { rn_parent = nodes }
  modify n.rn_parent (replace_son t nodes)

-- The leaf `nodes` goes behind `t` in its chain.
unfoldable pub link_behind : (t nodes : Ptr) → M (Unit {0})
unfolding load modify
link_behind t nodes = do
  n ← reads (λ h. load h t)
  modify nodes λ tt. record tt { rn_dupedkey = n.rn_dupedkey }
  modify t λ n'. record n' { rn_dupedkey = nodes }
  modify nodes λ tt. record tt { rn_parent = t }
  if n.rn_dupedkey == null
      then pure tt
      else modify n.rn_dupedkey λ d. record d { rn_parent = nodes }

-- A chain of links to masks: a field of a node or of a mask, as `mp` points to it.
pub data Slot : Type 0 where
  of_node : Ptr → Slot
  of_mask : Ptr → Slot

unfoldable pub read_slot : Slot → Heap → Option Ptr
unfolding load load_mask
read_slot (of_node p) h = and_then (load h p) λ n. some n.rn_mklist
read_slot (of_mask p) h = and_then (load_mask h p) λ m. some m.rm_mklist

unfoldable pub write_slot : Slot → Ptr → M (Unit {0})
unfolding modify modify_mask
write_slot (of_node p) m = modify p λ n. record n { rn_mklist = m }
write_slot (of_mask p) m = modify_mask p λ n. record n { rm_mklist = m }

-- "Promote general routes from below", where the sibling `x` is a leaf.
unfoldable pub promote_chain : ℕ → ℤ → Slot → Ptr → M (Unit {0})
unfolding rn_new_radix_mask write_slot load
promote_chain zero b_leaf mp x = λ _. none
promote_chain (suc k) b_leaf mp x = if x == null then pure tt else do
  n ← reads (λ h. load h x)
  if not (n.rn_mask == null) && leb_ℤ b_leaf n.rn_bit && (n.rn_mklist == null)
      then (do
        m ← rn_new_radix_mask x null
        write_slot mp m
        promote_chain k b_leaf (if m == null then mp else of_mask m) n.rn_dupedkey)
      else promote_chain k b_leaf mp n.rn_dupedkey

-- Where it is an inner node: the link behind the masks whose index is beyond the new node's.
unfoldable pub split_point : ℕ → ℤ → Slot → Heap → Option (Slot × Ptr)
unfolding read_slot load_mask
split_point zero b_leaf mp h = none
split_point (suc k) b_leaf mp h = and_then (read_slot mp h) λ m.
    if m == null
    then some (mp, m)
    else and_then (load_mask h m) λ mask.
      let rest = split_point k b_leaf (of_mask m) h in
      if leb_ℤ b_leaf mask.rm_bit then some (mp, m) else rest

unfoldable pub promote : ℕ → (t saved_tt : Ptr) → M (Unit {0})
unfolding promote_chain split_point write_slot modify load
promote k t saved_tt = do
  tn ← reads (λ h. load h t)
  let x = if tn.rn_right == saved_tt then tn.rn_left else tn.rn_right
  xn ← reads (λ h. load h x)
  elim xn.rn_bit [
    | negsuc _ ↦ promote_chain k (flip tn.rn_bit) (of_node t) x
    | pos _ ↦ if xn.rn_mklist == null then pure tt else do
      (mp, m) ← reads (split_point k (flip tn.rn_bit) (of_node x))
      modify t λ n. record n { rn_mklist = m }
      write_slot mp null
  ]

-- `do { x = t; t = t->rn_parent; } while (b <= t->rn_bit && x != top);` gives `x`.
unfoldable pub lift : ℕ → Heap → ℤ → (top t : Ptr) → Option Ptr
unfolding load
lift zero h b top t = none
lift (suc k) h b top t = and_then (load h t) λ n. and_then (load h n.rn_parent) λ up.
    let rest = lift k h b top n.rn_parent in
    if leb_ℤ b up.rn_bit && not (t == top) then rest else some t

-- How the search of a mask list for the place of a new mask ends.
pub data Place : Type 0 where
  refused : Place
  shared : Ptr → Place
  here : Slot → Place

unfoldable pub mask_place : ℕ → Netmask → Slot → Heap → Option Place
unfolding goes_before read_slot load load_mask
mask_place zero new mp h = none
mask_place (suc k) new mp h = and_then (read_slot mp h) λ m.
    if m == null
    then some (here mp)
    else and_then (load_mask h m) λ mask.
      let rest = mask_place k new (of_mask m) h in
      let mmask =
        if mask.rm_flags.normal
        then and_then (load h mask.rm_leaf) (λ l. some l.rn_mask)
        else some mask.rm_mask in
      let compare_masks = and_then mmask λ old.
        if old == new.netmask
        then some (shared m)
        else and_then (goes_before h new.netmask old)
            λ stop. if stop then some (here mp) else rest in
      if ltb_ℤ mask.rm_bit new.b_leaf
      then rest
      else if ltb_ℤ new.b_leaf mask.rm_bit
      then some (here mp)
      else if mask.rm_flags.normal && new.normal
      then some refused
      else compare_masks

-- "Add new route to highest possible ancestor's list"
unfoldable pub annotate : ℕ → Netmask → (tt t top : Ptr) → M Ptr
unfolding lift mask_place rn_new_radix_mask read_slot write_slot modify modify_mask load
annotate k new tt t top = do
  tn ← reads (λ h. load h t)
  if (new.netmask == null) || ltb_ℤ tn.rn_bit new.b then pure tt else do
    x ← reads (λ h. lift k h new.b top t)
    place ← reads (mask_place k new (of_node x))
    elim place [
      | refused ↦ pure tt
      | shared m ↦ do
        modify_mask m λ n. record n { rm_refs = n.rm_refs +ℤ pos 1 }
        modify tt λ n. record n { rn_mklist = m }
        pure tt
      | here mp ↦ do
        next ← reads (read_slot mp)
        m ← rn_new_radix_mask tt next
        write_slot mp m
        pure tt
    ]

-- "Put mask in tree", the promotion of masks from below, and the new mask's own place.
unfoldable pub finish_route : ℕ → Netmask → (keyduplicated : Bool) → (tt saved_tt top : Ptr) → M Ptr
unfolding promote annotate modify load
finish_route k new keyduplicated tt₀ saved_tt top = do
  if new.netmask == null
      then pure tt
      else modify tt₀ λ n. record n {
        rn_mask = new.netmask;
        rn_bit = new.b_leaf;
        rn_flags = record n.rn_flags { normal = n.rn_flags.normal || new.normal };
      }
  saved ← reads (λ h. load h saved_tt)
  if keyduplicated then pure tt else promote k saved.rn_parent saved_tt
  annotate k new tt₀ saved.rn_parent top

-- The result is the route's leaf, or NULL.
unfoldable pub rn_addroute : ℕ → Ptr → Option (List ℕ) → RadixHead → Ptr → M Ptr
unfolding intern_mask rn_insert dup_scan link_head link_behind finish_route modify
rn_addroute k v n_arg head treenodes = do
  mask ← intern_mask k n_arg head
  elim mask [
    | none ↦ pure null
    | some new ↦ do
      (saved_tt, keyduplicated) ← rn_insert k v head treenodes
      if not keyduplicated then finish_route k new false saved_tt saved_tt head.rnh_treetop else (do
        found ← reads (λ h. dup_scan k h new saved_tt saved_tt)
        elim found [
          | none ↦ pure null
          | some (t, tt₀) ↦ do
            if tt₀ == saved_tt then link_head t treenodes else link_behind t treenodes
            modify treenodes λ n. record n { rn_key = v; rn_bit = negsuc 0; rn_flags = active_only }
            finish_route k new true treenodes (if tt₀ == saved_tt then treenodes else saved_tt)
                head.rnh_treetop
        ])
  ]
