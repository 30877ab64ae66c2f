-- ===== src/Radix/Insert.antt =====
-- `rn_newpair`, `rn_insert` and `rn_inithead_internal` of src/freebsd/radix.c.
use freebsd_radix_userland.Common.{
  ℕ, zero, suc, ◌+◌, ◌-◌, ◌/◌, ◌%◌, ◌^◌, Bool, true, false, Option, none, some, List, drop, ltb,
  if◌then◌else◌, and_then, get_elem?,
}
use freebsd_radix_userland.Common.Int.{ℤ, pos, negsuc}
use freebsd_radix_userland.Radix.Memory.{
  Ptr, null, Flags, RadixHead, Heap, M, pure, ◌>>=◌, ◌>>◌, load, load_bytes, reads, put, modify,
  rn_zeros, rn_ones,
}
use freebsd_radix_userland.Radix.Masks.{len_byte, bit_test}
use freebsd_radix_userland.Radix.Search.{child, rn_search, mismatch, insert_bit}

abbrev pub active_only : Flags
active_only = record { normal = false; root = false; active = true }

abbrev pub root_active : Flags
root_active = record { normal = false; root = true; active = true }

-- The pair stands at `nodes` (the leaf) and `nodes + 1` (its parent).
unfoldable pub rn_newpair : Ptr → ℕ → Ptr → M Ptr
unfolding modify
rn_newpair v b nodes = do
  modify (nodes + 1) λ t. record t {
    rn_bit = pos b;
    rn_bmask = 128 / 2 ^ (b % 8);
    rn_left = nodes;
    rn_offset = b / 8;
    rn_flags = active_only;
    rn_mklist = null;
  }
  modify nodes λ tt. record tt {
    rn_bit = negsuc 0;
    rn_key = v;
    rn_parent = nodes + 1;
    rn_flags = active_only;
    rn_mklist = null;
  }
  pure (nodes + 1)

-- `b > (unsigned) x->rn_bit`: a negative index is a large unsigned number.
unfoldable pub above : ℕ → ℤ → Bool
above b (pos c) = ltb c b
above b (negsuc c) = false

-- `do { p = x; … } while (b > (unsigned) x->rn_bit);` gives `p` and `x`.
unfoldable pub insert_descend : ℕ → Heap → List ℕ → ℕ → Ptr → Option (Ptr × Ptr)
unfolding child above load
insert_descend zero h v b x = none
insert_descend (suc k) h v b x = and_then (load h x) λ n. and_then (child v n) λ c.
    and_then (load h c)
      λ cn. let rest = insert_descend k h v b c in if above b cn.rn_bit then rest else some (x, c)

-- The first bit at which the key differs from the leaf that the search for it ends at.
unfoldable pub insert_place : ℕ → Heap → List ℕ → Ptr → Option (Ptr × Option ℕ)
unfolding rn_search mismatch insert_bit load load_bytes
insert_place k h v top = and_then (load h top) λ root. and_then (rn_search k h v top) λ t.
    and_then (load h t) λ leaf. and_then (load_bytes h leaf.rn_key) λ key.
      let off = root.rn_offset in
      and_then (mismatch (len_byte v - off) off (drop off v) (drop off key))
        λ differs. some (t, elim differs [ none ↦ none | some (i, x) ↦ some (insert_bit i x) ])

-- The key's bit at the place that an inner node tests.
unfoldable pub goes_right : List ℕ → Ptr → Heap → Option Bool
unfolding load
goes_right v p h =
    and_then (load h p) λ n. and_then (get_elem? v n.rn_offset) λ c. some (bit_test n.rn_bmask c)

-- The second half of `rn_insert`: the new pair goes between `p` and `x`.
unfoldable pub insert_link : List ℕ → Ptr → ℕ → (p x nodes : Ptr) → M Ptr
unfolding rn_newpair goes_right modify
insert_link v v_arg b p x nodes = do
  t ← rn_newpair v_arg b nodes
  p_right ← reads (goes_right v p)
  modify p λ n. if p_right then record n { rn_right = t } else record n { rn_left = t }
  modify x λ n. record n { rn_parent = t }
  modify t λ n. record n { rn_parent = p }
  t_right ← reads (goes_right v t)
  modify t
      λ n. if t_right then record n { rn_right = nodes; rn_left = x } else record n { rn_right = x }
  pure nodes

-- The result is the leaf and `*dupentry`.
unfoldable pub rn_insert : ℕ → Ptr → RadixHead → Ptr → M (Ptr × Bool)
unfolding insert_place insert_descend insert_link load_bytes
rn_insert k v_arg head nodes = do
  v ← reads (λ h. load_bytes h v_arg)
  let top = head.rnh_treetop
  (t, differs) ← reads (λ h. insert_place k h v top)
  elim differs [
    | none ↦ pure (t, true)
    | some b ↦ do
      (p, x) ← reads (λ h. insert_descend k h v b top)
      tt ← insert_link v v_arg b p x nodes
      pure (tt, false)
  ]

-- The three nodes stand at `base`, `base + 1` (the root) and `base + 2`. The result is the top.
unfoldable pub rn_inithead_internal : Ptr → ℕ → M Ptr
unfolding rn_newpair modify load
rn_inithead_internal base off = do
  t ← rn_newpair rn_zeros off base
  modify t λ n. record n { rn_right = base + 2; rn_parent = t; rn_flags = root_active }
  modify base λ n. record n { rn_flags = root_active; rn_bit = negsuc off }
  tt ← reads (λ h. load h base)
  put (base + 2) (record tt { rn_key = rn_ones })
  pure t
