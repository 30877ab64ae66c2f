-- ===== src/Radix/Tree/State/Match.antt =====
-- What `rn_match` of src/freebsd/radix.c finds in a well-formed tree of host routes.
use freebsd_radix_userland.Common.{
  ℕ, ◌+◌, ◌-◌, ◌*◌, ◌/◌, ◌≤◌, ◌<◌, ◌≡◌, refl, sym, ◌∙◌, ap, ◌%◌, ◌⊎◌, inl, inr, true, Option, none,
  some, List, arith, length-drop, get_or, get_or-drop, drop, if◌then◌else◌, Bool-cases,
}
use mathlib.Core.Path.{subst}
use freebsd_radix_userland.Common.Int.{negsuc}
use freebsd_radix_userland.Radix.Memory.{Ptr, null, RadixNode, RadixHead, Heap, load, load_bytes}
use freebsd_radix_userland.Radix.Masks.{len_byte}
use freebsd_radix_userland.Radix.Search.{rn_search, mismatch, match_bit}
use freebsd_radix_userland.Radix.Search.FirstBit.{byte_bit, mismatch-Differs}
use freebsd_radix_userland.Radix.Search.Mismatch.{mismatch_total, mismatch-none}
use freebsd_radix_userland.Radix.Match.{Miss, rn_match}
use freebsd_radix_userland.Radix.Tree.{Tree, inner, descend, leaf_mem}
use freebsd_radix_userland.Radix.Tree.Search.{rn_search-descend, descend-leaf_mem, all_at}
use freebsd_radix_userland.Radix.Tree.Insert.Patricia.{leaf_mem-descend}
use freebsd_radix_userland.Radix.Tree.State.{IsKey, IsState}
use freebsd_radix_userland.Radix.Tree.State.Insert.{leaf_at}
use freebsd_radix_userland.Radix.Tree.Host.{
  IsHostTree, match_up-none, match_chain-null, IsHostLeaf-at,
}

-- A key is the key of a leaf from byte `off` on.
abbrev pub HasKey : ℕ → (v key : List ℕ) → Type 0
HasKey off v key = (i : ℕ) → off ≤ i → i < len_byte v → get_or v i 0 ≡ get_or key i 0

-- The leaf is one of the two roots.
abbrev pub IsRoot : Heap → Ptr → Type 0
IsRoot h p = (n : RadixNode) × (load h p ≡ some n) × (n.rn_flags.root ≡ true)

-- What `rn_match` finds in a tree of host routes: the leaf with that key, or NULL if none but a root
-- has it.
abbrev pub IsHostMatch : Heap → (Ptr → List ℕ) → ℕ → Tree → List ℕ → Ptr → Type 0
IsHostMatch h key off t v p =
    ((leaf_mem p t ≡ true) × HasKey off v (key p) × ¬ IsRoot h p)
    ⊎ ((p ≡ null) × ((q : Ptr) → leaf_mem q t ≡ true → HasKey off v (key q) → IsRoot h q))

module _ (k : ℕ) (h : Heap) (key : Ptr → List ℕ) (head : RadixHead) (lo hi : ℕ) (l r : Tree)
    (v : List ℕ) (s : IsState h key head.rnh_treetop lo hi l r)
    (host : IsHostTree h (inner head.rnh_treetop lo l r)) (is_key : IsKey hi v)
    (size : len_byte v * 8 ≡ hi) (fuel : hi < k + lo) where
  abbrev t : Tree
  t = inner head.rnh_treetop lo l r

  abbrev q : Ptr
  q = descend v t

  -- A leaf with the key is the one to which its bits lead.
  only : (p : Ptr) → leaf_mem p t ≡ true → HasKey (lo / 8) v (key p) → q ≡ p
  only p m same =
      descend-leaf_mem key t v lo hi p s.ordered s.patricia m
        λ c lower upper. ap (λ x. byte_bit x (c % 8)) (same (c / 8) (omega arith) (omega arith))

  own : IsKey hi (key q)
  own = all_at (λ p. IsKey hi (key p)) q t s.keys (leaf_mem-descend v t)

  -- What the comparison of bytes finds, and the result that follows from it.
  abbrev differs : Option (Option (ℕ × ℕ))
  differs = mismatch (len_byte v - lo / 8) (lo / 8) (drop (lo / 8) v) (drop (lo / 8) (key q))

  abbrev result : RadixNode → Option (ℕ × ℕ) → Ptr
  result n none = if n.rn_flags.root then null else q
  result n (some (j, z)) = null

  found : rn_search k h v head.rnh_treetop ≡ some q
  found =
      rn_search-descend h key k head.rnh_treetop t v lo hi s.tree s.ordered is_key.1 fuel
        (omega (arith, s.ordered))

  own_leaf :
      (n : RadixNode) × (load h q ≡ some n)
      × (n.rn_mask ≡ null)
      × (n.rn_dupedkey ≡ null)
      × (load_bytes h n.rn_key ≡ some (key q))
  own_leaf =
      let (up', at) = leaf_at h key v head.rnh_treetop t s.tree in
      let own_host = IsHostLeaf-at h v t host in
      let both : some own_host.n ≡ some at.n = sym own_host.at ∙ at.at in
      let same : own_host.n ≡ at.n = cc in
      (at.n, at.at, rw same at own_host.mask, rw same at own_host.dupedkey, at.holds)

  rn_match-eq :
      (d : Option (ℕ × ℕ)) → differs ≡ some d → rn_match k h v head ≡ some (result own_leaf.0 d)
  unfolding rn_match
  rn_match-eq none e =
      let (n, at, mask, dupedkey, holds) = own_leaf in
      rw (s.tree.0.at, found, at, mask, holds, s.tree.0.offset, e, dupedkey) refl
  rn_match-eq (some (j, z)) e =
      let (n, at, mask, dupedkey, holds) = own_leaf in
      let d : Miss = record { matched_off = j; rn_bit = negsuc (match_bit j z) } in
      let climb =
        match_up-none k h v d key head.rnh_treetop head.rnh_treetop lo hi l r s.tree s.ordered host
          fuel in
      let chain = match_chain-null k h v d (omega (arith, s.ordered)) in
      rw (s.tree.0.at, found, at, mask, holds, s.tree.0.offset, e, dupedkey, mask, chain) climb

  -- Without a difference the leaf has the key.
  same-HasKey : differs ≡ some none → HasKey (lo / 8) v (key q)
  same-HasKey e i lower upper =
      let at : lo / 8 + (i - lo / 8) ≡ i = omega arith in
      let same =
        mismatch-none (len_byte v - lo / 8) (lo / 8) (drop (lo / 8) v) (drop (lo / 8) (key q)) e
          (i - lo / 8) (omega arith) in
      rw at at (
        rw (get_or-drop (lo / 8) (i - lo / 8) v 0, get_or-drop (lo / 8) (i - lo / 8) (key q) 0) at
          same)

  differs-not_HasKey : (j z : ℕ) → differs ≡ some (some (j, z)) → ¬ HasKey (lo / 8) v (key q)
  differs-not_HasKey j z e same =
      let f =
        mismatch-Differs (len_byte v - lo / 8) (lo / 8) (drop (lo / 8) v) (drop (lo / 8) (key q))
          e in
      f.ne (
        get_or-drop (lo / 8) f.d v 0
        ∙ same (lo / 8 + f.d) (omega arith) (omega (arith, f.within))
        ∙ sym (get_or-drop (lo / 8) f.d (key q) 0))

  result-IsHostMatch :
      (d : Option (ℕ × ℕ)) → differs ≡ some d → IsHostMatch h key (lo / 8) t v (result own_leaf.0 d)
  result-IsHostMatch none e = elim (Bool-cases own_leaf.0.rn_flags.root) [
    | inl is_root ↦
        subst (λ r. IsHostMatch h key (lo / 8) t v (if r then null else q)) (sym is_root)
          (inr
            (refl, λ p m same. subst (IsRoot h) (only p m same) (own_leaf.0, own_leaf.1, is_root)))
    | inr other ↦
        subst (λ r. IsHostMatch h key (lo / 8) t v (if r then null else q)) (sym other)
          (inl (
            leaf_mem-descend v t,
            same-HasKey e,
            λ (n, at, is_root).
                let both : some n ≡ some own_leaf.0 = sym at ∙ own_leaf.1 in
                let same : n ≡ own_leaf.0 = cc in absurd (cc),
          ))
  ]
  result-IsHostMatch (some (j, z)) e = inr (
    refl,
    λ p m same. absurd (
        differs-not_HasKey j z e
          (subst (λ p. HasKey (lo / 8) v (key p)) (sym (only p m same)) same)),
  )

  -- On a well-formed tree of host routes, whose keys end where the address that is looked up ends,
  -- and with more fuel than bits, `rn_match` returns: the leaf with the same bytes from the head's
  -- offset on, or NULL if no leaf but the roots has them.
  pub rn_match-host : (p : Ptr) × (rn_match k h v head ≡ some p) × IsHostMatch h key (lo / 8) t v p
  rn_match-host =
      let (d, e) =
        mismatch_total (len_byte v - lo / 8) (lo / 8) (drop (lo / 8) v) (drop (lo / 8) (key q))
          (omega (arith, length-drop (lo / 8) v, is_key.1))
          (omega (arith, length-drop (lo / 8) (key q), own.1)) in
      (result own_leaf.0 d, rn_match-eq d e, result-IsHostMatch d e)

  -- A leaf that is no root is found by its key.
  pub rn_match-leaf :
      (p : Ptr)
      → leaf_mem p t ≡ true
      → HasKey (lo / 8) v (key p)
      → ¬ IsRoot h p
      → rn_match k h v head ≡ some p
  rn_match-leaf p m same plain =
      let (r, run, found) = rn_match-host in
      run
      ∙ ap some (elim found [
        | inl (mr, same_r, _) ↦ sym (only r mr same_r) ∙ only p m same
        | inr (_, roots) ↦ absurd (plain (roots p m same))
      ])
