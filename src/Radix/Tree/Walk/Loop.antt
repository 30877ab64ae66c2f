-- ===== src/Radix/Tree/Walk/Loop.antt =====
-- The loop of `rn_walktree` of src/freebsd/radix.c over linked leaves, with a callback that reads.
use freebsd_radix_userland.Common.{
  ℕ, zero, suc, ◌≤◌, ◌<◌, ◌≡◌, refl, sym, ◌∙◌, ap, Bool, true, false, some, List, [], ◌∷◌, ◌++◌,
  arith, length, length-append, ◌==◌, if◌then◌else◌, Bool-cases, inl, inr,
}
use mathlib.Core.Path.{subst}
use freebsd_radix_userland.Radix.Memory.{Ptr, RadixNode, RadixHead, Heap, pure, load}
use freebsd_radix_userland.Radix.Memory.Laws.{load-ne_zero}
use freebsd_radix_userland.Radix.Walk.{Walker, walk_chain, walk_loop, rn_walktree}
use freebsd_radix_userland.Radix.Tree.{Tree, inner, IsTree}
use freebsd_radix_userland.Radix.Tree.Insert.Holds.{IsDistinct}
use freebsd_radix_userland.Radix.Tree.Walk.{
  leaves, first, last, size, IsWalkable, head_or, head_or-leaves, IsLinked, leaves-IsLinked,
  leftmost-first, IsLinked-init, last-leaves, length-leaves, size-positive, next_leaf-root,
}

-- A leaf with no duplicates, and whether it has the flag RNF_ROOT.
pub record IsLone (h : Heap) (p : Ptr) (marked : Bool) : Type 0 where
  pub n : RadixNode
  pub at : load h p ≡ some n
  pub alone : n.rn_dupedkey ≡ 0
  pub flag : n.rn_flags.root ≡ marked

abbrev pub AllLone : Heap → List Ptr → Type 0
AllLone h [] = Unit {0}
AllLone h (p ∷ ps) = IsLone h p false × AllLone h ps

module _ {W : Type 0} (g : Ptr → W → ℕ × W) where
  -- The callback on each of a list, up to the first error.
  abbrev pub visit : List Ptr → W → ℕ × W
  visit [] w = (0, w)
  visit (p ∷ ps) w = let (error, w') = g p w in if error == 0 then visit ps w' else (error, w')

  -- The callback as a command.
  abbrev pub reading : Walker W
  reading p w = pure (g p w)

  walk_chain-lone :
      (k : ℕ) (h : Heap) (p : Ptr) (w : W)
      → IsLone h p false
      → walk_chain reading (suc (suc k)) p w h ≡ some (g p w, h)
  unfolding walk_chain load
  walk_chain-lone k h p w i =
      let there : (p == 0) ≡ false = ground (arith, load-ne_zero h p i.at) in
      let node : h.node p ≡ some i.n = rw there at i.at in
      elim (Bool-cases ((g p w).0 == 0)) [
        | inl fine ↦
            let e : (g p w).0 ≡ 0 = ground arith in
            rw (there, node, i.flag, fine, i.alone) (ap (λ z. some ((z, (g p w).1), h)) (sym e))
        | inr error ↦ rw (there, node, i.flag, error) refl
      ]

  walk_chain-root :
      (k : ℕ) (h : Heap) (p : Ptr) (w : W)
      → IsLone h p true
      → walk_chain reading (suc (suc k)) p w h ≡ some ((0, w), h)
  unfolding walk_chain load
  walk_chain-root k h p w i =
      let there : (p == 0) ≡ false = ground (arith, load-ne_zero h p i.at) in
      let node : h.node p ≡ some i.n = rw there at i.at in rw (there, node, i.flag, i.alone) refl

  -- From a leaf that is no root the loop visits it and those behind it, up to the root `z`.
  walk_loop-visit :
      (k depth : ℕ) (h : Heap) (x : Ptr) (xs : List Ptr) (z : Ptr) (w : W)
      → IsLinked (suc (suc depth)) h (x ∷ xs) z
      → AllLone h (x ∷ xs)
      → IsLone h z true
      → length xs < k
      → walk_loop reading k (suc (suc depth)) x w h ≡ some (visit (x ∷ xs) w, h)
  unfolding walk_loop
  walk_loop-visit zero depth h x xs z w links lone end le = absurd (omega arith)
  walk_loop-visit (suc k) depth h x [] z w links lone end le = elim (Bool-cases ((g x w).0 == 0)) [
    | inl fine ↦
        let e : (g x w).0 ≡ 0 = ground arith in
        rw (links.0, walk_chain-lone depth h x w lone.0, fine, end.at, end.flag) refl
    | inr error ↦ rw (links.0, walk_chain-lone depth h x w lone.0, error) refl
  ]
  walk_loop-visit (suc k) depth h x (y ∷ ys) z w links lone end le =
      elim (Bool-cases ((g x w).0 == 0)) [
        | inl fine ↦
            let e : (g x w).0 ≡ 0 = ground arith in
            rw (links.0, walk_chain-lone depth h x w lone.0, fine, lone.1.0.at, lone.1.0.flag)
              (walk_loop-visit k depth h y ys z (g x w).1 links.1 lone.1 end (omega arith))
        | inr error ↦ rw (links.0, walk_chain-lone depth h x w lone.0, error) refl
      ]

  -- From the left root the loop visits the leaves between it and the root `z`.
  walk_loop-root :
      (k depth : ℕ) (h : Heap) (a : Ptr) (xs : List Ptr) (z : Ptr) (w : W)
      → IsLinked (suc (suc depth)) h (a ∷ xs) z
      → IsLone h a true
      → AllLone h xs
      → IsLone h z true
      → length xs < k
      → walk_loop reading k (suc (suc depth)) a w h ≡ some (visit xs w, h)
  unfolding walk_loop
  walk_loop-root zero depth h a xs z w links start lone end le = absurd (omega arith)
  walk_loop-root (suc k) depth h a [] z w links start lone end le =
      rw (links.0, walk_chain-root depth h a w start, end.at, end.flag) refl
  walk_loop-root (suc k) depth h a (y ∷ ys) z w links start lone end le =
      rw (links.0, walk_chain-root depth h a w start, lone.0.at, lone.0.flag)
        (walk_loop-visit k depth h y ys z w links.1 lone end (omega arith))

  -- `rn_walktree` with a callback that reads, on a tree without duplicates whose outer leaves are the
  -- two roots and with as much fuel as it has nodes, returns: it gives the callback the leaves between
  -- the roots from left to right, each once, up to the first error, whose code is the result.
  pub rn_walktree-visit :
      (k : ℕ) (h : Heap) (key : Ptr → List ℕ) (head : RadixHead) (up b : ℕ) (l r : Tree) (a z : Ptr)
      (mid : List Ptr) (w : W)
      → IsTree h key up (inner head.rnh_treetop b l r)
      → IsDistinct (inner head.rnh_treetop b l r)
      → IsWalkable h (inner head.rnh_treetop b l r)
      → leaves (inner head.rnh_treetop b l r) ≡ a ∷ (mid ++ z ∷ [])
      → IsLone h a true
      → AllLone h mid
      → IsLone h z true
      → size (inner head.rnh_treetop b l r) ≤ k
      → rn_walktree reading k head w h ≡ some (visit mid w, h)
  unfolding rn_walktree
  rn_walktree-visit zero h key head up b l r a z mid w is d ok ls start lone end le =
      absurd (omega arith)
  rn_walktree-visit (suc zero) h key head up b l r a z mid w is d ok ls start lone end le =
      absurd (omega (arith, size-positive l, size-positive r))
  rn_walktree-visit (suc (suc k)) h key head up b l r a z mid w is d ok ls start lone end le =
      let t = inner head.rnh_treetop b l r in
      let begins : first t ≡ a = sym (head_or-leaves t 0) ∙ ap (λ ps. head_or ps 0) ls in
      let ends : last r ≡ z = last-leaves t (a ∷ mid) z ls in
      let stays =
        next_leaf-root h key (suc k) up head.rnh_treetop b l r end.n is (ap (load h) ends ∙ end.at)
          end.flag in
      let links = leaves-IsLinked h key (suc (suc k)) up t (last r) is ok d le stays in
      let links' =
        IsLinked-init (suc (suc k)) h (a ∷ mid) z (last r)
          (subst (λ ps. IsLinked (suc (suc k)) h ps (last r)) ls links) in
      let few : length mid < suc (suc k) =
        omega (arith, length-leaves t, ap length ls, length-append mid (z ∷ []), le) in
      rw (leftmost-first h key (suc (suc k)) up t is le, begins)
        (walk_loop-root (suc (suc k)) k h a mid z w links' start lone end few)
