-- ===== src/Radix/Tree/Insert/Link.antt =====
-- The heap behind `insert_link`.
use freebsd_radix_userland.Common.{
  ℕ, ◌+◌, ◌/◌, ◌%◌, ◌^◌, ◌<◌, ◌≡◌, refl, sym, ◌∙◌, ◌≢◌, Bool, some, List, arith, length,
  get_elem?-eq_some, if◌then◌else◌,
}
use freebsd_radix_userland.Common.Int.{pos, negsuc}
use freebsd_radix_userland.Radix.Memory.{Ptr, null, RadixNode, Heap, load, load_bytes}
use freebsd_radix_userland.Radix.Memory.Laws.{
  set_node, load-set_node_self, load-set_node_ne, load-ne_zero, modify-set_node,
}
use freebsd_radix_userland.Radix.Search.FirstBit.{key_bit}
use freebsd_radix_userland.Radix.Insert.{active_only, rn_newpair, goes_right, insert_link}

-- The nodes that `insert_link` writes, from those that it finds.
abbrev pub new_leaf : RadixNode → Ptr → Ptr → RadixNode
new_leaf l v_arg new = record l {
  rn_bit = negsuc 0;
  rn_key = v_arg;
  rn_parent = new + 1;
  rn_flags = active_only;
  rn_mklist = null;
}

abbrev pub new_inner : RadixNode → ℕ → Ptr → RadixNode
new_inner t b new = record t {
  rn_bit = pos b;
  rn_bmask = 128 / 2 ^ (b % 8);
  rn_left = new;
  rn_offset = b / 8;
  rn_flags = active_only;
  rn_mklist = null;
}

abbrev pub with_son : Bool → Ptr → RadixNode → RadixNode
with_son right t n = if right then record n { rn_right = t } else record n { rn_left = t }

abbrev pub with_parent : Ptr → RadixNode → RadixNode
with_parent p n = record n { rn_parent = p }

abbrev pub with_sons : Bool → Ptr → Ptr → RadixNode → RadixNode
with_sons right new x n =
    if right then record n { rn_right = new; rn_left = x } else record n { rn_right = x }

-- What is known of the heap in which the pair at `new` goes between `p` and its son `x`.
pub record Ready (h : Heap) (v : List ℕ) (b p x new : ℕ) (right : Bool) : Type 0 where
  pub l : RadixNode
  pub t : RadixNode
  pub pn : RadixNode
  pub xn : RadixNode
  pub at_l : load h new ≡ some l
  pub at_t : load h (new + 1) ≡ some t
  pub at_p : load h p ≡ some pn
  pub at_x : load h x ≡ some xn
  pub side : goes_right v p h ≡ some right
  pub apart : (p ≢ x) × (p ≢ new) × (p ≢ new + 1) × (x ≢ new) × (x ≢ new + 1)
  pub fits : b / 8 < length v

-- The heap behind `insert_link`: four nodes are written, and nothing else.
pub record Linked (h : Heap) (v : List ℕ) (v_arg b p x new : ℕ) {right : Bool}
    (r : Ready h v b p x new right) (g : Heap) : Type 0 where
  pub at_l : load g new ≡ some (new_leaf r.l v_arg new)
  pub at_t :
      load g (new + 1) ≡ some (with_sons (key_bit v b) new x (with_parent p (new_inner r.t b new)))
  pub at_p : load g p ≡ some (with_son right (new + 1) r.pn)
  pub at_x : load g x ≡ some (with_parent (new + 1) r.xn)
  pub same : (a : Ptr) → a ≢ new → a ≢ new + 1 → a ≢ p → a ≢ x → load g a ≡ load h a
  pub bytes : (a : Ptr) → load_bytes g a ≡ load_bytes h a

pub rn_newpair-eq :
    (h : Heap) (v_arg b new : ℕ) {l t : RadixNode}
    → load h new ≡ some l
    → load h (new + 1) ≡ some t
    → rn_newpair v_arg b new h
      ≡ some
          (new + 1, set_node (set_node h (new + 1) (new_inner t b new)) new (new_leaf l v_arg new))
unfolding rn_newpair
rn_newpair-eq h v_arg b new {l} {t} el et =
    let ne : new ≢ new + 1 = omega arith in
    let h₁ = set_node h (new + 1) (new_inner t b new) in
    let el' : load h₁ new ≡ some l =
      rw (load-set_node_ne h (new + 1) new (new_inner t b new) ne) el in
    rw (modify-set_node h (new + 1) _ et, modify-set_node h₁ new _ el') refl

module _ (h : Heap) (v : List ℕ) (v_arg b p x new : ℕ) where
  module _ {right : Bool} (r : Ready h v b p x new right) where
    t₁ : RadixNode
    t₁ = new_inner r.t b new

    h₁ : Heap
    unfolding t₁
    h₁ = set_node (set_node h (new + 1) t₁) new (new_leaf r.l v_arg new)

    h₂ : Heap
    h₂ = set_node h₁ p (with_son right (new + 1) r.pn)

    h₃ : Heap
    h₃ = set_node h₂ x (with_parent (new + 1) r.xn)

    h₄ : Heap
    h₄ = set_node h₃ (new + 1) (with_parent p t₁)

    pub linked_heap : Heap
    linked_heap = set_node h₄ (new + 1) (with_sons (key_bit v b) new x (with_parent p t₁))

    h₁-same : (a : Ptr) → a ≢ new → a ≢ new + 1 → load h₁ a ≡ load h a
    unfolding h₁ t₁
    h₁-same a n m = rw (load-set_node_ne _ new a _ n, load-set_node_ne h (new + 1) a _ m) refl

    t₃ : load h₃ (new + 1) ≡ some t₁
    unfolding h₃ h₂ h₁ t₁
    t₃ =
        let ne : new + 1 ≢ new = omega arith in
        let nx : new + 1 ≢ x = λ e. r.apart.4 (sym e) in
        let np : new + 1 ≢ p = λ e. r.apart.2 (sym e) in
        let nz : new + 1 ≢ 0 = omega arith in
        rw
          (
            load-set_node_ne _ x (new + 1) _ nx,
            load-set_node_ne _ p (new + 1) _ np,
            load-set_node_ne _ new (new + 1) _ ne,
            load-set_node_self h (new + 1) t₁ nz,
          )
          refl

    side₁ : goes_right v p h₁ ≡ some right
    unfolding goes_right
    side₁ = rw (h₁-same p r.apart.1 r.apart.2) r.side

    side₄ : goes_right v (new + 1) h₄ ≡ some (key_bit v b)
    unfolding goes_right h₄ t₁
    side₄ =
        let nz : new + 1 ≢ 0 = omega arith in
        rw (load-set_node_self h₃ (new + 1) _ nz, get_elem?-eq_some v (b / 8) 0 r.fits) refl

    -- `insert_link` succeeds, with that heap.
    pub insert_link-linked : insert_link v v_arg b p x new h ≡ some (new, linked_heap)
    unfolding insert_link linked_heap h₄ h₃ h₂ h₁ t₁
    insert_link-linked =
        let nz : new + 1 ≢ 0 = omega arith in
        let e₁ : load h₁ p ≡ some r.pn = h₁-same p r.apart.1 r.apart.2 ∙ r.at_p in
        let e₂ : load h₂ x ≡ some r.xn =
          load-set_node_ne h₁ p x _ (λ e. r.apart.0 (sym e))
          ∙ h₁-same x r.apart.3 r.apart.4
          ∙ r.at_x in
        let e₄ : load h₄ (new + 1) ≡ some (with_parent p t₁) =
          load-set_node_self h₃ (new + 1) _ nz in
        rw (rn_newpair-eq h v_arg b new r.at_l r.at_t) (
          rw side₁ (
            rw (modify-set_node h₁ p _ e₁) (
              rw (modify-set_node h₂ x _ e₂) (
                rw (modify-set_node h₃ (new + 1) _ t₃)
                  (rw side₄ (rw (modify-set_node h₄ (new + 1) _ e₄) refl))))))

    pub linked_heap-Linked : Linked h v v_arg b p x new r linked_heap
    unfolding linked_heap h₄ h₃ h₂ h₁ t₁ load_bytes
    linked_heap-Linked =
        let nz : new + 1 ≢ 0 = omega arith in
        let nn : new ≢ new + 1 = omega arith in
        let (px, pn, pm, xn, xm) = r.apart in
        record {
          at_l =
              rw
                (
                  load-set_node_ne h₄ (new + 1) new _ nn,
                  load-set_node_ne h₃ (new + 1) new _ nn,
                  load-set_node_ne h₂ x new _ (λ e. xn (sym e)),
                  load-set_node_ne h₁ p new _ (λ e. pn (sym e)),
                )
                (load-set_node_self _ new _ (load-ne_zero h new r.at_l));
          at_t = load-set_node_self h₄ (new + 1) _ nz;
          at_p =
              rw
                (
                  load-set_node_ne h₄ (new + 1) p _ pm,
                  load-set_node_ne h₃ (new + 1) p _ pm,
                  load-set_node_ne h₂ x p _ px,
                )
                (load-set_node_self h₁ p _ (load-ne_zero h p r.at_p));
          at_x =
              rw (load-set_node_ne h₄ (new + 1) x _ xm, load-set_node_ne h₃ (new + 1) x _ xm)
                (load-set_node_self h₂ x _ (load-ne_zero h x r.at_x));
          same = λ a an am ap' ax.
              rw
                (
                  load-set_node_ne h₄ (new + 1) a _ am,
                  load-set_node_ne h₃ (new + 1) a _ am,
                  load-set_node_ne h₂ x a _ ax,
                  load-set_node_ne h₁ p a _ ap',
                )
                (h₁-same a an am);
          bytes = λ a. refl;
        }
