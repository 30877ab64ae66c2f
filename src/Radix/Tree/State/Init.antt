-- ===== src/Radix/Tree/State/Init.antt =====
-- `rn_inithead_internal` of src/freebsd/radix.c makes a well-formed tree.
use freebsd_radix_userland.Common.{
  ℕ, zero, suc, ◌+◌, ◌%◌, ◌≤◌, ◌<◌, ◌≡◌, refl, ◌∙◌, ◌≢◌, true, false, not, ◌&&◌, some, List, arith,
  replicate, get_or, ◌==◌, if◌then◌else◌,
}
use freebsd_radix_userland.Common.Int.{negsuc}
use freebsd_radix_userland.Common.Bytes.{every_below, every_below-at}
use freebsd_radix_userland.Radix.Memory.{Ptr, RadixNode, Heap, load, load_bytes, rn_zeros, rn_ones}
use freebsd_radix_userland.Radix.Masks.{ones}
use freebsd_radix_userland.Radix.Search.FirstBit.{key_bit}
use freebsd_radix_userland.Radix.Insert.{root_active, rn_inithead_internal}
use freebsd_radix_userland.Radix.Memory.Laws.{
  set_node, load-set_node_self, load-set_node_ne, load-ne_zero, modify-set_node,
}
use freebsd_radix_userland.Radix.Tree.Insert.Link.{new_inner, new_leaf, rn_newpair-eq}
use native.Mathlib.Nat.{le_refl}
use freebsd_radix_userland.Radix.Tree.{leaf, inner, IsTree}
use freebsd_radix_userland.Radix.Tree.State.{IsState}

abbrev pub zeros : List ℕ
zeros = replicate 32 0

get_or-zeros : (n i : ℕ) → get_or {A = ℕ} (replicate n 0) i 0 ≡ 0
get_or-zeros zero i = refl
get_or-zeros (suc n) zero = refl
get_or-zeros (suc n) (suc i) = get_or-zeros n i

get_or-ones-le : (n i : ℕ) → get_or {A = ℕ} (replicate n 255) i 0 ≤ 255
get_or-ones-le zero i = omega arith
get_or-ones-le (suc n) zero = omega arith
get_or-ones-le (suc n) (suc i) = get_or-ones-le n i

bits_table : every_below 256 (λ c. not (key_bit zeros c) && key_bit ones c) ≡ true
unfolding every_below
bits_table = refl

root_bits : (c : ℕ) → c < 256 → (key_bit zeros c ≡ false) × (key_bit ones c ≡ true)
root_bits c h =
    let e = every_below-at 256 (λ c. not (key_bit zeros c) && key_bit ones c) c bits_table h in
    ground (arith, e)

==-refl : (a : ℕ) → (a == a) ≡ true
==-refl a = ground arith

-- The keys of the two roots that are leaves.
abbrev pub base_key : Ptr → Ptr → List ℕ
base_key base q = if q == base then zeros else ones

module _ (h : Heap) (base off : ℕ) (n₀ n₁ : RadixNode) where
  abbrev top_node : RadixNode
  top_node = record (new_inner n₁ off base) {
    rn_right = base + 2;
    rn_parent = base + 1;
    rn_flags = root_active;
  }

  abbrev left_node : RadixNode
  left_node = record (new_leaf n₀ rn_zeros base) { rn_flags = root_active; rn_bit = negsuc off }

  abbrev right_node : RadixNode
  right_node = record left_node { rn_key = rn_ones }

  h₀ : Heap
  h₀ = set_node h (base + 1) (new_inner n₁ off base)

  h₁ : Heap
  unfolding h₀
  h₁ = set_node h₀ base (new_leaf n₀ rn_zeros base)

  h₂ : Heap
  h₂ = set_node h₁ (base + 1) top_node

  h₃ : Heap
  h₃ = set_node h₂ base left_node

  made : Heap
  made = set_node h₃ (base + 2) right_node

  module _ (e₀ : load h base ≡ some n₀) (e₁ : load h (base + 1) ≡ some n₁) where
    apart :
        (base ≢ base + 1)
        × (base + 1 ≢ base)
        × (base ≢ base + 2)
        × (base + 1 ≢ base + 2)
        × (base + 1 ≢ 0)
        × (base + 2 ≢ 0)
    apart = omega arith

    made_run : rn_inithead_internal base off h ≡ some (base + 1, made)
    unfolding rn_inithead_internal made h₃ h₂ h₁
    made_run =
        let nz = load-ne_zero h base e₀ in
        let a₁ : load h₁ (base + 1) ≡ some (new_inner n₁ off base) =
          load-set_node_ne h₀ base (base + 1) _ apart.1
          ∙ load-set_node_self h (base + 1) _ apart.4 in
        let a₂ : load h₂ base ≡ some (new_leaf n₀ rn_zeros base) =
          load-set_node_ne h₁ (base + 1) base _ apart.0 ∙ load-set_node_self h₀ base _ nz in
        let a₃ : load h₃ base ≡ some left_node = load-set_node_self h₂ base _ nz in
        rw (rn_newpair-eq h rn_zeros off base e₀ e₁)
          (rw (modify-set_node h₁ (base + 1) _ a₁) (rw (modify-set_node h₂ base _ a₂) (rw a₃ refl)))

    made-IsTree :
        load_bytes h rn_zeros ≡ some zeros
        → load_bytes h rn_ones ≡ some ones
        → IsTree made
            (base_key base)
            (base + 1)
            (inner (base + 1) off (leaf base) (leaf (base + 2)))
    unfolding made h₃ h₂ h₁ load_bytes
    made-IsTree ez eo =
        let nz = load-ne_zero h base e₀ in
        let ne : (base + 2 == base) ≡ false = ground arith in
        (
          record {
            n = top_node;
            at =
                load-set_node_ne h₃ (base + 2) (base + 1) _ apart.3
                ∙ load-set_node_ne h₂ base (base + 1) _ apart.1
                ∙ load-set_node_self h₁ (base + 1) _ apart.4;
            bit = refl;
            bmask = refl;
            offset = refl;
            sons = (refl, refl);
            parent = refl;
          },
          record {
            n = left_node;
            at = load-set_node_ne h₃ (base + 2) base _ apart.2 ∙ load-set_node_self h₂ base _ nz;
            bit = tt;
            parent = refl;
            holds = rw (==-refl base) ez;
          },
          record {
            n = right_node;
            at = load-set_node_self h₃ (base + 2) _ apart.5;
            bit = tt;
            parent = refl;
            holds = rw ne eo;
          },
        )

-- On a block of three nodes at `base`, and with the contents of `rn_zeros` and `rn_ones` in their
-- place, `rn_inithead_internal` for an offset of whole bytes returns the middle node as the top of a
-- well-formed tree of two leaves, for keys that differ before bit `hi`, at most 256.
pub rn_inithead_internal-IsState :
    (h : Heap) (base off hi : ℕ) {n₀ n₁ : RadixNode}
    → load h base ≡ some n₀
    → load h (base + 1) ≡ some n₁
    → load_bytes h rn_zeros ≡ some zeros
    → load_bytes h rn_ones ≡ some ones
    → off % 8 ≡ 0
    → off < hi
    → hi ≤ 256
    → (g : Heap) × (rn_inithead_internal base off h ≡ some (base + 1, g))
      × IsState g (base_key base) (base + 1) off hi (leaf base) (leaf (base + 2))
rn_inithead_internal-IsState h base off hi {n₀} {n₁} e₀ e₁ ez eo aligned lt le =
    let same : (base == base) ≡ true = ==-refl base in
    let ne : (base + 2 == base) ≡ false = ground arith in
    let bits = root_bits off (omega arith) in
    (
      made h base off n₀ n₁,
      made_run h base off n₀ n₁ e₀ e₁,
      record {
        tree = made-IsTree h base off n₀ n₁ e₀ e₁ ez eo;
        ordered = (le_refl off, lt, tt, tt);
        patricia = (rw same bits.0, rw ne bits.1, (λ c lower upper. absurd (omega arith)), tt, tt);
        distinct = (ground arith, ground arith, (λ a m. ground arith), tt, tt);
        keys = (
          rw same ((λ i. rw (get_or-zeros 32 i) (omega arith)), le),
          rw ne ((λ i. omega (arith, get_or-ones-le 32 i)), le),
        );
        aligned = aligned;
      },
    )
