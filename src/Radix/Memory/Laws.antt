-- ===== src/Radix/Memory/Laws.antt =====
-- What a read finds after a write.
use freebsd_radix_userland.Common.{◌≡◌, refl, ◌≢◌, some, arith, ◌==◌, if◌then◌else◌}
use freebsd_radix_userland.Radix.Memory.{Ptr, RadixNode, Heap, load, load_bytes, update, modify}

abbrev pub set_node : Heap → Ptr → RadixNode → Heap
set_node h p n = record h { node = update h.node p (some n) }

pub load-set_node :
    (h : Heap) (p q : Ptr) (n : RadixNode)
    → p ≢ 0
    → load (set_node h p n) q ≡ (if q == p then some n else load h q)
unfolding load
load-set_node h p q n ne = ground arith

pub load-set_node_self :
    (h : Heap) (p : Ptr) (n : RadixNode) → p ≢ 0 → load (set_node h p n) p ≡ some n
unfolding load
load-set_node_self h p n ne = ground arith

pub load-set_node_ne :
    (h : Heap) (p q : Ptr) (n : RadixNode) → q ≢ p → load (set_node h p n) q ≡ load h q
unfolding load
load-set_node_ne h p q n ne = ground arith

pub load_bytes-set_node :
    (h : Heap) (p q : Ptr) (n : RadixNode) → load_bytes (set_node h p n) q ≡ load_bytes h q
unfolding load_bytes
load_bytes-set_node h p q n = refl

pub load-ne_zero : (h : Heap) (p : Ptr) {n : RadixNode} → load h p ≡ some n → p ≢ 0
unfolding load
load-ne_zero h p e = ground arith

pub modify-set_node :
    (h : Heap) (p : Ptr) (f : RadixNode → RadixNode) {n : RadixNode}
    → load h p ≡ some n
    → modify p f h ≡ some (tt, set_node h p (f n))
unfolding modify
modify-set_node h p f e = rw e refl
