-- ===== src/Sec/Walk.antt =====
-- The loops of MemoryInitialization of Memory.c over the nodes of the device tree and the reserve map.
use edk2_uemu.Common.{
  ℕ, zero, suc, ◌+◌, ◌<◌, ◌≡◌, refl, some, List, [], ◌∷◌, ◌++◌, map, inl, inr, length, arith,
  if◌then◌else◌, ◌∙◌, sym,
}
use mathlib.Core.List.{append-nil, append_assoc}
use edk2_uemu.Common.Int.{ℤ, pos, negsuc, to_unsigned, ℤ-cases}
use edk2_uemu.Text.{codes}
use edk2_uemu.Fdt.{Platform}
use edk2_uemu.Fdt.Cells.{SwapsBytes}
use edk2_uemu.Fdt.Reg.{HasLengths, reg_bytes}
use edk2_uemu.Sec.{SecHob, system_memory, allocation, Libfdt}
use edk2_uemu.Sec.Memory.{
  is_memory, node_hobs, memory_loop, entry_hobs, reserve_loop, reserved_type, subnode_loop,
  add_reserved_memory_map,
}
use edk2_uemu.Sec.Ranges.{ranges, collect, tuples_loop, system_loop}

-- FdtNextNode, started behind `from`, goes through `nodes` and then answers a negative number.
abbrev pub Walks : Libfdt → ℕ → ℤ → List ℕ → Type 0
Walks lib fdt from [] = (stop : ℕ) × (lib.next_node fdt from ≡ negsuc stop)
Walks lib fdt from (n ∷ nodes) = (lib.next_node fdt from ≡ pos n) × Walks lib fdt (pos n) nodes

-- FdtNextSubnode goes through `nodes`, the first of which is `sub`, and then answers a negative number.
abbrev pub Children : Libfdt → ℕ → ℤ → List ℕ → Type 0
Children lib fdt sub [] = (stop : ℕ) × (sub ≡ negsuc stop)
Children lib fdt sub (n ∷ nodes) =
    (sub ≡ pos n) × Children lib fdt (lib.next_subnode fdt (pos n)) nodes

-- The nodes of /reserved-memory, none where the tree has no such node.
abbrev pub Reserves : Libfdt → ℕ → ℤ → List ℕ → Type 0
Reserves lib fdt (negsuc stop) nodes = nodes ≡ []
Reserves lib fdt (pos n) nodes = Children lib fdt (lib.first_subnode fdt (pos n)) nodes

-- The numbers from `i` on, `left` of them.
abbrev pub counting : ℕ → ℕ → List ℕ
counting zero i = []
counting (suc left) i = i ∷ counting left (i + 1)

-- What the loops build for a node, for the reserve map and for a node of /reserved-memory.
abbrev pub built_memory : Platform → ℕ → ℕ → List SecHob
built_memory p fdt n =
    if is_memory p fdt (pos n) then map (λ r. system_memory r.0 r.1) (ranges p fdt (pos n)) else []

abbrev pub built_entries : Libfdt → ℕ → List SecHob
built_entries lib fdt =
    collect (λ k. entry_hobs (lib.reserve_map_entry fdt k))
      (counting (to_unsigned (lib.reserve_map_entries fdt)) 0)

abbrev pub built_reserved : Platform → ℕ → ℕ → List SecHob
built_reserved p fdt n =
    map (λ r. allocation r.0 r.1 (reserved_type p fdt (pos n))) (ranges p fdt (pos n))

node_hobs_lem :
    (p : Platform) (regs fdt n : ℕ) (hobs : List SecHob)
    → HasLengths p
    → SwapsBytes p
    → reg_bytes p fdt (pos n) < regs
    → node_hobs p regs fdt (pos n) hobs ≡ some (hobs ++ built_memory p fdt n)
unfolding node_hobs
node_hobs_lem p regs fdt n hobs l s h =
    ground (arith, append-nil hobs, system_loop p fdt (pos n) regs hobs l s h)

pub memory_loop_lem :
    (p : Platform) (lib : Libfdt) (regs fdt fuel : ℕ) (prev : ℤ) (nodes : List ℕ)
    (hobs : List SecHob)
    → HasLengths p
    → SwapsBytes p
    → ((node : ℤ) → reg_bytes p fdt node < regs)
    → Walks lib fdt prev nodes
    → length nodes < fuel
    → memory_loop p lib regs fdt fuel prev hobs ≡ some (hobs ++ collect (built_memory p fdt) nodes)
unfolding memory_loop
memory_loop_lem p lib regs fdt zero prev nodes hobs l s r w h = absurd (omega arith)
memory_loop_lem p lib regs fdt (suc fuel) prev [] hobs l s r (stop, w) h =
    rw (w, memory_loop, append-nil hobs) refl
memory_loop_lem p lib regs fdt (suc fuel) prev (n ∷ nodes) hobs l s r (w, rest) h =
    rw
      (
        w,
        memory_loop,
        w,
        node_hobs_lem p regs fdt n hobs l s (r (pos n)),
        w,
        memory_loop_lem p lib regs fdt fuel (pos n) nodes (hobs ++ built_memory p fdt n) l s r rest
            (omega arith),
        append_assoc hobs (built_memory p fdt n) (collect (built_memory p fdt) nodes),
      )
      refl

reserve_loop_lem :
    (lib : Libfdt) (fdt left i : ℕ) (hobs : List SecHob)
    → reserve_loop lib fdt left i hobs
      ≡ hobs ++ collect (λ k. entry_hobs (lib.reserve_map_entry fdt k)) (counting left i)
unfolding reserve_loop
reserve_loop_lem lib fdt zero i hobs = sym (append-nil hobs)
reserve_loop_lem lib fdt (suc left) i hobs =
    reserve_loop_lem lib fdt left (i + 1) (hobs ++ entry_hobs (lib.reserve_map_entry fdt i))
    ∙ append_assoc hobs (entry_hobs (lib.reserve_map_entry fdt i))
        (collect (λ k. entry_hobs (lib.reserve_map_entry fdt k)) (counting left (i + 1)))

subnode_loop_lem :
    (p : Platform) (lib : Libfdt) (regs fdt fuel : ℕ) (sub : ℤ) (nodes : List ℕ)
    (hobs : List SecHob)
    → HasLengths p
    → ((node : ℤ) → reg_bytes p fdt node < regs)
    → Children lib fdt sub nodes
    → length nodes < fuel
    → subnode_loop p lib regs fdt fuel sub hobs
      ≡ some (hobs ++ collect (built_reserved p fdt) nodes)
unfolding subnode_loop
subnode_loop_lem p lib regs fdt zero sub nodes hobs l r w h = absurd (omega arith)
subnode_loop_lem p lib regs fdt (suc fuel) sub [] hobs l r (stop, w) h =
    rw (w, subnode_loop, append-nil hobs) refl
subnode_loop_lem p lib regs fdt (suc fuel) sub (n ∷ nodes) hobs l r (w, rest) h =
    rw
      (
        w,
        subnode_loop,
        w,
        tuples_loop p fdt (pos n) (λ addr size. allocation addr size (reserved_type p fdt (pos n)))
            regs (reg_bytes p fdt (pos n)) 0 hobs l (omega arith) (r (pos n)),
        w,
        subnode_loop_lem p lib regs fdt fuel (lib.next_subnode fdt (pos n)) nodes
            (hobs ++ built_reserved p fdt n) l r rest (omega arith),
        append_assoc hobs (built_reserved p fdt n) (collect (built_reserved p fdt) nodes),
      )
      refl

pub reserved_memory_lem :
    (p : Platform) (lib : Libfdt) (fuel fdt : ℕ) (children : List ℕ) (hobs : List SecHob)
    → HasLengths p
    → ((node : ℤ) → reg_bytes p fdt node < fuel)
    → Reserves lib fdt (lib.subnode_offset fdt (pos 0) (codes "reserved-memory")) children
    → length children < fuel
    → add_reserved_memory_map p lib fuel fdt hobs
      ≡ some (hobs ++ built_entries lib fdt ++ collect (built_reserved p fdt) children)
unfolding add_reserved_memory_map
reserved_memory_lem p lib fuel fdt children hobs l r reserves h =
    let left = to_unsigned (lib.reserve_map_entries fdt) in
    elim (ℤ-cases (lib.subnode_offset fdt (pos 0) (codes "reserved-memory"))) [
      | inl (n, e) ↦
          let kids =
            subnode_loop_lem p lib fuel fdt fuel (lib.first_subnode fdt (pos n)) children
              (hobs ++ built_entries lib fdt) l r (rw e at reserves) h in
          rw (e, reserve_loop_lem lib fdt left 0 hobs, kids) refl
      | inr (n, e) ↦
          let empty : children ≡ [] = rw e at reserves in
          rw
            (
              e,
              reserve_loop_lem lib fdt left 0 hobs,
              empty,
              append-nil (hobs ++ built_entries lib fdt),
            )
            refl
    ]
