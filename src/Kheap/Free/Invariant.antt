-- ===== src/Kheap/Free/Invariant.antt =====
-- `free` keeps the heap well formed, where the block has no hole beside it.
use nembus_os.Base.{ℕ, ◌+◌, ◌-◌, ◌<◌, ◌≤◌, ◌≡◌, ◌≢◌, List, arith}
use nembus_os.Base.Words.{add32}
use nembus_os.Base.Outcome.{ok}
use nembus_os.Memory.{load32}
use nembus_os.Memory.Laws.{IsBytes}
use nembus_os.OrderedArray.Spec.{insert_sorted, length-insert_sorted}
use nembus_os.Kheap.{PageOps, State, heap_magic, sizeof_header, header_t_less_than}
use nembus_os.Kheap.Blocks.{IsTagged, SameOutside}
use nembus_os.Kheap.Holes.{Clear, added-Shape}
use nembus_os.Kheap.Alloc.Invariant.{IsWell, shape_of, with_index}
use nembus_os.Kheap.Free.{free}
use nembus_os.Kheap.Free.Isolated.{free-IsFreed}

-- In a well-formed heap with room for two more holes in its index, a tagged block of more than 20
-- bytes that is clear of the holes, has no magic number in front and no hole's flag behind, and
-- does not end the heap, becomes a hole when it is freed: the index has it at its place, nothing
-- outside the block is written, and the heap is well formed again.
pub free-IsWell :
    {P : Type 0} (ops : PageOps P) (s : State P) (h sz : ℕ) (xs : List ℕ)
    → IsWell s xs
    → IsTagged s.mem h 0 sz
    → Clear s h sz xs
    → 20 < sz
    → IsBytes s.mem
    → s.heap.index.size + 1 < s.heap.index.max_size
    → 8 ≤ h
    → load32 s.mem (h - 8) ≢ heap_magic
    → s.mem (h + sz + 4) ≡ 0
    → h + sz + 12 ≤ s.heap.end_address
    → (s' : State P) × (free ops (add32 h sizeof_header) s ≡ ok s')
      × IsWell s' (insert_sorted (header_t_less_than s'.mem) h xs)
      × SameOutside h sz s.mem s'.mem
free-IsWell ops s h sz xs well t clear big b room low left right inner =
    let (s', done, freed) =
      free-IsFreed ops header_t_less_than s h sz xs t big b well.ready.held well.ready.room low left
        right inner well.ready.end in
    (
      s',
      done,
      with_index s' (insert_sorted (header_t_less_than s'.mem) h xs)
          (added-Shape s s' xs h sz (shape_of well) clear freed.same (omega (arith, freed.end)) h sz
            freed.headed (omega arith) (omega arith) (omega arith))
          freed.held
          (omega (
            arith,
            length-insert_sorted (header_t_less_than s'.mem) h xs,
            well.ready.held.count,
            room,
            freed.capacity,
          ))
          (omega (arith, freed.capacity, well.ready.words))
          (omega (arith, freed.end, well.ready.end)),
      freed.same,
    )
