-- ===== src/Malloc/Tests.antt =====
-- Calls on an array at 0x110000, from `head == NULL` on.
use nembus_os.Base.{ℕ, ◌+◌, ◌≡◌, refl, arith, some, none, List, [], ◌∷◌}
use nembus_os.Malloc.{MemoryBlock, init_head, take_block, malloc, free_behind, m_free}
use nembus_os.Malloc.Freed.{first-IsHeap}
use nembus_os.Malloc.Taken.{Search, malloc-first}
use nembus_os.Malloc.RoundTrip.{m_free-malloc}
use nembus_os.Malloc.Clients.{Dropped, Reach, IsServed, Reach-IsServed}

abbrev array : ℕ
array = 0x110000

-- Two blocks are given, the first is freed, and a smaller one takes its place.
abbrev first_two : List MemoryBlock
first_two = (malloc array 200 (malloc array 100 []).0).0

program : Unit {0}
unfolding malloc take_block m_free free_behind
program = tt

second_pointer : (malloc array 200 (malloc array 100 []).0).1 ≡ some (array + 124)
unfolding program
second_pointer = refl

reused : (malloc array 50 (m_free (array + 12) first_two)).1 ≡ some (array + 12)
unfolding program
reused = refl

all_joined : m_free (array + 124) (m_free (array + 12) first_two) ≡ init_head array []
unfolding program
all_joined = refl

too_large : malloc array 24989 [] ≡ (init_head array [], none)
unfolding program
too_large = refl

two_regions : Reach array first_two (
    record { start = array + 124; extent = 200 } ∷ record { start = array + 12; extent = 100 } ∷ [])
two_regions =
    Reach.given 200 (array + 124)
      (Reach.given 100 (array + 12) Reach.boot (omega arith) (unfold program in refl)) (omega arith)
      second_pointer

Reach-IsServed_example :
    IsServed array
      (record { start = array + 124; extent = 200 } ∷ [])
      (init_head array (m_free (array + 12) first_two))
Reach-IsServed_example = Reach-IsServed array (omega arith) (
    Reach.freed (record { start = array + 12; extent = 100 }) two_regions
      (Dropped.later (record { start = array + 124; extent = 200 }) (Dropped.first [])))

malloc-first_example :
    Search 100 (init_head array []) (malloc array 100 []).0 (malloc array 100 []).1
malloc-first_example = malloc-first array 100 [] (omega arith) (omega arith) (first-IsHeap array)

m_free-malloc_example : m_free (array + 12) (malloc array 100 []).0 ≡ init_head array []
m_free-malloc_example =
    m_free-malloc array 100 (array + 12) [] (omega arith) (omega arith) (first-IsHeap array)
      (unfold program in refl)
