-- ===== src/Task/Stack.antt =====
-- `move_stack` of src/impl/task.c. Memory is what the processor sees once the new stack's pages are
-- mapped; the two registers are arguments, and are results again.
pub mod Moved
use nembus_os.Base.{ℕ, zero, suc, ◌+◌, ◌-◌, ◌*◌, ◌/◌, Bool, ◌&&◌, ltb, if◌then◌else◌}
use nembus_os.Base.Words.{add32, sub32}
use nembus_os.Base.Outcome.{Outcome, ok, ◌>>=◌}
use nembus_os.Memory.{Memory, load32, store32, memcpy}
use nembus_os.Paging.Tables.{Directory, PageMemory}
use nembus_os.Paging.Boot.{make_page, give_frame}

-- The pages of the new stack, from the highest address down, with as many rounds as there are pages
-- left.
pub map_stack :
    (kmalloc_ap : ℕ → ℕ × ℕ) (address rounds : ℕ)
    → Directory × PageMemory
    → Outcome (Directory × PageMemory)
map_stack kmalloc_ap address zero d = ok d
map_stack kmalloc_ap address (suc n) d =
    give_frame 0 1 (make_page kmalloc_ap address d)
    >>= map_stack kmalloc_ap (sub32 address 0x1000) n

-- The new value of a word that may point into the old stack.
abbrev pub relocate : (old_esp initial_esp offset tmp : ℕ) → ℕ
relocate old_esp initial_esp offset tmp =
    if ltb old_esp tmp && ltb tmp initial_esp then add32 tmp offset else tmp

-- The loop over the words of the new stack, from the highest address down, with as many rounds as
-- there are words left.
pub relocate_words : (old_esp initial_esp offset i rounds : ℕ) → Memory → Memory
relocate_words old_esp initial_esp offset i zero m = m
relocate_words old_esp initial_esp offset i (suc n) m =
    let tmp = load32 m i in
    relocate_words old_esp initial_esp offset (sub32 i 4) n
      (if ltb old_esp tmp && ltb tmp initial_esp then store32 m i (add32 tmp offset) else m)

-- The copy and the loop: the memory, and the stack and base pointers behind it.
unfoldable pub move_stack :
    (new_stack_start size old_esp old_ebp initial_esp : ℕ) → Memory → Memory × ℕ × ℕ
move_stack new_stack_start size old_esp old_ebp initial_esp m =
    let offset = sub32 new_stack_start initial_esp in
    (
      relocate_words old_esp initial_esp offset new_stack_start ((size + 3) / 4)
          (memcpy m (add32 old_esp offset) old_esp (sub32 initial_esp old_esp)),
      add32 old_esp offset,
      add32 old_ebp offset,
    )
