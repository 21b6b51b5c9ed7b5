-- ===== src/Lib.antt =====
-- The NembusOS kernel: a 32-bit x86 kernel in C, built with -m32 for the i386. This library models
-- the parts of it that keep and change state by computation.
--
-- The parts, and the files that model them:
--   * src/impl/memory.c: Memory for memcpy and memset, on a function from addresses to bytes, in
--     which 32-bit words are stored lowest byte first; Malloc for malloc and m_free, on the list of
--     blocks that the chain from `head` is. Malloc/Tiling has the invariant, Malloc/Clients the
--     sequences of calls.
--   * src/impl/ordered_array.c: OrderedArray, with the plain lists that it stands for in
--     OrderedArray/Spec. The heap's index is such an array.
--   * src/impl/kheap.c: Kheap. Blocks and holes in memory are in Kheap/Blocks, the list of holes in
--     Kheap/Holes, the searches of the index in Kheap/Search, alloc in Kheap/Alloc, free in
--     Kheap/Free, expand and contract in Kheap/Resize, kmalloc and its kin and create_heap in
--     Kheap/Kmalloc. The heap asks paging for frames: that is the interface PageOps, whose laws
--     Kheap/Resize/Ends states for a region that has its page tables, and which Kheap/Paged fills
--     with the model of paging.c. Mapping a page is a step of the heap's state as well, since a
--     table that is missing comes from kmalloc_ap; that call is a parameter of Kheap/Paged.
--   * src/impl/paging.c: Paging/Frames for the bitmap of frames, alloc_frame and free_frame,
--     Paging/Tables for get_page, clone_table and clone_directory, Paging/Boot for
--     initialise_paging and switch_page_directory, and Paging/Fault for page_fault. Addresses that
--     kmalloc_ap returns are parameters, and so are the tables' places; what copy_page_physical is
--     to copy is recorded.
--     clone_table's memset is taken to clear its own table.
--   * src/impl/vga.c: Vga. The screen is the memory from 0xb8000 on and the two coordinates of the
--     cursor; writes to ports are recorded in a list.
--   * src/impl/string.c: CString, over strings in memory.
--   * src/impl/vfs.c: Vfs, and src/impl/initrd.c: Initrd, whose nodes the switch calls.
--   * ramdisk.c, a program of the host: Ramdisk, from the arguments to the bytes of the image.
--     Ramdisk/Headers reads the headers from memory as initialise_initrd does, and Initrd/Mounted
--     joins the generator and the kernel.
--   * src/kernel/kernel.c: Boot, the steps of _kmain and a round of proc. Boot/Queue
--     has the tasks that it leaves.
--   * src/impl/cmos.c and the loop of src/impl/std.c: Cmos.
--   * src/impl/gdt.c: Gdt, descriptor tables as lists of entries.
--   * src/impl/task.c: Task, the ready queue as a chain of tasks in a store, with switch_task in
--     Task/RoundRobin, create_proc in Task/Queue, initialise_tasking and fork in Task/Fork, and
--     move_stack in Task/Stack.
--   * src/impl/isr.c: Interrupts, the table of handlers, the gates, and the two handlers that the
--     stubs of src/impl/interrupt.asm call. A handler is an address, and what it does is a
--     parameter: it returns, goes on in another task, or halts the system.
--     Interrupts/Calls has the wrappers of src/include/syscall.h.
--   * src/impl/timer.c: Timer, which fills that parameter in with timer_handler and so joins
--     interrupts and tasks.
--   * src/impl/keyboard.c and src/include/kbdef.h: Keyboard, over the bytes that the ports give; the
--     characters go to the screen of Vga and to a buffer in the same memory.
--   * Base has numbers, bits, lists and the outcomes that the models share.
--
-- How the code is modelled. A word of 32 bits is a natural number, and additions and subtractions
-- of words wrap. int64_t is `long`, which has 32 bits under -m32. A function that changes state
-- takes it and returns it. An operation has an Outcome: `ok` with its result, `panic` where an
-- ASSERT fails, `fault` where it leaves the storage that it owns or follows a null pointer, and
-- `out_of_fuel`. The storage of an ordered array is held apart from the heap's memory.
--
-- Loops. A loop with a counter is recursion on the rounds that are left. The loops of expand and
-- contract run on fuel, a unit for each page of the heap's size and two more. Each time alloc grows
-- the heap and calls itself it takes a unit of fuel. The string functions run on fuel, a unit for
-- each byte and one for the terminator; the search for the end of the ready queue on a unit for each
-- task; the loop of input on a unit for each key and one for Enter; timer_wait on a unit for each
-- read of the clock; sleep on a unit for each round.
--
-- Not modelled: the assembly files and src/impl/assert.c, whose PANIC is the outcome `panic`;
-- create_ordered_array and destroy_ordered_array, the one unused, the other empty; hextostr. _kmain as
-- a whole is not one function, since the parts of the model have states of their own. The chain of
-- headers of malloc is a list, which it is for sizes that are not negative: a caller that writes
-- outside its region is not modelled.
pub mod Base
pub mod Memory
pub mod Malloc
pub mod Interrupts
pub mod Keyboard
pub mod OrderedArray
pub mod Paging
pub mod Ramdisk
pub mod Kheap
pub mod Vga
pub mod CString
pub mod Cmos
pub mod Vfs
pub mod Initrd
pub mod Gdt
pub mod Task
pub mod Timer
pub mod Boot
