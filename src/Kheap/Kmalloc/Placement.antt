-- ===== src/Kheap/Kmalloc/Placement.antt =====
-- The allocation of memory before there is a heap.
use nembus_os.Base.{
  ℕ, ◌+◌, ◌%◌, ◌<◌, ◌≤◌, ◌≡◌, ◌⊎◌, inl, inr, ap, Bool, Bool-cases, not, ◌&&◌, ◌==◌, if◌then◌else◌,
  none, some, arith, bit_and,
}
use nembus_os.Base.Bits.{bit_and-page}
use nembus_os.Base.Words.{add32}
use nembus_os.Base.Outcome.{ok}
use nembus_os.Memory.{Memory}
use nembus_os.Kheap.{PageOps, page_size}
use nembus_os.Kheap.Kmalloc.{Kernel, Allocated, place, kmalloc_int}

-- The allocator's globals while `kheap` is null.
abbrev pub early_kernel : {P : Type 0} → (placement_address : ℕ) → Memory → P → Kernel P
early_kernel placement_address mem pages = record {
  placement_address = placement_address;
  kheap = none;
  mem = mem;
  pages = pages;
}

abbrev pub allocated : (want_phys : Bool) → (address : ℕ) → Allocated
allocated want_phys address = record {
  address = address;
  phys = if want_phys then some address else none;
}

-- Before there is a heap, `kmalloc_int` hands out the memory from the placement address on, in
-- order: the block lies behind everything handed out so far, the placement address moves behind
-- the block, a page-aligned block is aligned unless it lies in the first page, and the physical
-- address is the address.
pub kmalloc_int-place :
    {P : Type 0} (ops : PageOps P) (fuel sz align : ℕ) (want_phys : Bool) (p : ℕ) (m : Memory)
    (pages : P)
    → p + sz + page_size < 0x100000000
    → (at : ℕ) × (kmalloc_int ops fuel sz align want_phys (early_kernel p m pages)
        ≡ ok (early_kernel (at + sz) m pages, allocated want_phys at))
      × (p ≤ at)
      × ((align ≡ 1) → (at % page_size ≡ 0) ⊎ (at < page_size))
unfolding kmalloc_int place
kmalloc_int-place ops fuel sz align want_phys p m pages fits =
    let page = bit_and-page p (omega arith) in
    elim (Bool-cases ((align == 1) && not (bit_and p 0xFFFFF000 == 0))) [
      | inl up ↦ (
        add32 (bit_and p 0xFFFFF000) page_size,
        rw up (
            ap
              (λ (n : ℕ). ok (
                early_kernel n m pages,
                allocated want_phys (add32 (bit_and p 0xFFFFF000) page_size),
              ))
              (omega (arith, page))),
        omega (arith, page),
        (λ one. inl (omega (arith, page))),
      )
      | inr plain ↦ (
        p,
        rw plain (ap (λ (n : ℕ). ok (early_kernel n m pages, allocated want_phys p)) (omega arith)),
        omega arith,
        (λ one. inr (ground (arith, page))),
      )
    ]
