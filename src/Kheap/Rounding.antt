-- ===== src/Kheap/Rounding.antt =====
-- The page rounding that `expand`, `create_heap` and `kmalloc_int` share.
use nembus_os.Base.{ℕ, ◌+◌, ◌-◌, ◌%◌, ◌<◌, ◌≤◌, ◌≡◌, arith, ltb, if◌then◌else◌}
use nembus_os.Base.Bits.{bit_and-page}
use nembus_os.Kheap.{page_size, round_page}

-- What the rounding does: nothing below a page, and a whole page on top of an aligned address.
pub round_page-value :
    (a : ℕ)
    → a < 0xFFFFF000
    → round_page a ≡ (if ltb a page_size then a else a - a % page_size + page_size)
unfolding round_page
round_page-value a small = ground (arith, bit_and-page a)

pub round_page-le : (a : ℕ) → a < 0xFFFFF000 → a ≤ round_page a
round_page-le a small = ground (arith, round_page-value a small)
