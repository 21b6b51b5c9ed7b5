-- ===== src/Paging/Frames.antt =====
-- The frame bitmap of src/impl/paging.c, and the two operations that give a page a frame and take
-- it away. An access outside the bitmap is a fault.
pub mod Bitmap
pub mod Search
pub mod Release
use nembus_os.Base.{
  ℕ, zero, suc, ◌+◌, ◌-◌, ◌*◌, ◌/◌, ◌%◌, ◌^◌, Bool, not, Option, none, some, List, ltb, ◌==◌,
  if◌then◌else◌, length, get_elem?, set, bit_and, bit_or,
}
use nembus_os.Base.Words.{w32}
use nembus_os.Base.Outcome.{Outcome, ok, fault, ◌>>=◌, or_fault}

-- `page_t`: seven bit fields of one word.
pub record Page : Type 0 where
  pub present : ℕ
  pub rw : ℕ
  pub user : ℕ
  pub accessed : ℕ
  pub dirty : ℕ
  pub unused : ℕ
  pub frame : ℕ

pub record FrameSet : Type 0 where
  pub frames : List ℕ
  pub nframes : ℕ

-- `INDEX_FROM_BIT` and `OFFSET_FROM_BIT`
abbrev pub index_from_bit : ℕ → ℕ
index_from_bit a = a / (8 * 4)

abbrev offset_from_bit : ℕ → ℕ
offset_from_bit a = a % (8 * 4)

-- `frames[idx] = f(frames[idx])`
abbrev update_word : FrameSet → (idx : ℕ) → (ℕ → ℕ) → Outcome FrameSet
update_word fs idx f = do
  word ← or_fault (get_elem? fs.frames idx)
  ok (record fs { frames = set fs.frames idx (f word) })

pub set_frame : (frame_addr : ℕ) → FrameSet → Outcome FrameSet
set_frame frame_addr fs =
    let frame = frame_addr / 0x1000 in
    let off = offset_from_bit frame in
    update_word fs (index_from_bit frame) (λ word. bit_or word (2 ^ off))

-- `~(0x1 << off)` in 32 bits.
pub clear_frame : (frame_addr : ℕ) → FrameSet → Outcome FrameSet
clear_frame frame_addr fs =
    let frame = frame_addr / 0x1000 in
    let off = offset_from_bit frame in
    update_word fs (index_from_bit frame) (λ word. bit_and word (2 ^ 32 - 1 - 2 ^ off))

pub test_frame : (frame_addr : ℕ) → FrameSet → Outcome ℕ
test_frame frame_addr fs = do
  let frame = frame_addr / 0x1000
  word ← or_fault (get_elem? fs.frames (index_from_bit frame))
  ok (bit_and word (2 ^ offset_from_bit frame))

-- The inner loop of `first_frame`, with `32 - j` rounds left: a bit that is clear.
pub first_bit : (word j rounds : ℕ) → Option ℕ
first_bit word j zero = none
first_bit word j (suc n) =
    let rest = first_bit word (j + 1) n in if bit_and word (2 ^ j) == 0 then some j else rest

-- The outer loop, with `INDEX_FROM_BIT(nframes) - i` rounds left; the result 0 is also that of a
-- bitmap with no clear bit.
pub first_word : List ℕ → (i rounds : ℕ) → Outcome ℕ
first_word frames i zero = ok 0
first_word frames i (suc n) = do
  word ← or_fault (get_elem? frames i)
  let rest = first_word frames (i + 1) n
  if word == 0xFFFFFFFF
      then rest
      else elim (first_bit word 0 32) [ none ↦ rest | some j ↦ ok ((i * 4 * 8 + j) % w32) ]

pub first_frame : FrameSet → Outcome ℕ
unfolding first_word first_bit
first_frame fs = first_word fs.frames 0 (index_from_bit fs.nframes)

-- The frame field has 20 bits. The test for `(uint32_t)-1` has an empty body.
pub alloc_frame : Page → (is_kernel is_writeable : ℕ) → FrameSet → Outcome (Page × FrameSet)
alloc_frame page is_kernel is_writeable fs = if not (page.frame == 0) then ok (page, fs) else (do
  idx ← first_frame fs
  fs' ← set_frame (idx * 0x1000 % w32) fs
  ok (
    record page {
      present = 1;
      rw = if is_writeable == 1 then 1 else 0;
      user = if is_kernel == 1 then 0 else 1;
      frame = idx % 2 ^ 20;
    },
    fs',
  ))

-- The frame's number is handed to `clear_frame`, which wants its address.
unfoldable pub free_frame : Page → FrameSet → Outcome (Page × FrameSet)
free_frame page fs =
    if page.frame == 0
    then ok (page, fs)
    else (do fs' ← clear_frame page.frame fs; ok (record page { frame = 0 }, fs'))
