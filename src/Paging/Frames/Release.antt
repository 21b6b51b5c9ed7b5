-- ===== src/Paging/Frames/Release.antt =====
-- `alloc_frame` and `free_frame` against the set of frames in use.
use nembus_os.Base.{
  ℕ, ◌*◌, ◌/◌, ◌%◌, ◌^◌, ◌<◌, ◌≤◌, ◌≡◌, ◌≢◌, ◌∙◌, arith, inl, inr, ◌==◌, ne→==, eq→==,
  if◌then◌else◌, length,
}
use nembus_os.Base.Words.{w32}
use nembus_os.Base.Outcome.{ok}
use nembus_os.Paging.Frames.{
  Page, FrameSet, set_frame, clear_frame, first_frame, alloc_frame, free_frame,
}
use nembus_os.Paging.Frames.Bitmap.{is_used, Updates, set_frame-Updates, clear_frame-Updates}
use nembus_os.Paging.Frames.Search.{IsFirstFree, first_frame-IsFirstFree}

-- The bitmap has a word for every 32 frames, and frame numbers fit the page entry's 20 bits.
pub record IsFrameSet (fs : FrameSet) : Type 0 where
  pub words : fs.nframes / 32 ≤ length fs.frames
  pub some_words : 0 < length fs.frames
  pub few : fs.nframes ≤ 2 ^ 20

-- The page that `alloc_frame` leaves behind.
abbrev pub mapped : Page → (is_kernel is_writeable frame : ℕ) → Page
mapped page is_kernel is_writeable frame = record page {
  present = 1;
  rw = if is_writeable == 1 then 1 else 0;
  user = if is_kernel == 1 then 0 else 1;
  frame = frame;
}

-- A page that has a frame keeps it.
pub alloc_frame-kept :
    (page : Page) (is_kernel is_writeable : ℕ) (fs : FrameSet)
    → page.frame ≢ 0
    → alloc_frame page is_kernel is_writeable fs ≡ ok (page, fs)
unfolding alloc_frame
alloc_frame-kept page is_kernel is_writeable fs has = rw (ne→== page.frame 0 has)

alloc_frame-taken :
    (page : Page) (is_kernel is_writeable r : ℕ) (fs fs' : FrameSet)
    → page.frame ≡ 0
    → first_frame fs ≡ ok r
    → r < 2 ^ 20
    → set_frame (r * 0x1000) fs ≡ ok fs'
    → alloc_frame page is_kernel is_writeable fs ≡ ok (mapped page is_kernel is_writeable r, fs')
unfolding alloc_frame
alloc_frame-taken page is_kernel is_writeable r fs fs' none first small set =
    let address : r * 0x1000 % w32 ≡ r * 0x1000 = omega arith in
    let number : r % 2 ^ 20 ≡ r = omega arith in
    rw (eq→== page.frame 0 none, first, address, set, number)

-- In a well-formed frame set a page without a frame gets the first free one, which is then in use,
-- and no other frame changes; where every frame is in use it gets frame 0.
pub alloc_frame-Updates :
    (page : Page) (is_kernel is_writeable : ℕ) (fs : FrameSet)
    → IsFrameSet fs
    → page.frame ≡ 0
    → (r : ℕ) × (fs' : FrameSet) × (alloc_frame page is_kernel is_writeable fs
        ≡ ok (mapped page is_kernel is_writeable r, fs'))
      × IsFirstFree fs (fs.nframes / 32 * 32) r
      × Updates fs fs' r 1
alloc_frame-Updates page is_kernel is_writeable fs valid none =
    let (r, first, free) = first_frame-IsFirstFree fs valid.words (omega (arith, valid.few)) in
    let (fs', set, updates) = set_frame-Updates fs r (inside r free) in
    (
      r,
      fs',
      alloc_frame-taken page is_kernel is_writeable r fs fs' none first (small r free) set,
      free,
      updates,
    )
  where
    inside : (r : ℕ) → IsFirstFree fs (fs.nframes / 32 * 32) r → r / 32 < length fs.frames
    inside r (inl full) = omega (arith, full.0, valid.some_words)
    inside r (inr free) = omega (arith, free.0, valid.words)

    small : (r : ℕ) → IsFirstFree fs (fs.nframes / 32 * 32) r → r < 2 ^ 20
    small r (inl full) = omega (arith, full.0)
    small r (inr free) = omega (arith, free.0, valid.few)

clear_frame-page : (a : ℕ) (fs : FrameSet) → clear_frame a fs ≡ clear_frame (a / 0x1000 * 0x1000) fs
unfolding clear_frame
clear_frame-page a fs =
    let page : a / 0x1000 * 0x1000 / 0x1000 ≡ a / 0x1000 = omega arith in rw page

free_frame-cleared :
    (page : Page) (fs fs' : FrameSet)
    → page.frame ≢ 0
    → clear_frame page.frame fs ≡ ok fs'
    → free_frame page fs ≡ ok (record page { frame = 0 }, fs')
unfolding free_frame
free_frame-cleared page fs fs' has cleared = ground arith

-- On a page with a frame `free_frame` takes the frame from the page, but what it clears in the bitmap is the bit of the
-- frame whose number is the page's frame divided by 4096, if the bitmap has it.
pub free_frame-Updates :
    (page : Page) (fs : FrameSet)
    → page.frame ≢ 0
    → page.frame / 0x1000 / 32 < length fs.frames
    → (fs' : FrameSet) × (free_frame page fs ≡ ok (record page { frame = 0 }, fs'))
      × Updates fs fs' (page.frame / 0x1000) 0
free_frame-Updates page fs has inside =
    let (fs', cleared, updates) = clear_frame-Updates fs (page.frame / 0x1000) inside in
    (fs', free_frame-cleared page fs fs' has (clear_frame-page page.frame fs ∙ cleared), updates)

-- A frame below 4096, other than 0, therefore stays in use when its page is freed.
pub free_frame_keeps :
    (page : Page) (fs : FrameSet)
    → page.frame ≢ 0
    → page.frame < 0x1000
    → 0 < length fs.frames
    → (fs' : FrameSet) × (free_frame page fs ≡ ok (record page { frame = 0 }, fs'))
      × (is_used fs' page.frame ≡ is_used fs page.frame)
free_frame_keeps page fs has low words =
    let (fs', done, updates) = free_frame-Updates page fs has (omega arith) in
    (fs', done, updates.used page.frame ∙ ground arith)
