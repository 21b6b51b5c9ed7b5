-- ===== src/Paging/Frames/Bitmap.antt =====
-- The bitmap as a set of frame numbers: what `set_frame` and `clear_frame` do to it.
use nembus_os.Base.{
  ℕ, ◌-◌, ◌*◌, ◌/◌, ◌%◌, ◌^◌, ◌<◌, ◌≡◌, ◌≢◌, refl, sym, ◌∙◌, ap, arith, inl, inr, Bool-cases, true,
  false, ◌⊎◌, ◌==◌, ==→eq, ==→ne, if◌then◌else◌, length, length-set, get_or, set, get_elem?-get_or,
  get_or-set_self, get_or-set_ne, bit_and, bit_or,
}
use nembus_os.Base.BitAt.{
  bit_at, bit_at-le, bit_at-bit_or, bit_at-bit_and, bit_at-pow, bit_at-not_pow, bit_and-pow,
}
use nembus_os.Base.Outcome.{ok}
use nembus_os.Paging.Frames.{FrameSet, set_frame, clear_frame, test_frame}

-- 1 if the frame is in use, 0 if it is free.
abbrev pub is_used : FrameSet → (f : ℕ) → ℕ
is_used fs f = bit_at (get_or fs.frames (f / 32) 0) (f % 32)

-- `fs'` is `fs` but for the frame `f`, which is in use or free as `v` says.
pub record Updates (fs fs' : FrameSet) (f v : ℕ) : Type 0 where
  pub used : (g : ℕ) → is_used fs' g ≡ (if g == f then v else is_used fs g)
  pub count : fs'.nframes ≡ fs.nframes
  pub words : length fs'.frames ≡ length fs.frames

same-place : (f g : ℕ) → f / 32 ≡ g / 32 → f % 32 ≡ g % 32 → f ≡ g
same-place f g q r = omega arith

module _ (fs : FrameSet) (f : ℕ) (inside : f / 32 < length fs.frames) where
  word : ℕ
  word = get_or fs.frames (f / 32) 0

  -- One word of the bitmap is replaced, with a known effect on its bits.
  Updates-word :
      (new v : ℕ)
      → ((j : ℕ) → j < 32 → bit_at new j ≡ (if j == f % 32 then v else bit_at word j))
      → Updates fs (record fs { frames = set fs.frames (f / 32) new }) f v
  unfolding word
  Updates-word new v bits = record {
    used = λ g. used g (Bool-cases (g / 32 == f / 32));
    count = refl;
    words = length-set fs.frames (f / 32) new;
  }
    where
      used :
          (g : ℕ)
          → ((g / 32 == f / 32) ≡ true) ⊎ ((g / 32 == f / 32) ≡ false)
          → bit_at (get_or (set fs.frames (f / 32) new) (g / 32) 0) (g % 32)
            ≡ (if g == f then v else bit_at (get_or fs.frames (g / 32) 0) (g % 32))
      used g (inl e) =
          let here : g / 32 ≡ f / 32 = ==→eq _ _ e in
          rw (here, get_or-set_self fs.frames (f / 32) new 0 inside)
            (bits (g % 32) (omega arith) ∙ ground (arith, same-place g f))
      used g (inr e) =
          let away : f / 32 ≢ g / 32 = λ p. ==→ne _ _ e (sym p) in
          rw (get_or-set_ne fs.frames (f / 32) (g / 32) new 0 away) (ground arith)

  -- For a frame whose word is in the bitmap `set_frame`, given the frame's address, puts that frame
  -- into the set and changes no other.
  pub set_frame-Updates :
      (fs' : FrameSet) × (set_frame (f * 0x1000) fs ≡ ok fs') × Updates fs fs' f 1
  unfolding set_frame word
  set_frame-Updates =
      let frame : f * 0x1000 / 0x1000 ≡ f = omega arith in
      (
        record fs { frames = set fs.frames (f / 32) (bit_or word (2 ^ (f % 32))) },
        rw (frame, get_elem?-get_or fs.frames (f / 32) 0 inside),
        Updates-word (bit_or word (2 ^ (f % 32))) 1 λ j hj.
            ground
              (arith, bit_at-bit_or word (2 ^ (f % 32)) j, bit_at-pow (f % 32) j, bit_at-le word j),
      )

  -- For such a frame `clear_frame`, given the frame's address, takes that frame out and changes no
  -- other.
  pub clear_frame-Updates :
      (fs' : FrameSet) × (clear_frame (f * 0x1000) fs ≡ ok fs') × Updates fs fs' f 0
  unfolding clear_frame word
  clear_frame-Updates =
      let frame : f * 0x1000 / 0x1000 ≡ f = omega arith in
      (
        record fs { frames = set fs.frames (f / 32) (bit_and word (2 ^ 32 - 1 - 2 ^ (f % 32))) },
        rw (frame, get_elem?-get_or fs.frames (f / 32) 0 inside),
        Updates-word (bit_and word (2 ^ 32 - 1 - 2 ^ (f % 32))) 0 λ j hj. ground (
          arith,
          bit_at-bit_and word (2 ^ 32 - 1 - 2 ^ (f % 32)) j,
          bit_at-not_pow 32 (f % 32) j (omega arith) hj,
          bit_at-le word j,
        ),
      )

  -- For such a frame the result of `test_frame`, given the frame's address, is the frame's bit in
  -- its place, so it is nonzero exactly if the frame is in use.
  test_frame-is_used : test_frame (f * 0x1000) fs ≡ ok (is_used fs f * 2 ^ (f % 32))
  unfolding test_frame
  test_frame-is_used =
      let frame : f * 0x1000 / 0x1000 ≡ f = omega arith in
      rw (frame, get_elem?-get_or fs.frames (f / 32) 0 inside)
        (ap ok (bit_and-pow (get_or fs.frames (f / 32) 0) (f % 32)))
