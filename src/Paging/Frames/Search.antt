-- ===== src/Paging/Frames/Search.antt =====
-- `first_frame` against the set that the bitmap stands for.
use nembus_os.Base.{
  ℕ, zero, suc, ◌+◌, ◌*◌, ◌/◌, ◌%◌, ◌^◌, ◌<◌, ◌≤◌, ◌≡◌, ◌⊎◌, refl, ◌∙◌, ap, arith, inl, inr,
  Bool-cases, true, false, ◌==◌, ==→eq, ==→ne, ltb, ltb→lt, ltb→le, Option, none, some, length,
  get_or, get_elem?-get_or, bit_and,
}
use nembus_os.Base.BitAt.{bit_at, bit_at-le, bit_at-ones, bit_and-pow}
use nembus_os.Base.Bits.{pos_pow}
use nembus_os.Base.Words.{w32}
use nembus_os.Base.Outcome.{Outcome, ok}
use nembus_os.Paging.Frames.{FrameSet, first_bit, first_word, first_frame}
use nembus_os.Paging.Frames.Bitmap.{is_used}

-- What the inner loop finds among the bits from `j` on.
abbrev FirstBit : (word j n : ℕ) → Option ℕ → Type 0
FirstBit word j n none = (k : ℕ) → j ≤ k → k < j + n → bit_at word k ≡ 1
FirstBit word j n (some r) =
    (r < j + n) × (bit_at word r ≡ 0) × ((k : ℕ) → j ≤ k → k < r → bit_at word k ≡ 1)

bit-clear : (word j : ℕ) → (bit_and word (2 ^ j) == 0) ≡ true → bit_at word j ≡ 0
bit-clear word j e = zero_or (bit_at word j) (bit_at-le word j) refl
  where
    zero_or : (b : ℕ) → b ≤ 1 → bit_at word j ≡ b → b ≡ 0
    zero_or zero le at = refl
    zero_or (suc b) le at = absurd (
        omega (
          arith,
          ==→eq (bit_and word (2 ^ j)) 0 e,
          bit_and-pow word j,
          pos_pow j,
          ap (λ (t : ℕ). t * 2 ^ j) at,
        ))

bit-set : (word j : ℕ) → (bit_and word (2 ^ j) == 0) ≡ false → bit_at word j ≡ 1
bit-set word j e = one_or (bit_at word j) (bit_at-le word j) refl
  where
    one_or : (b : ℕ) → b ≤ 1 → bit_at word j ≡ b → b ≡ 1
    one_or zero le at = absurd (
        ==→ne (bit_and word (2 ^ j)) 0 e
          (omega (arith, bit_and-pow word j, ap (λ (t : ℕ). t * 2 ^ j) at)))
    one_or (suc b) le at = omega arith

first_bit-FirstBit : (word j n : ℕ) → FirstBit word j n (first_bit word j n)
unfolding first_bit
first_bit-FirstBit word j zero = λ k lo hi. absurd (omega arith)
first_bit-FirstBit word j (suc n) = elim (Bool-cases (bit_and word (2 ^ j) == 0)) [
  | inl clear ↦ rw clear (omega arith, bit-clear word j clear, λ k lo hi. absurd (omega arith))
  | inr used ↦
      rw used (
        extend (first_bit word (j + 1) n) (first_bit-FirstBit word (j + 1) n) (bit-set word j used))
]
  where
    below :
        (r : ℕ)
        → bit_at word j ≡ 1
        → ((k : ℕ) → j + 1 ≤ k → k < r → bit_at word k ≡ 1)
        → (k : ℕ) → j ≤ k
        → k < r
        → bit_at word k ≡ 1
    below r one more k lo hi = elim (Bool-cases (ltb j k)) [
      | inl later ↦ more k (omega (arith, ltb→lt j k later)) hi
      | inr same ↦ let here : k ≡ j = omega (arith, ltb→le j k same) in rw here one
    ]

    extend :
        (r : Option ℕ) → FirstBit word (j + 1) n r → bit_at word j ≡ 1 → FirstBit word j (suc n) r
    extend none all one = λ k lo hi. below (j + 1 + n) one all k lo (omega arith)
    extend (some r) (lt, clear, all) one = (omega arith, clear, below r one all)

-- `r` is the first free frame below `limit`, or 0 where every frame below it is in use.
abbrev pub IsFirstFree : FrameSet → (limit r : ℕ) → Type 0
IsFirstFree fs limit r =
    ((r ≡ 0) × ((f : ℕ) → f < limit → is_used fs f ≡ 1))
    ⊎ ((r < limit) × (is_used fs r ≡ 0) × ((f : ℕ) → f < r → is_used fs f ≡ 1))

module _ (fs : FrameSet) where
  abbrev AllUsed : (limit : ℕ) → Type 0
  AllUsed limit = (f : ℕ) → f < limit → is_used fs f ≡ 1

  -- The frames of one more word are in use.
  next_word :
      (i : ℕ)
      → AllUsed (i * 32)
      → ((k : ℕ) → k < 32 → bit_at (get_or fs.frames i 0) k ≡ 1)
      → AllUsed ((i + 1) * 32)
  next_word i used bits f hf = elim (Bool-cases (ltb f (i * 32))) [
    | inl old ↦ used f (ltb→lt f (i * 32) old)
    | inr new ↦
        let here : f / 32 ≡ i = omega (arith, ltb→le f (i * 32) new) in
        rw here (bits (f % 32) (omega arith))
  ]

  found_word :
      (i j : ℕ)
      → AllUsed (i * 32)
      → FirstBit (get_or fs.frames i 0) 0 32 (some j)
      → (is_used fs (i * 32 + j) ≡ 0) × AllUsed (i * 32 + j)
  found_word i j used (lt, clear, bits) =
      let word_at : (i * 32 + j) / 32 ≡ i = omega arith in
      let bit : (i * 32 + j) % 32 ≡ j = omega arith in
      (
        rw (word_at, bit) clear,
        λ f hf. elim (Bool-cases (ltb f (i * 32))) [
          | inl old ↦ used f (ltb→lt f (i * 32) old)
          | inr new ↦
              let here : f / 32 ≡ i = omega (arith, ltb→le f (i * 32) new) in
              rw here (bits (f % 32) (omega arith) (omega (arith, ltb→le f (i * 32) new)))
        ],
      )

  abbrev Found : (limit : ℕ) → Outcome ℕ → Type 0
  Found limit o = (r : ℕ) × (o ≡ ok r) × IsFirstFree fs limit r

  -- One round of the outer loop: the word is full, or a bit of it is the answer.
  first_word-step :
      (i n limit : ℕ)
      → i < length fs.frames
      → (i + 1) * 32 ≤ limit
      → limit < w32
      → AllUsed (i * 32)
      → (AllUsed ((i + 1) * 32) → Found limit (first_word fs.frames (i + 1) n))
      → Found limit (first_word fs.frames i (suc n))
  unfolding first_word
  first_word-step i n limit inside below small used rest =
      rw (get_elem?-get_or fs.frames i 0 inside) (elim (Bool-cases (w == 0xFFFFFFFF)) [
        | inl full ↦ rw full (
            rest (
              next_word i used
                λ k hk. ap (λ (t : ℕ). bit_at t k) (==→eq w 0xFFFFFFFF full) ∙ bit_at-ones 32 k hk))
        | inr room ↦ rw room (search (first_bit w 0 32) refl (first_bit-FirstBit w 0 32))
      ])
    where
      w : ℕ
      w = get_or fs.frames i 0

      search :
          (o : Option ℕ)
          → first_bit w 0 32 ≡ o
          → FirstBit w 0 32 o
          → Found limit (elim (first_bit w 0 32) [
            | none ↦ first_word fs.frames (i + 1) n
            | some j ↦ ok ((i * 4 * 8 + j) % w32)
          ])
      search none e bits = rw e (rest (next_word i used λ k hk. bits k (omega arith) (omega arith)))
      search (some j) e bits =
          let (free, before) = found_word i j used bits in
          let plain : (i * 4 * 8 + j) % w32 ≡ i * 32 + j = omega (arith, bits.0) in
          rw e (i * 32 + j, ap ok plain, inr (omega (arith, bits.0), free, before))

  first_word-IsFirstFree :
      (i n limit : ℕ)
      → i + n ≤ length fs.frames
      → limit ≡ (i + n) * 32
      → limit < w32
      → AllUsed (i * 32)
      → Found limit (first_word fs.frames i n)
  unfolding first_word
  first_word-IsFirstFree i zero limit fits e small used =
      (0, refl, inl (refl, λ f hf. used f (omega arith)))
  first_word-IsFirstFree i (suc n) limit fits e small used =
      first_word-step i n limit (omega arith) (omega arith) small used
        (first_word-IsFirstFree (i + 1) n limit (omega arith) (omega arith) small)

  -- Where the bitmap has a word for every 32 frames, `first_frame` finds the first free frame of
  -- these words, and answers 0 where there is none.
  pub first_frame-IsFirstFree :
      fs.nframes / 32 ≤ length fs.frames
      → fs.nframes < w32
      → (r : ℕ) × (first_frame fs ≡ ok r) × IsFirstFree fs (fs.nframes / 32 * 32) r
  unfolding first_frame
  first_frame-IsFirstFree fits small =
      first_word-IsFirstFree 0 (fs.nframes / 32) (fs.nframes / 32 * 32) (omega arith) (omega arith)
        (omega arith) (λ f hf. absurd (omega arith))
