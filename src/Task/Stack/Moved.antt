-- ===== src/Task/Stack/Moved.antt =====
-- What `move_stack` leaves in the new stack.
use nembus_os.Base.{
  ℕ, zero, suc, ◌+◌, ◌-◌, ◌*◌, ◌/◌, ◌^◌, ◌<◌, ◌≤◌, ◌≡◌, ◌⊎◌, inl, inr, refl, ap, ◌∙◌, arith,
  Bool-cases, ◌&&◌, ltb, if◌then◌else◌,
}
use nembus_os.Base.Words.{add32, sub32}
use nembus_os.Memory.{Memory, load32, store32, memcpy}
use nembus_os.Memory.Laws.{
  IsBytes, load32-store32_self, load8-store32_ne, load32_congr, load32_moved,
}
use nembus_os.Memory.Blocks.{memcpy_outside, memcpy_inside}
use nembus_os.Task.Stack.{relocate, relocate_words, move_stack}

module _ (old_esp initial_esp offset : ℕ) where
  abbrev words : (i rounds : ℕ) → Memory → Memory
  words i rounds m = relocate_words old_esp initial_esp offset i rounds m

  abbrev one_word : (i : ℕ) → Memory → Memory
  one_word i m =
      if ltb old_esp (load32 m i) && ltb (load32 m i) initial_esp
      then store32 m i (add32 (load32 m i) offset)
      else m

  one_word-outside :
      (i p : ℕ) (m : Memory) → i + 4 ≤ 2 ^ 32 → (p < i) ⊎ (i + 4 ≤ p) → one_word i m p ≡ m p
  one_word-outside i p m fits out =
      elim (Bool-cases (ltb old_esp (load32 m i) && ltb (load32 m i) initial_esp)) [
        | inl points ↦ rw points (load8-store32_ne m i (add32 (load32 m i) offset) p fits out)
        | inr plain ↦ rw plain refl
      ]

  one_word-load :
      (i : ℕ) (m : Memory)
      → i + 4 ≤ 2 ^ 32
      → load32 (one_word i m) i ≡ relocate old_esp initial_esp offset (load32 m i)
  one_word-load i m fits =
      elim (Bool-cases (ltb old_esp (load32 m i) && ltb (load32 m i) initial_esp)) [
        | inl points ↦
            rw points
              (load32-store32_self m i (add32 (load32 m i) offset) (omega arith) (omega arith))
        | inr plain ↦ rw plain refl
      ]

  -- The bytes that the loop does not reach.
  words-outside :
      (rounds i p : ℕ) (m : Memory)
      → 4 * rounds ≤ i + 3
      → i + 4 ≤ 2 ^ 32
      → (p + 4 * rounds < i + 4) ⊎ (i + 4 ≤ p)
      → words i rounds m p ≡ m p
  unfolding relocate_words
  words-outside zero i p m deep fits out = refl
  words-outside (suc zero) i p m deep fits out = one_word-outside i p m fits (omega (arith, out))
  words-outside (suc (suc n)) i p m deep fits out =
      let next : sub32 i 4 ≡ i - 4 = omega arith in
      ap (λ (a : ℕ). words a (suc n) (one_word i m) p) next
      ∙ words-outside (suc n) (i - 4) p (one_word i m) (omega arith) (omega arith)
          (omega (arith, out))
      ∙ one_word-outside i p m fits (omega (arith, out))

  words-load :
      (rounds i k : ℕ) (m : Memory)
      → 4 * rounds ≤ i + 3
      → i + 4 ≤ 2 ^ 32
      → k < rounds
      → load32 (words i rounds m) (i - 4 * k)
        ≡ relocate old_esp initial_esp offset (load32 m (i - 4 * k))
  unfolding relocate_words
  words-load zero i k m deep fits small = absurd (omega arith)
  words-load (suc zero) i zero m deep fits small =
      let here : i - 4 * 0 ≡ i = omega arith in rw here (one_word-load i m fits)
  words-load (suc zero) i (suc k) m deep fits small = absurd (omega arith)
  words-load (suc (suc n)) i zero m deep fits small =
      let next : sub32 i 4 ≡ i - 4 = omega arith in
      let here : i - 4 * 0 ≡ i = omega arith in
      rw (next, here)
        (load32_congr (words (i - 4) (suc n) (one_word i m)) (one_word i m) i fits (λ q low high.
            words-outside (suc n) (i - 4) q (one_word i m) (omega arith) (omega arith)
              (inr (omega arith)))
          ∙ one_word-load i m fits)
  words-load (suc (suc n)) i (suc k) m deep fits small =
      let next : sub32 i 4 ≡ i - 4 = omega arith in
      let below : i - 4 * suc k ≡ i - 4 - 4 * k = omega arith in
      rw (next, below)
        (words-load (suc n) (i - 4) k (one_word i m) (omega arith) (omega arith) (omega arith)
          ∙ ap (relocate old_esp initial_esp offset) (
              load32_congr (one_word i m) m (i - 4 - 4 * k) (omega arith)
                (λ q low high. one_word-outside i q m fits (inl (omega arith)))))

copied-word :
    (start old_esp initial_esp n k : ℕ) (m : Memory)
    → IsBytes m
    → initial_esp ≡ old_esp + 4 * n
    → initial_esp + 4 * n ≤ start
    → start < 2 ^ 32
    → 1 ≤ k
    → k ≤ n
    → load32 (memcpy m (start - 4 * n) old_esp (4 * n)) (start - 4 * k)
      ≡ load32 m (initial_esp - 4 * k)
copied-word start old_esp initial_esp n k m bytes whole above fits low high =
    load32_moved (memcpy m (start - 4 * n) old_esp (4 * n)) m (start - 4 * k) (initial_esp - 4 * k)
      (omega arith) (omega (arith, whole))
      (λ j small.
        let source : old_esp + (start - 4 * k + j - (start - 4 * n)) ≡ initial_esp - 4 * k + j =
          omega (arith, whole) in
        memcpy_inside m (start - 4 * n) old_esp (4 * n) (start - 4 * k + j) bytes (omega arith)
          (omega (arith, whole)) (inr (omega (arith, whole))) (omega arith) (omega arith)
        ∙ ap m source)

-- A stack of `n` words, which ends at `initial_esp` and is smaller than the new one, is moved to the
-- end of the new stack, which lies above it: each of its words is there at its own distance from the
-- end, with the same value, or moved by the same distance if it points into the old stack; the old
-- stack is left as it was, and the stack pointer is moved along.
pub move_stack-words :
    (start size old_esp old_ebp initial_esp n : ℕ) (m : Memory)
    → IsBytes m
    → initial_esp ≡ old_esp + 4 * n
    → 4 * n + 4 ≤ size
    → initial_esp + size ≤ start
    → start + 4 < 2 ^ 32
    → let (m', esp, ebp) = move_stack start size old_esp old_ebp initial_esp m in
      (esp ≡ start - 4 * n)
      × ((k : ℕ)
          → 1 ≤ k
          → k ≤ n
          → load32 m' (start - 4 * k)
            ≡ relocate old_esp initial_esp (start - initial_esp) (load32 m (initial_esp - 4 * k)))
      × ((p : ℕ) → p < initial_esp → m' p ≡ m p)
unfolding move_stack
move_stack-words start size old_esp old_ebp initial_esp n m bytes whole room above fits =
    let offset : sub32 start initial_esp ≡ start - initial_esp = omega arith in
    let target : add32 old_esp (start - initial_esp) ≡ start - 4 * n = omega (arith, whole) in
    let length : sub32 initial_esp old_esp ≡ 4 * n = omega (arith, whole) in
    let copied = memcpy m (start - 4 * n) old_esp (4 * n) in
    rw (offset, target, length)
      (
        refl,
        λ k low high.
            words-load old_esp initial_esp (start - initial_esp) ((size + 3) / 4) start k copied
              (omega arith) (omega arith) (omega arith)
            ∙ ap (relocate old_esp initial_esp (start - initial_esp)) (
                copied-word start old_esp initial_esp n k m bytes whole (omega arith) (omega arith)
                  low high),
        λ p low.
            words-outside old_esp initial_esp (start - initial_esp) ((size + 3) / 4) start p copied
              (omega arith) (omega arith) (inl (omega arith))
            ∙ memcpy_outside m (start - 4 * n) old_esp (4 * n) p (omega (arith, whole))
                (inl (omega (arith, whole))),
      )
