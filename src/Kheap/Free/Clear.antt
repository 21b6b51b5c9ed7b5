-- ===== src/Kheap/Free/Clear.antt =====
-- The clearing loop of `free`: it writes words at every byte up to the footer, so the last of
-- them reaches three bytes into it.
use nembus_os.Base.{
  ℕ, zero, suc, ◌+◌, ◌-◌, ◌^◌, ◌<◌, ◌≤◌, ◌≡◌, ◌⊎◌, inl, inr, refl, ◌∙◌, arith, ap, Bool-cases, ltb,
  ltb→lt, ltb→le,
}
use nembus_os.Base.Words.{add32}
use nembus_os.Memory.{Memory, load32, store32}
use nembus_os.Memory.Laws.{load8-store32_ne, load32_bytes, IsBytes}
use nembus_os.Kheap.{heap_magic}
use nembus_os.Kheap.Blocks.{IsTagged}
use nembus_os.Kheap.Free.{clear_words}

pub clear_words_outside :
    (m : Memory) (p n q : ℕ)
    → p + n + 3 ≤ 2 ^ 32
    → (q < p) ⊎ (p + n + 3 ≤ q)
    → clear_words m p n q ≡ m q
unfolding clear_words
clear_words_outside m p zero q fits out = refl
clear_words_outside m p (suc n) q fits out =
    clear_words_outside (store32 m p 0) (add32 p 1) n q (omega arith) (omega arith)
    ∙ load8-store32_ne m p 0 q (omega arith) (omega arith)

store32_zero : (m : Memory) (p q : ℕ) → p + 4 ≤ 2 ^ 32 → p ≤ q → q < p + 4 → store32 m p 0 q ≡ 0
unfolding store32
store32_zero m p q fits lo hi = ground arith

-- Every byte that the loop writes is cleared.
clear_words_inside :
    (m : Memory) (p n q : ℕ)
    → 0 < n
    → p + n + 3 ≤ 2 ^ 32
    → p ≤ q
    → q < p + n + 3
    → clear_words m p n q ≡ 0
unfolding clear_words
clear_words_inside m p zero q some_rounds fits lo hi = absurd (omega arith)
clear_words_inside m p (suc zero) q some_rounds fits lo hi =
    store32_zero m p q (omega arith) lo (omega arith)
clear_words_inside m p (suc (suc n)) q some_rounds fits lo hi = elim (Bool-cases (ltb p q)) [
  | inl after ↦
      clear_words_inside (store32 m p 0) (add32 p 1) (suc n) q (omega arith) (omega arith)
        (omega (arith, ltb→lt p q after)) (omega arith)
  | inr at ↦
      clear_words_outside (store32 m p 0) (add32 p 1) (suc n) q (omega arith)
        (omega (arith, ltb→le p q at))
      ∙ store32_zero m p q (omega arith) lo (omega (arith, ltb→le p q at))
]

top_byte :
    (m : Memory) (p : ℕ) → p + 4 ≤ 2 ^ 32 → IsBytes m → load32 m p ≡ heap_magic → m (p + 3) ≡ 0x12
unfolding load32
top_byte m p fits b e =
    let last : add32 p 3 ≡ p + 3 = omega arith in
    omega (arith, b p, b (add32 p 1), b (add32 p 2), b (add32 p 3), ap m last)

-- Of the magic number of the footer only the top byte is left.
pub clear_words-footer :
    (m : Memory) (h flag sz : ℕ)
    → IsTagged m h flag sz
    → IsBytes m
    → 20 < sz
    → load32 (clear_words m (h + 12) (sz - 20)) (h + sz - 8) ≡ 0x12000000
clear_words-footer m h flag sz t b big =
    let cleared = λ (q : ℕ) (lo : h + 12 ≤ q) (hi : q < h + sz - 5).
      clear_words_inside m (h + 12) (sz - 20) q (omega arith) (omega (arith, t.fits)) lo
        (omega arith) in
    let kept : clear_words m (h + 12) (sz - 20) (h + sz - 8 + 3) ≡ m (h + sz - 8 + 3) =
      clear_words_outside m (h + 12) (sz - 20) (h + sz - 8 + 3) (omega (arith, t.fits))
        (omega arith) in
    load32_bytes (clear_words m (h + 12) (sz - 20)) (h + sz - 8) 0 0 0 0x12 (omega (arith, t.fits))
      (cleared (h + sz - 8) (omega arith) (omega arith))
      (cleared (h + sz - 8 + 1) (omega arith) (omega arith))
      (cleared (h + sz - 8 + 2) (omega arith) (omega arith))
      (kept ∙ top_byte m (h + sz - 8) (omega (arith, t.fits)) b t.foot)
