-- ===== src/Memory/Blocks.antt =====
-- `memcpy` and `memset` against the block that they are to write.
use nembus_os.Base.{
  ℕ, zero, suc, ◌+◌, ◌-◌, ◌%◌, ◌^◌, ◌<◌, ◌≤◌, ◌≡◌, ◌⊎◌, inl, inr, ◌==◌, refl, arith, Bool-cases,
  ==→eq, ==→ne, ◌∙◌, ap,
}
use nembus_os.Base.Words.{add32}
use nembus_os.Memory.{Memory, store8, memcpy, memset}
use nembus_os.Memory.Laws.{load8-store8_self, load8-store8_ne, store8-IsBytes, IsBytes}

-- Bytes outside the destination are left alone.
pub memcpy_outside :
    (m : Memory) (dest src len p : ℕ)
    → dest + len < 2 ^ 32
    → (p < dest) ⊎ (dest + len ≤ p)
    → memcpy m dest src len p ≡ m p
unfolding memcpy
memcpy_outside m dest src zero p fits out = refl
memcpy_outside m dest src (suc len) p fits out =
    memcpy_outside (store8 m dest (m src)) (add32 dest 1) (add32 src 1) len p (omega arith)
      (omega arith)
    ∙ load8-store8_ne m dest (m src) p (omega arith)

-- The destination block holds the source block's bytes, as they were before the call, if the
-- blocks do not overlap or the destination lies below the source.
pub memcpy_inside :
    (m : Memory) (dest src len p : ℕ)
    → IsBytes m
    → dest + len < 2 ^ 32
    → src + len < 2 ^ 32
    → (dest ≤ src) ⊎ (src + len ≤ dest)
    → dest ≤ p
    → p < dest + len
    → memcpy m dest src len p ≡ m (src + (p - dest))
unfolding memcpy
memcpy_inside m dest src zero p b fd fs apart lo hi = absurd (omega arith)
memcpy_inside m dest src (suc len) p b fd fs apart lo hi = elim (Bool-cases (p == dest)) [
  | inl e ↦
      let at : p ≡ dest = ==→eq p dest e in
      let gone : src + (p - dest) ≡ src = omega arith in
      memcpy_outside (store8 m dest (m src)) (add32 dest 1) (add32 src 1) len p (omega arith)
        (omega arith)
      ∙ omega
          (arith, ap (store8 m dest (m src)) at, load8-store8_self m dest (m src), b src, ap m gone)
  | inr e ↦
      let off = ==→ne p dest e in
      let next : add32 src 1 + (p - add32 dest 1) ≡ src + (p - dest) = omega arith in
      memcpy_inside (store8 m dest (m src)) (add32 dest 1) (add32 src 1) len p
        (store8-IsBytes m dest (m src) b) (omega arith) (omega arith) (omega arith) (omega arith)
        (omega arith)
      ∙ ap (store8 m dest (m src)) next
      ∙ load8-store8_ne m dest (m src) (src + (p - dest)) (omega arith)
]

memset_outside :
    (m : Memory) (dest val len p : ℕ)
    → dest + len < 2 ^ 32
    → (p < dest) ⊎ (dest + len ≤ p)
    → memset m dest val len p ≡ m p
unfolding memset
memset_outside m dest val zero p fits out = refl
memset_outside m dest val (suc len) p fits out =
    memset_outside (store8 m dest val) (add32 dest 1) val len p (omega arith) (omega arith)
    ∙ load8-store8_ne m dest val p (omega arith)

memset_inside :
    (m : Memory) (dest val len p : ℕ)
    → dest + len < 2 ^ 32
    → dest ≤ p
    → p < dest + len
    → memset m dest val len p ≡ val % 256
unfolding memset
memset_inside m dest val zero p fits lo hi = absurd (omega arith)
memset_inside m dest val (suc len) p fits lo hi = elim (Bool-cases (p == dest)) [
  | inl e ↦
      memset_outside (store8 m dest val) (add32 dest 1) val len p (omega arith)
        (omega (arith, ==→eq p dest e))
      ∙ ap (store8 m dest val) (==→eq p dest e)
      ∙ load8-store8_self m dest val
  | inr e ↦
      memset_inside (store8 m dest val) (add32 dest 1) val len p (omega arith)
        (omega (arith, ==→ne p dest e)) (omega arith)
]
