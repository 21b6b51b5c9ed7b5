-- ===== src/Malloc/Kept.antt =====
-- `m_free` of one pointer leaves the blocks in use at other pointers alone.
use mathlib.Core.List.{Memᴰ}
use nembus_os.Base.{
  ℕ, ◌≡◌, ◌≢◌, ◌⊎◌, inl, inr, ap, ◌∙◌, Bool, true, false, List, [], ◌∷◌, arith, ◌==◌, if◌then◌else◌,
  Bool-cases, ==→eq,
}
use nembus_os.Base.Words.{add32}
use nembus_os.Malloc.{
  sizeof_memory, MemoryBlock, pointer_of, join_next, free_block, free_behind, m_free,
}
use nembus_os.Malloc.Isolated.{IsUsed, used-cons, used-cases, used-rest}

if-false :
    (x : List MemoryBlock) {y : List MemoryBlock} {c : MemoryBlock} {t : Bool}
    → t ≡ false
    → IsUsed y c
    → IsUsed (if t then x else y) c
if-false x e u = rw e u

join_next-used :
    (b : MemoryBlock) (bs : List MemoryBlock) (c : MemoryBlock)
    → IsUsed bs c
    → IsUsed (join_next b bs) c
join_next-used b [] c u = elim u.among [ ]
join_next-used b (n ∷ ns) c u = elim (Bool-cases n.is_free) [
  | inl joined ↦ rw joined (used-cons _ ns c (used-rest n ns c joined u))
  | inr kept ↦ if-false _ kept (used-cons b (n ∷ ns) c u)
]

-- The block that is freed is not the one that is kept.
not-freed :
    (ptr : ℕ) (b : MemoryBlock) (bs : List MemoryBlock) (c : MemoryBlock)
    → (pointer_of b == ptr) ≡ true
    → pointer_of c ≢ ptr
    → IsUsed (b ∷ bs) c
    → IsUsed bs c
not-freed ptr b bs c found other u = elim (used-cases b bs c u) [
  | inl e ↦ absurd (other (ap pointer_of e ∙ ==→eq (pointer_of b) ptr found))
  | inr later ↦ later
]

free_block-used :
    (previous b : MemoryBlock) (bs : List MemoryBlock) (c : MemoryBlock)
    → (c ≡ previous) ⊎ IsUsed bs c
    → c.is_free ≡ false
    → IsUsed (free_block previous b bs) c
free_block-used previous b bs c place used = elim (Bool-cases previous.is_free) [
  | inl joined ↦ elim place [
    | inl e ↦ absurd (ground (arith, ap (λ (k : MemoryBlock). k.is_free) e))
    | inr later ↦
        let merged =
          join_next-used
            (record previous { size = add32 previous.size (add32 b.size sizeof_memory) }) bs c
            later in
        rw joined (rw joined at merged)
  ]
  | inr kept ↦ elim place [
    | inl e ↦ if-false _ kept record { among = Memᴰ.head e; used = used }
    | inr later ↦
        if-false _ kept
          (used-cons previous _ c (join_next-used (record b { is_free = true }) bs c later))
  ]
]

free_behind-used :
    (ptr : ℕ) (previous : MemoryBlock) (bs : List MemoryBlock) (c : MemoryBlock)
    → pointer_of c ≢ ptr
    → IsUsed (previous ∷ bs) c
    → IsUsed (free_behind ptr previous bs) c
unfolding free_behind
free_behind-used ptr previous [] c other u = u
free_behind-used ptr previous (b ∷ bs) c other u = elim (Bool-cases (pointer_of b == ptr)) [
  | inl found ↦ rw found (
      free_block-used previous b bs c
        (elim (used-cases previous (b ∷ bs) c u) [
          | inl e ↦ inl e
          | inr later ↦ inr (not-freed ptr b bs c found other later)
        ])
        u.used)
  | inr passed ↦ rw passed (elim (used-cases previous (b ∷ bs) c u) [
    | inl e ↦ record { among = Memᴰ.head e; used = u.used }
    | inr later ↦ used-cons previous _ c (free_behind-used ptr b bs c other later)
  ])
]

pub m_free-used :
    (ptr : ℕ) (bs : List MemoryBlock) (c : MemoryBlock)
    → pointer_of c ≢ ptr
    → IsUsed bs c
    → IsUsed (m_free ptr bs) c
unfolding m_free
m_free-used ptr [] c other u = u
m_free-used ptr (b ∷ bs) c other u = elim (Bool-cases (ptr == 0)) [
  | inl null ↦ rw null u
  | inr given ↦ elim (Bool-cases (pointer_of b == ptr)) [
    | inl found ↦
        rw (given, found)
          (join_next-used (record b { is_free = true }) bs c (not-freed ptr b bs c found other u))
    | inr passed ↦ rw (given, passed) (free_behind-used ptr b bs c other u)
  ]
]
