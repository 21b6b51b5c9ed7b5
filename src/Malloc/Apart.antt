-- ===== src/Malloc/Apart.antt =====
-- `malloc` and `m_free` leave no two free blocks side by side.
use nembus_os.Base.{
  ℕ, ◌≡◌, Bool, true, false, ◌&&◌, List, [], ◌∷◌, refl, arith, ltb, ◌==◌, Bool-cases, inl, inr,
}
use nembus_os.Base.Words.{add32}
use nembus_os.Malloc.{
  sizeof_memory, MemoryBlock, pointer_of, is_available, use_block, take_block, join_next,
  free_block, free_behind, m_free,
}
use nembus_os.Malloc.Tiling.{IsApart, IsApart-used}

and-false : (x : Bool) → (x && false) ≡ false
and-false true = refl
and-false false = refl

available-free : (size : ℕ) (b : MemoryBlock) → is_available size b ≡ true → b.is_free ≡ true
available-free size b found = ground arith

use_block-IsApart :
    (size : ℕ) (before : Bool) (b : MemoryBlock) (bs : List MemoryBlock)
    → b.is_free ≡ true
    → IsApart before (b ∷ bs)
    → IsApart before (use_block size b bs)
use_block-IsApart size before b bs free apart =
    elim (Bool-cases (ltb (add32 size sizeof_memory) b.size)) [
      | inl split ↦ rw split (and-false before, (refl, (rw free at apart.1)))
      | inr whole ↦ rw whole (and-false before, IsApart-used b.is_free bs apart.1)
    ]

pub take_block-IsApart :
    (size : ℕ) (before : Bool) (bs : List MemoryBlock)
    → IsApart before bs
    → IsApart before (take_block size bs).0
unfolding take_block
take_block-IsApart size before [] apart = apart
take_block-IsApart size before (b ∷ bs) apart = elim (Bool-cases (is_available size b)) [
  | inl found ↦ rw found (use_block-IsApart size before b bs (available-free size b found) apart)
  | inr passed ↦ rw passed (apart.0, take_block-IsApart size b.is_free bs apart.1)
]

-- Whatever stood before the rest, a block that takes in its free neighbour has none.
join_next-IsApart :
    (before other : Bool) (b : MemoryBlock) (bs : List MemoryBlock)
    → (before && b.is_free) ≡ false
    → b.is_free ≡ true
    → IsApart other bs
    → IsApart before (join_next b bs)
join_next-IsApart before other b [] first free apart = (first, tt)
join_next-IsApart before other b (n ∷ ns) first free apart = elim (Bool-cases n.is_free) [
  | inl joined ↦
      let rest : IsApart true ns = rw joined at apart.1 in
      rw (joined, free) (rw free at first, rest)
  | inr kept ↦
      let rest : IsApart false ns = rw kept at apart.1 in
      rw kept (first, (and-false b.is_free, rest))
]

free_block-IsApart :
    (before : Bool) (previous b : MemoryBlock) (bs : List MemoryBlock)
    → IsApart before (previous ∷ b ∷ bs)
    → IsApart before (free_block previous b bs)
free_block-IsApart before previous b bs apart = elim (Bool-cases previous.is_free) [
  | inl joined ↦
      let merged =
        join_next-IsApart before b.is_free
          (record previous { size = add32 previous.size (add32 b.size sizeof_memory) }) bs apart.0
          joined apart.1.1 in
      rw joined (rw joined at merged)
  | inr kept ↦
      let first : (before && previous.is_free) ≡ false = apart.0 in
      let freed =
        join_next-IsApart false b.is_free (record b { is_free = true }) bs refl refl apart.1.1 in
      rw kept ((rw kept at first), freed)
]

free_behind-IsApart :
    (ptr : ℕ) (before : Bool) (previous : MemoryBlock) (bs : List MemoryBlock)
    → IsApart before (previous ∷ bs)
    → IsApart before (free_behind ptr previous bs)
unfolding free_behind
free_behind-IsApart ptr before previous [] apart = apart
free_behind-IsApart ptr before previous (b ∷ bs) apart = elim (Bool-cases (pointer_of b == ptr)) [
  | inl found ↦ rw found (free_block-IsApart before previous b bs apart)
  | inr passed ↦ rw passed (apart.0, free_behind-IsApart ptr previous.is_free b bs apart.1)
]

pub m_free-IsApart :
    (ptr : ℕ) (bs : List MemoryBlock) → IsApart false bs → IsApart false (m_free ptr bs)
unfolding m_free
m_free-IsApart ptr [] apart = apart
m_free-IsApart ptr (b ∷ bs) apart = elim (Bool-cases (ptr == 0)) [
  | inl null ↦ rw null apart
  | inr given ↦ elim (Bool-cases (pointer_of b == ptr)) [
    | inl found ↦
        rw (given, found)
          (join_next-IsApart false b.is_free (record b { is_free = true }) bs refl refl apart.1)
    | inr passed ↦ rw (given, passed) (free_behind-IsApart ptr false b bs apart)
  ]
]
