-- ===== src/Initrd/Read.antt =====
-- `initrd_read`: how much it reads, and from where.
use nembus_os.Base.{
  ℕ, ◌+◌, ◌-◌, ◌^◌, ◌<◌, ◌≤◌, ◌≡◌, ◌⊎◌, inl, inr, refl, ◌∙◌, ap, arith, some, ltb, lt→ltb, le→ltb,
  min, if◌then◌else◌, get_elem?, Bool-cases, ltb→lt, ltb→le,
}
use nembus_os.Base.Words.{add32, sub32}
use nembus_os.Base.Outcome.{ok}
use nembus_os.Memory.{memcpy}
use nembus_os.Memory.Laws.{IsBytes}
use nembus_os.Memory.Blocks.{memcpy_inside, memcpy_outside}
use nembus_os.Initrd.{FileHeader, Initrd, read}

-- What a read leaves: `n` bytes of the file from `offset` on, in the buffer.
pub record HasRead (h : FileHeader) (offset n buffer : ℕ) (d d' : Initrd) : Type 0 where
  pub bytes :
      (p : ℕ) → buffer ≤ p → p < buffer + n → d'.mem p ≡ d.mem (h.offset + offset + (p - buffer))
  pub same : (p : ℕ) → (p < buffer) ⊎ (buffer + n ≤ p) → d'.mem p ≡ d.mem p
  pub headers : d'.file_headers ≡ d.file_headers

module _ (d : Initrd) (h : FileHeader) (inode : ℕ)
    (at : get_elem? d.file_headers inode ≡ some h) where
  -- Behind the end of the file nothing is read.
  read_beyond :
      (offset size buffer : ℕ) → h.length < offset → read inode offset size buffer d ≡ ok (d, 0)
  unfolding read
  read_beyond offset size buffer beyond = rw (at, lt→ltb h.length offset beyond)

  read-length :
      (offset size buffer n : ℕ)
      → offset ≤ h.length
      → (if ltb h.length (add32 offset size) then sub32 h.length offset else size) ≡ n
      → read inode offset size buffer d
        ≡ ok (record d { mem = memcpy d.mem buffer (add32 h.offset offset) n }, n)
  unfolding read
  read-length offset size buffer n inside e = rw (at, le→ltb h.length offset inside, e)

  -- Where `offset + size` does not wrap, `offset` is in the file, and the file and the buffer lie in
  -- memory, the buffer not behind the start of what is read, the read takes what is left of the file, `size` bytes at
  -- most, copies just these bytes into the buffer, and returns their number.
  pub read-HasRead :
      (offset size buffer : ℕ)
      → IsBytes d.mem
      → offset ≤ h.length
      → h.length < 2 ^ 32
      → offset + size < 2 ^ 32
      → h.offset + h.length < 2 ^ 32
      → buffer + size < 2 ^ 32
      → (buffer ≤ h.offset + offset) ⊎ (h.offset + h.length ≤ buffer)
      → (d' : Initrd) × (read inode offset size buffer d ≡ ok (d', min size (h.length - offset)))
        × HasRead h offset (min size (h.length - offset)) buffer d d'
  read-HasRead offset size buffer b inside small no_wrap fits room apart = (
    record d { mem = memcpy d.mem buffer (add32 h.offset offset) (min size (h.length - offset)) },
    read-length offset size buffer (min size (h.length - offset)) inside count,
    record {
      bytes = λ p lo hi.
          let from : add32 h.offset offset + (p - buffer) ≡ h.offset + offset + (p - buffer) =
            omega arith in
          memcpy_inside d.mem buffer (add32 h.offset offset) (min size (h.length - offset)) p b
            (omega arith) (omega arith) (omega arith) lo hi
          ∙ ap d.mem from;
      same = λ p out.
          memcpy_outside d.mem buffer (add32 h.offset offset) (min size (h.length - offset)) p
            (omega arith) out;
      headers = refl;
    },
  )
    where
      count :
          (if ltb h.length (add32 offset size) then sub32 h.length offset else size)
          ≡ min size (h.length - offset)
      count = elim (Bool-cases (ltb h.length (add32 offset size))) [
        | inl over ↦ rw over (omega (arith, ltb→lt h.length (add32 offset size) over))
        | inr within ↦ rw within (omega (arith, ltb→le h.length (add32 offset size) within))
      ]

  -- Where `offset + size` wraps to a place in the file, the check passes and all `size` bytes are
  -- read, though fewer are left.
  pub read_overrun :
      (offset size buffer : ℕ)
      → offset ≤ h.length
      → size < 2 ^ 32
      → 2 ^ 32 ≤ offset + size
      → offset + size ≤ 2 ^ 32 + h.length
      → h.length < 2 ^ 32
      → (d' : Initrd) × (read inode offset size buffer d ≡ ok (d', size))
        × (h.length - offset < size)
  read_overrun offset size buffer inside small wraps low fits = (
    record d { mem = memcpy d.mem buffer (add32 h.offset offset) size },
    read-length offset size buffer size inside passed,
    omega arith,
  )
    where
      passed : (if ltb h.length (add32 offset size) then sub32 h.length offset else size) ≡ size
      passed = rw (le→ltb h.length (add32 offset size) (omega arith))
