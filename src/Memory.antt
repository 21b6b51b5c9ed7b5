-- ===== src/Memory.antt =====
-- The byte-addressed memory of the machine, and the two block operations of src/impl/memory.c.
-- An address is a number below 2 ^ 32, and each address holds a byte. A 32-bit word is stored with
-- its lowest byte first, as the i386 does it.
pub mod Laws
pub mod Blocks
use nembus_os.Base.{ℕ, zero, suc, ◌+◌, ◌*◌, ◌/◌, ◌%◌, if◌then◌else◌, ◌==◌}
use nembus_os.Base.Words.{add32}

abbrev pub Memory : Type 0
Memory = ℕ → ℕ

unfoldable pub store8 : Memory → ℕ → ℕ → Memory
store8 m a v p = if p == a then v % 256 else m p

unfoldable pub load32 : Memory → ℕ → ℕ
load32 m a = m a + 256 * m (add32 a 1) + 65536 * m (add32 a 2) + 16777216 * m (add32 a 3)

unfoldable pub store32 : Memory → ℕ → ℕ → Memory
unfolding store8
store32 m a v =
    store8 (store8 (store8 (store8 m a v) (add32 a 1) (v / 256)) (add32 a 2) (v / 65536))
      (add32 a 3) (v / 16777216)

-- `memcpy`: the loop runs from the lowest address up, a byte at a time.
pub memcpy : Memory → (dest src len : ℕ) → Memory
memcpy m dest src zero = m
memcpy m dest src (suc len) = memcpy (store8 m dest (m src)) (add32 dest 1) (add32 src 1) len

-- `memset`
pub memset : Memory → (dest val len : ℕ) → Memory
memset m dest val zero = m
memset m dest val (suc len) = memset (store8 m dest val) (add32 dest 1) val len
