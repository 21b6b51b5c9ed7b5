-- ===== src/Gdt/Fields.antt =====
-- What the processor reads from a descriptor: the fields put together again.
use nembus_os.Base.{
  ℕ, ◌+◌, ◌*◌, ◌/◌, ◌%◌, ◌^◌, ◌<◌, ◌≡◌, ◌≢◌, refl, ◌∙◌, ap, sym, arith, some, lt→ltb, length, set,
  get_elem?, get_elem?-set_self, get_elem?-set_ne, bit_and, bit_or,
}
use nembus_os.Base.Bits.{bit_or_step, zero-bit_or, bit_and-mul_pow, bit_and-ones}
use nembus_os.Base.Outcome.{ok}
use nembus_os.Gdt.{GdtEntry, IdtEntry, Tables, gdt_entry, gdt_set_gate, idt_entry, idt_set_gate}

abbrev pub base_of : GdtEntry → ℕ
base_of e = e.base_low + 2 ^ 16 * e.base_middle + 2 ^ 24 * e.base_high

abbrev pub limit_of : GdtEntry → ℕ
limit_of e = e.limit_low + 2 ^ 16 * (e.granularity % 16)

-- The flags for the unit of the limit and the size of operands.
abbrev pub unit_of : GdtEntry → ℕ
unit_of e = e.granularity / 16

abbrev pub handler_of : IdtEntry → ℕ
handler_of e = e.base_lo + 2 ^ 16 * e.base_hi

high_nibble : (gran : ℕ) → bit_and gran 0xF0 ≡ gran / 16 % 16 * 16
high_nibble gran = omega (arith, bit_and-mul_pow 4 gran 15, bit_and-ones 4 (gran / 16))

nibbles : (low high : ℕ) → low < 16 → bit_or low (high * 16) ≡ low + high * 16
nibbles low high small = omega (
  arith,
  bit_or_step low (high * 16),
  bit_or_step (low / 2) (high * 16 / 2),
  bit_or_step (low / 2 / 2) (high * 16 / 2 / 2),
  bit_or_step (low / 2 / 2 / 2) (high * 16 / 2 / 2 / 2),
  gone,
)
  where
    gone : bit_or (low / 2 / 2 / 2 / 2) (high * 16 / 2 / 2 / 2 / 2) ≡ high
    gone =
        let nothing : low / 2 / 2 / 2 / 2 ≡ 0 = omega arith in
        let all : high * 16 / 2 / 2 / 2 / 2 ≡ high = omega arith in
        rw (nothing, all) (zero-bit_or high)

gdt_set_gate-in :
    (num base limit access gran : ℕ) (t : Tables)
    → num < length t.gdt
    → gdt_set_gate num base limit access gran t
      ≡ ok (record t { gdt = set t.gdt num (gdt_entry base limit access gran) })
unfolding gdt_set_gate
gdt_set_gate-in num base limit access gran t inside = rw (lt→ltb num (length t.gdt) inside)

-- A gate within the table gets a descriptor from which the processor reads the base, the low 20
-- bits of the limit, the access byte and the high four bits of the granularity; no other
-- descriptor changes.
pub gdt_set_gate-fields :
    (num base limit access gran : ℕ) (t : Tables)
    → num < length t.gdt
    → base < 0x100000000
    → gran < 256
    → (t' : Tables) × (e : GdtEntry) × (gdt_set_gate num base limit access gran t ≡ ok t')
      × (get_elem? t'.gdt num ≡ some e)
      × (base_of e ≡ base)
      × (limit_of e ≡ limit % 2 ^ 20)
      × (unit_of e ≡ gran / 16)
      × (e.access ≡ access)
      × ((i : ℕ) → i ≢ num → get_elem? t'.gdt i ≡ get_elem? t.gdt i)
gdt_set_gate-fields num base limit access gran t inside small byte =
    let mixed : bit_or (limit / 2 ^ 16 % 2 ^ 4) (bit_and gran 0xF0)
        ≡ limit / 2 ^ 16 % 2 ^ 4 + gran / 16 * 16 =
      ap (bit_or (limit / 2 ^ 16 % 2 ^ 4)) (high_nibble gran)
      ∙ omega (arith, nibbles (limit / 2 ^ 16 % 2 ^ 4) (gran / 16 % 16) (omega arith)) in
    (
      record t { gdt = set t.gdt num (gdt_entry base limit access gran) },
      gdt_entry base limit access gran,
      gdt_set_gate-in num base limit access gran t inside,
      get_elem?-set_self t.gdt num (gdt_entry base limit access gran) inside,
      omega arith,
      omega (arith, mixed),
      omega (arith, mixed),
      refl,
      λ i away. get_elem?-set_ne t.gdt (gdt_entry base limit access gran) (λ same. away (sym same)),
    )

pub idt_set_gate-in :
    (num base sel flags : ℕ) (t : Tables)
    → num < length t.idt
    → idt_set_gate num base sel flags t
      ≡ ok (record t { idt = set t.idt num (idt_entry base sel flags) })
unfolding idt_set_gate
idt_set_gate-in num base sel flags t inside = rw (lt→ltb num (length t.idt) inside)

-- A gate within the interrupt table gets a descriptor from which the processor reads the handler's
-- address, the selector, and flags with both privilege bits set, which makes the gate open to user
-- mode; no other descriptor changes.
pub idt_set_gate-fields :
    (num base sel flags : ℕ) (t : Tables)
    → num < length t.idt
    → base < 0x100000000
    → (t' : Tables) × (e : IdtEntry) × (idt_set_gate num base sel flags t ≡ ok t')
      × (get_elem? t'.idt num ≡ some e)
      × (handler_of e ≡ base)
      × (e.sel ≡ sel)
      × (e.flags / 32 % 4 ≡ 3)
      × ((i : ℕ) → i ≢ num → get_elem? t'.idt i ≡ get_elem? t.idt i)
idt_set_gate-fields num base sel flags t inside small = (
  record t { idt = set t.idt num (idt_entry base sel flags) },
  idt_entry base sel flags,
  idt_set_gate-in num base sel flags t inside,
  get_elem?-set_self t.idt num (idt_entry base sel flags) inside,
  omega arith,
  refl,
  privilege,
  λ i away. get_elem?-set_ne t.idt (idt_entry base sel flags) (λ same. away (sym same)),
)
  where
    privilege : bit_or flags 0x60 / 32 % 4 ≡ 3
    privilege = omega (
      arith,
      bit_or_step flags 0x60,
      bit_or_step (flags / 2) 0x30,
      bit_or_step (flags / 2 / 2) 0x18,
      bit_or_step (flags / 2 / 2 / 2) 0xC,
      bit_or_step (flags / 2 / 2 / 2 / 2) 6,
      bit_or_step (flags / 2 / 2 / 2 / 2 / 2) 3,
      bit_or_step (flags / 2 / 2 / 2 / 2 / 2 / 2) 1,
    )
