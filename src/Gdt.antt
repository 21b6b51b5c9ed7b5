-- ===== src/Gdt.antt =====
-- Descriptor tables and the task state segment: src/impl/gdt.c, src/include/gdt.h and
-- src/include/tss.h. A table is the list of its entries; an access outside it is a fault. The
-- instructions that load the tables into the processor are left out.
pub mod Fields
pub mod Install
mod Tests
use nembus_os.Base.{
  ℕ, ◌+◌, ◌-◌, ◌*◌, ◌/◌, ◌%◌, ◌^◌, List, ltb, if◌then◌else◌, length, set, replicate, bit_and,
  bit_or,
}
use nembus_os.Base.Words.{add32}
use nembus_os.Base.Outcome.{Outcome, ok, fault, ◌>>=◌}

pub record GdtEntry : Type 0 where
  pub limit_low : ℕ
  pub base_low : ℕ
  pub base_middle : ℕ
  pub access : ℕ
  pub granularity : ℕ
  pub base_high : ℕ

pub record IdtEntry : Type 0 where
  pub base_lo : ℕ
  pub sel : ℕ
  pub always0 : ℕ
  pub flags : ℕ
  pub base_hi : ℕ

-- `struct gdt_ptr` and `struct idt_ptr`
pub record TablePtr : Type 0 where
  pub limit : ℕ
  pub base : ℕ

-- `tss_entry_t`
pub record TssEntry : Type 0 where
  pub prev_tss : ℕ
  pub esp0 : ℕ
  pub ss0 : ℕ
  pub esp1 : ℕ
  pub ss1 : ℕ
  pub esp2 : ℕ
  pub ss2 : ℕ
  pub cr3 : ℕ
  pub eip : ℕ
  pub eflags : ℕ
  pub eax : ℕ
  pub ecx : ℕ
  pub edx : ℕ
  pub ebx : ℕ
  pub esp : ℕ
  pub ebp : ℕ
  pub esi : ℕ
  pub edi : ℕ
  pub es : ℕ
  pub cs : ℕ
  pub ss : ℕ
  pub ds : ℕ
  pub fs : ℕ
  pub gs : ℕ
  pub ldt : ℕ
  pub trap : ℕ
  pub iomap_base : ℕ

-- The globals, and the addresses at which they lie.
pub record Tables : Type 0 where
  pub gdt : List GdtEntry
  pub gp : TablePtr
  pub tss_entry : TssEntry
  pub idt : List IdtEntry
  pub idtp : TablePtr
  pub gdt_address : ℕ
  pub tss_address : ℕ
  pub idt_address : ℕ

abbrev pub gdt_entry : (base limit access gran : ℕ) → GdtEntry
gdt_entry base limit access gran = record {
  limit_low = limit % 2 ^ 16;
  base_low = base % 2 ^ 16;
  base_middle = base / 2 ^ 16 % 2 ^ 8;
  access = access;
  granularity = bit_or (limit / 2 ^ 16 % 2 ^ 4) (bit_and gran 0xF0);
  base_high = base / 2 ^ 24 % 2 ^ 8;
}

pub gdt_set_gate : (num base limit access gran : ℕ) → Tables → Outcome Tables
gdt_set_gate num base limit access gran t =
    if ltb num (length t.gdt)
    then ok (record t { gdt = set t.gdt num (gdt_entry base limit access gran) })
    else fault

-- `memset` of the whole segment.
abbrev pub zero_tss : TssEntry
zero_tss = record {
  prev_tss = 0;
  esp0 = 0;
  ss0 = 0;
  esp1 = 0;
  ss1 = 0;
  esp2 = 0;
  ss2 = 0;
  cr3 = 0;
  eip = 0;
  eflags = 0;
  eax = 0;
  ecx = 0;
  edx = 0;
  ebx = 0;
  esp = 0;
  ebp = 0;
  esi = 0;
  edi = 0;
  es = 0;
  cs = 0;
  ss = 0;
  ds = 0;
  fs = 0;
  gs = 0;
  ldt = 0;
  trap = 0;
  iomap_base = 0;
}

-- `sizeof(tss_entry)`: 25 words and two half words.
abbrev sizeof_tss : ℕ
sizeof_tss = 104

unfoldable write_tss : (num ss0 esp0 : ℕ) → Tables → Outcome Tables
write_tss num ss0 esp0 t = do
  t' ← gdt_set_gate num t.tss_address (add32 t.tss_address sizeof_tss) 0xE9 0x00 t
  ok (record t' {
    tss_entry = record zero_tss {
      ss0 = ss0;
      esp0 = esp0;
      cs = 0x0b;
      ss = 0x13;
      ds = 0x13;
      es = 0x13;
      fs = 0x13;
      gs = 0x13;
    };
  })

-- `sizeof(struct gdt_entry)` is 8.
pub gdt_install : Tables → Outcome Tables
gdt_install t = do
  t0 ← gdt_set_gate 0 0 0 0 0 (record t { gp = record { limit = 8 * 6 - 1; base = t.gdt_address } })
  t1 ← gdt_set_gate 1 0 0xFFFFFFFF 0x9A 0xCF t0
  t2 ← gdt_set_gate 2 0 0xFFFFFFFF 0x92 0xCF t1
  t3 ← gdt_set_gate 3 0 0xFFFFFFFF 0xFA 0xCF t2
  t4 ← gdt_set_gate 4 0 0xFFFFFFFF 0xF2 0xCF t3
  write_tss 5 0x10 0x0 t4

unfoldable pub set_kernel_stack : (stack : ℕ) → Tables → Tables
set_kernel_stack stack t = record t { tss_entry = record (t.tss_entry) { esp0 = stack } }

abbrev pub idt_entry : (base sel flags : ℕ) → IdtEntry
idt_entry base sel flags = record {
  base_lo = base % 2 ^ 16;
  sel = sel;
  always0 = 0;
  flags = bit_or flags 0x60;
  base_hi = base / 2 ^ 16 % 2 ^ 16;
}

pub idt_set_gate : (num base sel flags : ℕ) → Tables → Outcome Tables
idt_set_gate num base sel flags t =
    if ltb num (length t.idt)
    then ok (record t { idt = set t.idt num (idt_entry base sel flags) })
    else fault

-- `sizeof(struct idt_entry)` is 8.
unfoldable pub idt_install : Tables → Tables
idt_install t = record t {
  idtp = record { limit = 8 * 256 - 1; base = t.idt_address };
  idt = replicate 256 (record { base_lo = 0; sel = 0; always0 = 0; flags = 0; base_hi = 0 });
}
