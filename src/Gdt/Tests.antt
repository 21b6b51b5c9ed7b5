-- ===== src/Gdt/Tests.antt =====
-- Descriptor tables of six and of three entries.
use nembus_os.Base.{ℕ, ◌≡◌, refl, replicate}
use nembus_os.Base.Outcome.{fault}
use nembus_os.Gdt.{Tables, zero_tss, gdt_entry, idt_entry, gdt_install}
use nembus_os.Gdt.Install.{gdt_install-fault}

abbrev tables_of : (entries : ℕ) → Tables
tables_of entries = record {
  gdt = replicate entries (gdt_entry 0 0 0 0);
  gp = record { limit = 0; base = 0 };
  tss_entry = zero_tss;
  idt = replicate 4 (idt_entry 0 0 0);
  idtp = record { limit = 0; base = 0 };
  gdt_address = 0x1000;
  tss_address = 0x2000;
  idt_address = 0x3000;
}

gdt_install-fault_example : gdt_install (tables_of 3) ≡ fault
gdt_install-fault_example = gdt_install-fault (tables_of 3) refl
