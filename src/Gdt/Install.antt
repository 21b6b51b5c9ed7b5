-- ===== src/Gdt/Install.antt =====
-- `gdt_install` on tables of the size that src/impl/gdt.c declares, and of the size that it fills.
use nembus_os.Base.{ℕ, ◌<◌, ◌≤◌, ◌≡◌, arith, lt→ltb, le→ltb, length, length-set, set}
use nembus_os.Base.Outcome.{ok, fault}
use nembus_os.Gdt.{Tables, gdt_entry, gdt_set_gate, gdt_install}

gate_in :
    (num base limit access gran : ℕ) (t : Tables)
    → num < length t.gdt
    → (t' : Tables) × (gdt_set_gate num base limit access gran t ≡ ok t')
      × (length t'.gdt ≡ length t.gdt)
unfolding gdt_set_gate
gate_in num base limit access gran t inside = (
  record t { gdt = set t.gdt num (gdt_entry base limit access gran) },
  rw (lt→ltb num (length t.gdt) inside),
  length-set t.gdt num (gdt_entry base limit access gran),
)

gate_out :
    (num base limit access gran : ℕ) (t : Tables)
    → length t.gdt ≤ num
    → gdt_set_gate num base limit access gran t ≡ fault
unfolding gdt_set_gate
gate_out num base limit access gran t outside = rw (le→ltb num (length t.gdt) outside)

-- The table is declared with three entries, and `gdt_install` writes six: with a table of three
-- entries it leaves its storage.
pub gdt_install-fault : (t : Tables) → length t.gdt ≡ 3 → gdt_install t ≡ fault
unfolding gdt_install
gdt_install-fault t three =
    let (t0, set0, len0) =
      gate_in 0 0 0 0 0 (record t { gp = record { limit = 47; base = t.gdt_address } })
        (omega arith) in
    let (t1, set1, len1) = gate_in 1 0 0xFFFFFFFF 0x9A 0xCF t0 (omega arith) in
    let (t2, set2, len2) = gate_in 2 0 0xFFFFFFFF 0x92 0xCF t1 (omega arith) in
    rw (set0, set1, set2, gate_out 3 0 0xFFFFFFFF 0xFA 0xCF t2 (omega arith))
