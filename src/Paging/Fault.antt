-- ===== src/Paging/Fault.antt =====
-- `page_fault` of src/impl/paging.c: the handler of exception 14. The processor's error code and
-- `cr2` are arguments; the message goes to the screen, and then `PANIC` halts the system.
use Prim.Native.String.{String}
use nembus_os.Base.{ℕ, Bool, not, List, [], ◌∷◌, ◌==◌, if◌then◌else◌, bit_and}
use nembus_os.Interrupts.{Regs, Machine, Course, halts}

-- A part of the message: a text, or a number in hexadecimal.
pub data Part : Type 0 where
  text : String → Part
  hex : ℕ → Part

-- `if (flag) {printf(word);}`
abbrev pub part_if : Bool → String → List Part → List Part
part_if flag word rest = if flag then text word ∷ rest else rest

abbrev pub has_bit : (err_code mask : ℕ) → Bool
has_bit err_code mask = not (bit_and err_code mask == 0)

-- What is printed; `present` is the negation of the bit. `id` is computed and not used.
unfoldable pub fault_message : (err_code faulting_address eip : ℕ) → List Part
fault_message err_code faulting_address eip =
    text "Page fault! ( "
    ∷ part_if (not (has_bit err_code 0x1)) "present " (
        part_if (has_bit err_code 0x2) "read-only " (
          part_if (has_bit err_code 0x4) "user-mode " (
            part_if (has_bit err_code 0x8) "reserved "
              (text ") at " ∷ hex faulting_address ∷ text " - EIP: " ∷ hex eip ∷ text "\n" ∷ []))))

-- `print` puts a part of the message on the screen.
module _ {K : Type 0} (print : Part → Machine K → Machine K) where
  pub print_parts : List Part → Machine K → Machine K
  print_parts [] m = m
  print_parts (p ∷ ps) m = print_parts ps (print p m)

  unfoldable pub page_fault : (faulting_address : ℕ) → Regs → Machine K → Course K
  page_fault faulting_address r m =
      halts "Page fault" (print_parts (fault_message r.err_code faulting_address r.eip) m)
