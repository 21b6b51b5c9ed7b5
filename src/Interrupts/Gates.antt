-- ===== src/Interrupts/Gates.antt =====
-- The interrupt table after `isrs_install` and `irq_install`.
use nembus_os.Base.{
  ℕ, zero, suc, ◌+◌, ◌-◌, ◌/◌, ◌%◌, ◌^◌, ◌≤◌, ◌<◌, ◌≡◌, ◌≢◌, ◌⊎◌, inl, inr, refl, sym, ap, ◌∙◌,
  arith, Option, none, some, List, [], ◌∷◌, ◌++◌, ltb, ◌==◌, if◌then◌else◌, length, set, get_elem?,
  All, All-append, Bool-cases, le→ltb, ne→==, eq→==, ==→eq, ==→ne, length-set, get_elem?-set_self,
  get_elem?-set_ne, ltb→lt, ltb→le,
}
use nembus_os.Base.Outcome.{ok, ◌>>=◌}
use nembus_os.Gdt.{IdtEntry, Tables}
use nembus_os.Gdt.Fields.{idt_set_gate-in}
use nembus_os.Interrupts.{
  Machine, set_gates, isr_gates, irq_gates, isrs_install, irq_install, irq_remap,
}

-- The gate of a stub: both halves of its address, the kernel's code segment, and the flags of a
-- present 32-bit interrupt gate that user mode may call.
abbrev pub gate_of : (stub : ℕ) → IdtEntry
gate_of stub = record {
  base_lo = stub % 2 ^ 16;
  sel = 0x08;
  always0 = 0;
  flags = 0xEE;
  base_hi = stub / 2 ^ 16 % 2 ^ 16;
}

-- The writes that set up the two controllers, the last first: the numbers of their requests start
-- at 0x20 and 0x28, and none is masked.
abbrev pub controller_setup : List (ℕ × ℕ)
controller_setup =
    (0xA1, 0x00)
    ∷ (0x21, 0x00)
    ∷ (0xA1, 0x01)
    ∷ (0x21, 0x01)
    ∷ (0xA1, 0x02)
    ∷ (0x21, 0x04)
    ∷ (0xA1, 0x28)
    ∷ (0x21, 0x20)
    ∷ (0xA0, 0x11)
    ∷ (0x20, 0x11)
    ∷ []

abbrev or_else : Option ℕ → Option ℕ → Option ℕ
or_else none other = other
or_else (some s) other = some s

-- The last stub that the calls give to the number `i`.
abbrev stub_of : List (ℕ × ℕ) → (i : ℕ) → Option ℕ
stub_of [] i = none
stub_of ((num, stub) ∷ rest) i = or_else (stub_of rest i) (if i == num then some stub else none)

-- The entry that a number has after the calls.
abbrev pub entry_after : Option ℕ → Option IdtEntry → Option IdtEntry
entry_after none before = before
entry_after (some stub) before = some (gate_of stub)

entry_after-step :
    (num stub i : ℕ) (idt : List IdtEntry) (later : Option ℕ)
    → num < length idt
    → entry_after later (get_elem? (set idt num (gate_of stub)) i)
      ≡ entry_after (or_else later (if i == num then some stub else none)) (get_elem? idt i)
entry_after-step num stub i idt (some s) inside = refl
entry_after-step num stub i idt none inside = elim (Bool-cases (i == num)) [
  | inl here ↦ rw here (
      ap (get_elem? (set idt num (gate_of stub))) (==→eq i num here)
      ∙ get_elem?-set_self idt num (gate_of stub) inside)
  | inr away ↦ rw away (get_elem?-set_ne idt (gate_of stub) (λ same. ==→ne i num away (sym same)))
]

-- Calls for numbers within the table all succeed, and change nothing but the gates of the numbers.
set_gates-entries :
    (gates : List (ℕ × ℕ)) (t : Tables)
    → All (λ (g : ℕ × ℕ). g.0 < length t.idt) gates
    → (idt : List IdtEntry) × (set_gates gates t ≡ ok (record t { idt = idt }))
      × (length idt ≡ length t.idt)
      × ((i : ℕ) → get_elem? idt i ≡ entry_after (stub_of gates i) (get_elem? t.idt i))
unfolding set_gates
set_gates-entries [] t inside = (t.idt, refl, refl, λ i. refl)
set_gates-entries ((num, stub) ∷ rest) t inside =
    let idt0 = set t.idt num (gate_of stub) in
    let same = length-set t.idt num (gate_of stub) in
    let (idt, done, size, entries) =
      set_gates-entries rest (record t { idt = idt0 }) (rw same inside.1) in
    (
      idt,
      rw (idt_set_gate-in num stub 0x08 0x8E t inside.0) done,
      size ∙ same,
      λ i. entries i ∙ entry_after-step num stub i t.idt (stub_of rest i) inside.0,
    )

-- Numbers in a row, each with the stub of its place.
abbrev gates_from : (base k n : ℕ) (stub : ℕ → ℕ) → List (ℕ × ℕ)
gates_from base k zero stub = []
gates_from base k (suc n) stub = (base + k, stub k) ∷ gates_from base (suc k) n stub

gates_from-out :
    (base k n i : ℕ) (stub : ℕ → ℕ)
    → (i < base + k) ⊎ (base + k + n ≤ i)
    → stub_of (gates_from base k n stub) i ≡ none
gates_from-out base k zero i stub out = refl
gates_from-out base k (suc n) i stub out = rw (
  gates_from-out base (suc k) n i stub (omega (arith, out)),
  ne→== i (base + k) (omega (arith, out)),
)

gates_from-in :
    (base k n j : ℕ) (stub : ℕ → ℕ)
    → k ≤ j
    → j < k + n
    → stub_of (gates_from base k n stub) (base + j) ≡ some (stub j)
gates_from-in base k zero j stub lo hi = absurd (omega arith)
gates_from-in base k (suc n) j stub lo hi = elim (Bool-cases (ltb k j)) [
  | inl above ↦
      rw (gates_from-in base (suc k) n j stub (omega (arith, ltb→lt k j above)) (omega arith))
  | inr here ↦
      let at : j ≡ k = omega (arith, ltb→le k j here) in
      rw
        (
          gates_from-out base (suc k) n (base + j) stub (inl (omega arith)),
          eq→== (base + j) (base + k) (omega arith),
          at,
        )
        refl
]

gates_from-inside :
    (base k n size : ℕ) (stub : ℕ → ℕ)
    → base + k + n ≤ size
    → All (λ (g : ℕ × ℕ). g.0 < size) (gates_from base k n stub)
gates_from-inside base k zero size stub small = tt
gates_from-inside base k (suc n) size stub small =
    (omega arith, gates_from-inside base (suc k) n size stub (omega arith))

or_else-none : (found : Option ℕ) → found ≡ or_else found none
or_else-none none = refl
or_else-none (some s) = refl

or_else_assoc : (x y z : Option ℕ) → or_else (or_else x y) z ≡ or_else x (or_else y z)
or_else_assoc none y z = refl
or_else_assoc (some s) y z = refl

stub_of-append :
    (gs hs : List (ℕ × ℕ)) (i : ℕ) → stub_of (gs ++ hs) i ≡ or_else (stub_of hs i) (stub_of gs i)
stub_of-append [] hs i = or_else-none (stub_of hs i)
stub_of-append ((num, stub) ∷ gs) hs i =
    rw (stub_of-append gs hs i)
      (or_else_assoc (stub_of hs i) (stub_of gs i) (if i == num then some stub else none))

-- The stub that each number is to have: the exceptions, the interrupt requests, the system call.
abbrev pub vector : (isr irq : ℕ → ℕ) (isr128 i : ℕ) → Option ℕ
vector isr irq isr128 i =
    if ltb i 32
    then some (isr i)
    else if ltb i 48
    then some (irq (i - 32))
    else if i == 128
    then some isr128
    else none

isr_gates-vector :
    (isr : ℕ → ℕ) (i : ℕ) → stub_of (isr_gates isr) i ≡ (if ltb i 32 then some (isr i) else none)
isr_gates-vector isr i = elim (Bool-cases (ltb i 32)) [
  | inl below ↦
      let at : 0 + i ≡ i = omega arith in
      rw below (
        ap (stub_of (isr_gates isr)) (sym at)
        ∙ gates_from-in 0 0 32 i isr (omega arith) (ltb→lt i 32 below))
  | inr above ↦ rw above (gates_from-out 0 0 32 i isr (inr (ltb→le i 32 above)))
]

irq_gates-vector :
    (irq : ℕ → ℕ) (isr128 i : ℕ)
    → 32 ≤ i
    → stub_of (irq_gates irq isr128) i
      ≡ (if ltb i 48 then some (irq (i - 32)) else if i == 128 then some isr128 else none)
irq_gates-vector irq isr128 i behind =
    let split = stub_of-append (gates_from 32 0 16 irq) ((128, isr128) ∷ []) i in
    elim (Bool-cases (ltb i 48)) [
      | inl below ↦
          let at : 32 + (i - 32) ≡ i = omega arith in
          let found : stub_of (gates_from 32 0 16 irq) i ≡ some (irq (i - 32)) =
            ap (stub_of (gates_from 32 0 16 irq)) (sym at)
            ∙ gates_from-in 32 0 16 (i - 32) irq (omega arith) (omega (arith, ltb→lt i 48 below)) in
          let no_call : i ≢ 128 = omega (arith, ltb→lt i 48 below) in
          split ∙ rw (below, ne→== i 128 no_call, found) refl
      | inr above ↦
          let no_request : stub_of (gates_from 32 0 16 irq) i ≡ none =
            gates_from-out 32 0 16 i irq (inr (omega (arith, ltb→le i 48 above))) in
          elim (Bool-cases (i == 128)) [
            | inl here ↦ split ∙ rw (above, here) refl
            | inr away ↦ split ∙ rw (above, away, no_request) refl
          ]
    ]

isr_gates-out : (isr : ℕ → ℕ) (i : ℕ) → 32 ≤ i → stub_of (isr_gates isr) i ≡ none
isr_gates-out isr i above = isr_gates-vector isr i ∙ rw (le→ltb i 32 above) refl

irq_gates-out : (irq : ℕ → ℕ) (isr128 i : ℕ) → i < 32 → stub_of (irq_gates irq isr128) i ≡ none
irq_gates-out irq isr128 i below =
    let no_call : i ≢ 128 = omega arith in
    stub_of-append (gates_from 32 0 16 irq) ((128, isr128) ∷ []) i
    ∙ rw (ne→== i 128 no_call, gates_from-out 32 0 16 i irq (inl (omega arith))) refl

both-vector :
    (isr irq : ℕ → ℕ) (isr128 i : ℕ)
    → or_else (stub_of (irq_gates irq isr128) i) (stub_of (isr_gates isr) i)
      ≡ vector isr irq isr128 i
both-vector isr irq isr128 i = elim (Bool-cases (ltb i 32)) [
  | inl below ↦
      rw (irq_gates-out irq isr128 i (ltb→lt i 32 below), isr_gates-vector isr i, below) refl
  | inr above ↦
      rw (irq_gates-vector irq isr128 i (ltb→le i 32 above), isr_gates-vector isr i, above)
        (sym (or_else-none _))
]

entry_after-twice :
    (first last : Option ℕ) (before : Option IdtEntry)
    → entry_after last (entry_after first before) ≡ entry_after (or_else last first) before
entry_after-twice first none before = refl
entry_after-twice first (some s) before = refl

-- On an interrupt table of 256 entries, `isrs_install` and then `irq_install` succeed, and leave
-- exactly these gates: the stub of each exception at 0 to 31, the stub of each interrupt request at
-- 32 to 47, and the stub of the system call at 128; all other gates, and all other tables, are as
-- they were. A gate has both halves of the stub's address. In the same run the controllers are told
-- to start their requests at 32 and 40.
pub install-gates :
    {K : Type 0} (isr irq : ℕ → ℕ) (isr128 : ℕ) (t : Tables) (m : Machine K)
    → length t.idt ≡ 256
    → (idt : List IdtEntry) × ((isrs_install isr t >>= (λ t'. irq_install irq isr128 t' m))
        ≡ ok (record t { idt = idt }, record m { ports = controller_setup ++ m.ports }))
      × ((i : ℕ) → get_elem? idt i ≡ entry_after (vector isr irq isr128 i) (get_elem? t.idt i))
unfolding isrs_install irq_install irq_remap
install-gates isr irq isr128 t m whole =
    let (idt0, done0, size0, entries0) =
      set_gates-entries (isr_gates isr) t
        (gates_from-inside 0 0 32 (length t.idt) isr (omega (arith, whole))) in
    let (idt1, done1, size1, entries1) =
      set_gates-entries (irq_gates irq isr128) (record t { idt = idt0 })
        (All-append (λ (g : ℕ × ℕ). g.0 < length idt0) (gates_from 32 0 16 irq) ((128, isr128) ∷ [])
          (gates_from-inside 32 0 16 (length idt0) irq (omega (arith, whole, size0)))
          (omega (arith, whole, size0), tt)) in
    (
      idt1,
      rw (done0, done1) refl,
      λ i.
          entries1 i
          ∙ ap (entry_after (stub_of (irq_gates irq isr128) i)) (entries0 i)
          ∙ entry_after-twice (stub_of (isr_gates isr) i) (stub_of (irq_gates irq isr128) i)
              (get_elem? t.idt i)
          ∙ ap (λ o. entry_after o (get_elem? t.idt i)) (both-vector isr irq isr128 i),
    )
