-- ===== src/Cmos/Carry.antt =====
-- `get_time` carries seconds into minutes.
use nembus_os.Base.{ℕ, ◌+◌, ◌*◌, ◌%◌, ◌≤◌, ◌≡◌, arith, ltb, Bool-cases, inl, inr, refl}
use nembus_os.Cmos.{Time, get_time}

-- `get_time` keeps the time of the minute and second registers, counted in seconds, and leaves at
-- most 60 seconds; 60 itself stays as it is. The other fields are those of their registers.
pub get_time-carry :
    (cmos : ℕ → ℕ) (t : Time)
    → let t' = get_time cmos t in
      (t'.min * 60 + t'.sec ≡ cmos 0x82 % 256 * 60 + cmos 0x80 % 256)
      × (t'.sec ≤ 60)
      × (cmos 0x80 % 256 ≡ 60 → t'.sec ≡ 60)
      × (t'.hrs ≡ cmos 0x84 % 256)
      × (t'.day ≡ cmos 0x87 % 256)
      × (t'.month ≡ cmos 0x88 % 256)
      × (t'.yr ≡ cmos 0x89 % 256)
      × (t'.cent ≡ cmos 0xA0 % 256)
unfolding get_time
get_time-carry cmos t = elim (Bool-cases (ltb 60 (cmos 0x80 % 256))) [
  | inl over ↦ rw over (
    ground arith,
    ground arith,
    λ exact. ground (arith, exact, over),
    refl,
    refl,
    refl,
    refl,
    refl,
  )
  | inr within ↦
      rw within (refl, ground (arith, within), λ exact. exact, refl, refl, refl, refl, refl)
]
