-- ===== src/Cmos.antt =====
-- The real-time clock, src/impl/cmos.c and src/include/cmos.h, and the busy loop of src/impl/std.c.
-- What a register of the clock gives is a parameter; the registers are selected by a write to a port,
-- the latest write first.
pub mod Carry
pub mod Sleep
mod Tests
use nembus_os.Base.{ℕ, zero, suc, ◌+◌, ◌/◌, ◌%◌, List, [], ◌∷◌, ltb, ◌==◌, if◌then◌else◌, bit_or}
use nembus_os.Base.Words.{add32, sub32}
use nembus_os.Base.Outcome.{Outcome, ok, out_of_fuel}

-- The globals, and the writes to port 0x70.
pub record Time : Type 0 where
  pub sec : ℕ
  pub min : ℕ
  pub hrs : ℕ
  pub day : ℕ
  pub month : ℕ
  pub yr : ℕ
  pub cent : ℕ
  pub ports : List (ℕ × ℕ)

-- `CMOS_READ`: the register is selected at port 0x70, and read at port 0x71, which gives a byte.
abbrev pub select : (addr : ℕ) → List (ℕ × ℕ) → List (ℕ × ℕ)
select addr ports = (0x70, bit_or 0x80 addr) ∷ ports

abbrev pub cmos_read : (cmos : ℕ → ℕ) → (addr : ℕ) → ℕ
cmos_read cmos addr = cmos (bit_or 0x80 addr) % 256

-- The seven reads.
abbrev pub read_time : (cmos : ℕ → ℕ) → Time → Time
read_time cmos t = record {
  sec = cmos_read cmos 0;
  min = cmos_read cmos 2;
  hrs = cmos_read cmos 4;
  day = cmos_read cmos 7;
  month = cmos_read cmos 8;
  yr = cmos_read cmos 9;
  cent = cmos_read cmos 32;
  ports = select 32 (select 9 (select 8 (select 7 (select 4 (select 2 (select 0 t.ports))))));
}

unfoldable pub get_time : (cmos : ℕ → ℕ) → Time → Time
get_time cmos t =
    let r = read_time cmos t in
    if ltb 60 r.sec then record r { min = add32 r.min (r.sec / 60); sec = r.sec % 60 } else r

-- `sleep`: the rounds that the loop has done. An unsigned number is at most 0 when it is 0.
unfoldable pub sleep_from : (fuel timer_count done : ℕ) → Outcome ℕ
sleep_from zero timer_count done = out_of_fuel
sleep_from (suc fuel) timer_count done =
    let rest = sleep_from fuel (sub32 timer_count 1) (suc done) in
    if sub32 timer_count 1 == 0 then ok (suc done) else rest

unfoldable pub sleep : (fuel timer_count : ℕ) → Outcome ℕ
sleep fuel timer_count = sleep_from fuel timer_count 0
