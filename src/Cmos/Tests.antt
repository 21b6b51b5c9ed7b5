-- ===== src/Cmos/Tests.antt =====
-- A clock that shows 70 seconds, and a short sleep.
use nembus_os.Base.{ℕ, ◌%◌, ◌≡◌, refl, [], ◌==◌, if◌then◌else◌}
use nembus_os.Base.Outcome.{ok}
use nembus_os.Cmos.{Time, get_time, sleep_from, sleep}

abbrev registers : ℕ → ℕ
registers addr = if addr == 0x80 then 70 else addr % 16

abbrev no_time : Time
no_time = record { sec = 0; min = 0; hrs = 0; day = 0; month = 0; yr = 0; cent = 0; ports = [] }

minute_is_carried : ((get_time registers no_time).sec ≡ 10) × ((get_time registers no_time).min ≡ 3)
unfolding get_time
minute_is_carried = (refl, refl)

sleeps_three_rounds : sleep 5 3 ≡ ok 3
unfolding sleep sleep_from
sleeps_three_rounds = refl
