-- ===== src/Vga/Tests.antt =====
-- The screen with the cursor in the middle, in a memory of sevens.
use nembus_os.Base.{refl, arith, []}
use nembus_os.Vga.{Screen}
use nembus_os.Vga.Chars.{IsOnScreen}

abbrev middle : Screen
middle = record { mem = λ p. 7; cursor_x = 40; cursor_y = 12; ports = [] }

middle-IsOnScreen : IsOnScreen middle
middle-IsOnScreen = record { column = omega arith; even = refl; line = omega arith }
