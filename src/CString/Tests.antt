-- ===== src/CString/Tests.antt =====
-- The string functions on the strings `ab` at 100 and `a` at 200.
use nembus_os.Base.{ℕ, ◌≡◌, refl, arith, inl, List, [], ◌∷◌, ◌==◌, if◌then◌else◌}
use nembus_os.Base.Outcome.{ok}
use nembus_os.Memory.{Memory}
use nembus_os.Memory.Laws.{IsBytes}
use nembus_os.CString.{strcpy}
use nembus_os.CString.Strings.{IsString}
use nembus_os.CString.Copy.{IsCopy, strcpy-IsCopy}

abbrev two_strings : Memory
two_strings p = if p == 100 then b'a' else if p == 101 then b'b' else if p == 200 then b'a' else 0

two_strings-IsBytes : IsBytes two_strings
two_strings-IsBytes p = ground arith

abbrev text_ab : List ℕ
text_ab = b'a' ∷ b'b' ∷ []

ab : IsString two_strings 100 text_ab
ab = (refl, (omega arith), (refl, (omega arith), refl))

strcpy-IsCopy_example :
    (m' : Memory) × (strcpy 3 300 100 two_strings ≡ ok m') × IsCopy two_strings m' 300 text_ab
strcpy-IsCopy_example =
    strcpy-IsCopy 3 two_strings 300 100 text_ab two_strings-IsBytes ab (omega arith) (omega arith)
      (omega arith) (inl (omega arith)) (omega arith)
