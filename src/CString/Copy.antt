-- ===== src/CString/Copy.antt =====
-- `strcpy` and `strcat` on strings that do not overlap.
use nembus_os.Base.{
  ℕ, zero, suc, ◌+◌, ◌^◌, ◌<◌, ◌≡◌, ◌≢◌, ◌⊎◌, ◌∙◌, arith, ne→==, List, [], ◌∷◌, length,
}
use nembus_os.Base.Words.{add32}
use nembus_os.Base.Outcome.{ok}
use nembus_os.Memory.{Memory, store8}
use nembus_os.Memory.Laws.{load8-store8_self, load8-store8_ne, store8-IsBytes, IsBytes}
use nembus_os.CString.{copy_string, strcpy}
use nembus_os.CString.Strings.{IsString, IsString-frame}

-- What a copy leaves: the string at its destination, and every byte outside as it was.
pub record IsCopy (m m' : Memory) (dest : ℕ) (xs : List ℕ) : Type 0 where
  pub copy : IsString m' dest xs
  pub same : (q : ℕ) → (q < dest) ⊎ (dest + length xs < q) → m' q ≡ m q

copy_string-step :
    (fuel : ℕ) (m : Memory) (dest src x : ℕ)
    → m src ≡ x
    → x ≢ 0
    → src + 1 < 2 ^ 32
    → dest + 1 < 2 ^ 32
    → copy_string (suc fuel) dest src m ≡ copy_string fuel (dest + 1) (src + 1) (store8 m dest x)
unfolding copy_string
copy_string-step fuel m dest src x e real fs fd =
    let next_src : add32 src 1 ≡ src + 1 = omega arith in
    let next_dest : add32 dest 1 ≡ dest + 1 = omega arith in
    rw (e, ne→== x 0 real, next_src, next_dest)

copy_string-IsCopy :
    (fuel : ℕ) (m : Memory) (dest src : ℕ) (xs : List ℕ)
    → IsBytes m
    → IsString m src xs
    → length xs < fuel
    → src + length xs < 2 ^ 32
    → dest + length xs < 2 ^ 32
    → (src + length xs < dest) ⊎ (dest + length xs < src)
    → (m' : Memory) × (copy_string fuel dest src m ≡ ok m') × IsCopy m m' dest xs
unfolding copy_string
copy_string-IsCopy zero m dest src xs b s enough fs fd apart = absurd (omega arith)
copy_string-IsCopy (suc fuel) m dest src [] b s enough fs fd apart = (
  store8 m dest 0,
  rw s,
  record {
    copy = load8-store8_self m dest 0;
    same = λ q out. load8-store8_ne m dest 0 q (omega arith);
  },
)
copy_string-IsCopy (suc fuel) m dest src (x ∷ xs) b s enough fs fd apart =
    let m1 = store8 m dest x in
    let (m', done, is) =
      copy_string-IsCopy fuel m1 (dest + 1) (src + 1) xs (store8-IsBytes m dest x b)
        (IsString-frame m m1 (src + 1) xs s.2 (λ q lo hi. load8-store8_ne m dest x q (omega arith)))
        (omega arith) (omega arith) (omega arith) (omega arith) in
    (
      m',
      copy_string-step fuel m dest src x s.0 s.1 (omega arith) (omega arith) ∙ done,
      record {
        copy = (
          is.same dest (omega arith) ∙ load8-store8_self m dest x ∙ omega (arith, b src, s.0),
          s.1,
          is.copy,
        );
        same = λ q out. is.same q (omega arith) ∙ load8-store8_ne m dest x q (omega arith);
      },
    )

-- Given more fuel than the string has bytes, `strcpy` copies a string to a destination that is not
-- null and does not overlap it, terminator included, and writes nowhere else.
pub strcpy-IsCopy :
    (fuel : ℕ) (m : Memory) (dest src : ℕ) (xs : List ℕ)
    → IsBytes m
    → IsString m src xs
    → length xs < fuel
    → src + length xs < 2 ^ 32
    → dest + length xs < 2 ^ 32
    → (src + length xs < dest) ⊎ (dest + length xs < src)
    → dest ≢ 0
    → (m' : Memory) × (strcpy fuel dest src m ≡ ok m') × IsCopy m m' dest xs
unfolding strcpy
strcpy-IsCopy fuel m dest src xs b s enough fs fd apart real =
    rw (ne→== dest 0 real) (copy_string-IsCopy fuel m dest src xs b s enough fs fd apart)
