-- ===== src/OrderedArray/Cells.antt =====
-- Reads and writes at the end of a prefix.
use nembus_os.Base.{
  ℕ, zero, suc, ◌+◌, ◌≡◌, refl, some, List, [], ◌∷◌, ◌++◌, arith, length, get_elem?, set, take, ap,
}

module _ {ℓ} {A : Type ℓ} where
  get_elem?-append : (pre rest : List A) (x : A) → get_elem? (pre ++ x ∷ rest) (length pre) ≡ some x
  get_elem?-append [] rest x = refl
  get_elem?-append (y ∷ pre) rest x = get_elem?-append pre rest x

  set-append :
      (pre rest : List A) (x v : A) → set (pre ++ x ∷ rest) (length pre) v ≡ pre ++ v ∷ rest
  set-append [] rest x v = refl
  set-append (y ∷ pre) rest x v = ap (λ l. y ∷ l) (set-append pre rest x v)

  pub append-cons : (pre rest : List A) (x : A) → pre ++ x ∷ rest ≡ (pre ++ x ∷ []) ++ rest
  append-cons [] rest x = refl
  append-cons (y ∷ pre) rest x = ap (λ l. y ∷ l) (append-cons pre rest x)

  pub length-snoc : (pre : List A) (x : A) → length (pre ++ x ∷ []) ≡ length pre + 1
  length-snoc [] x = omega arith
  length-snoc (y ∷ pre) x = omega (arith, length-snoc pre x)

  take-append : (pre rest : List A) → take (length pre) (pre ++ rest) ≡ pre
  take-append [] rest = refl
  take-append (y ∷ pre) rest = ap (λ l. y ∷ l) (take-append pre rest)

  -- The cell behind a prefix.
  pub get_elem?-at :
      (cells pre rest : List A) (x : A) (i : ℕ)
      → cells ≡ pre ++ x ∷ rest
      → i ≡ length pre
      → get_elem? cells i ≡ some x
  get_elem?-at cells pre rest x i c e = rw (c, e) (get_elem?-append pre rest x)

  pub set-at :
      (cells pre rest : List A) (x : A) (i : ℕ) (v : A)
      → cells ≡ pre ++ x ∷ rest
      → i ≡ length pre
      → set cells i v ≡ pre ++ v ∷ rest
  set-at cells pre rest x i v c e = rw (c, e) (set-append pre rest x v)

  pub get_elem?-append_left :
      (xs ys : List A) (i : ℕ) (x : A) → get_elem? xs i ≡ some x → get_elem? (xs ++ ys) i ≡ some x
  get_elem?-append_left [] ys i x e = cc
  get_elem?-append_left (y ∷ xs) ys zero x e = e
  get_elem?-append_left (y ∷ xs) ys (suc i) x e = get_elem?-append_left xs ys i x e
