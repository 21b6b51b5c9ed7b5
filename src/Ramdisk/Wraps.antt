-- ===== src/Ramdisk/Wraps.antt =====
-- `main` of src/ramdisk.c with more arguments than its `argc`, a char, has room for.
use nembus_os.Base.{
  ℕ, ◌+◌, ◌-◌, ◌*◌, ◌^◌, ◌<◌, ◌≤◌, ◌≡◌, refl, ap, arith, List, [], ◌∷◌, ◌++◌, length, le→ltb,
}
use nembus_os.Ramdisk.{
  HostFile, image, num_headers, num_rounds, max_headers, word_bytes, headers_bytes, make_headers,
  write_image, generate,
}

num_headers-wrap : (n : ℕ) → 64 ≤ n → n < 128 → num_headers (2 * n + 1) ≡ 2 ^ 32 - (128 - n)
unfolding num_headers
num_headers-wrap n many few = ground arith

-- With 64 files or more, up to 127, the number of files is negative: no file is read, and the image
-- has a negative number, 64 headers that were never written, and no contents.
pub generate-wraps :
    (junk : ℕ → ℕ) (files : List HostFile)
    → 64 ≤ length files
    → length files < 128
    → generate junk files
      ≡ image (word_bytes (2 ^ 32 - (128 - length files)) ++ headers_bytes junk 0 [] max_headers)
unfolding generate write_image make_headers
generate-wraps junk files many few =
    let rounds : num_rounds (2 ^ 32 - (128 - length files)) ≡ 0 =
      rw (le→ltb (2 ^ 32 - (128 - length files)) (2 ^ 31) (omega arith)) refl in
    rw (num_headers-wrap (length files) many few, rounds)
      (ap (λ (bytes : List ℕ). image (word_bytes (2 ^ 32 - (128 - length files)) ++ bytes))
        (append-[] (headers_bytes junk 0 [] max_headers)))
  where
    append-[] : (xs : List ℕ) → xs ++ [] ≡ xs
    append-[] [] = refl
    append-[] (x ∷ xs) = ap (λ (ys : List ℕ). x ∷ ys) (append-[] xs)
