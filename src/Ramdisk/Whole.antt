-- ===== src/Ramdisk/Whole.antt =====
-- The image of src/ramdisk.c as a whole: the number, the headers and the contents.
use nembus_os.Base.{
  length-map, take-length, ℕ, ◌+◌, ◌*◌, ◌^◌, ◌<◌, ◌≡◌, refl, ap, ◌∙◌, sym, arith, List, ◌++◌, map,
  length, take, All, lt→ltb,
}
use nembus_os.Ramdisk.{
  image, num_headers, num_rounds, first_offset, max_headers, word_bytes, headers_bytes, join,
  write_image, generate,
}
use nembus_os.Ramdisk.Image.{IsShort, host_file, headers_at, all_contents, make_headers-made}

-- The number of files is right up to 63, the most that the byte of `argc` has room for.
num_headers-count : (n : ℕ) → n < 64 → num_headers (2 * n + 1) ≡ n
unfolding num_headers
num_headers-count n few = ground arith

abbrev pub image_bytes : (junk : ℕ → ℕ) → List (List ℕ × List ℕ) → List ℕ
image_bytes junk files =
    word_bytes (length files)
    ++ (headers_bytes junk 0 (headers_at first_offset files) max_headers
        ++ join (all_contents files))

-- The image, where all the files are there and fewer than 64, their names have room in the headers,
-- and the image has less than 2 ^ 32 bytes.
pub generate-image_bytes :
    (junk : ℕ → ℕ) (files : List (List ℕ × List ℕ))
    → All IsShort files
    → length files < 64
    → first_offset + length (join (all_contents files)) < 2 ^ 32
    → generate junk (map host_file files) ≡ image (image_bytes junk files)
unfolding generate write_image
generate-image_bytes junk files short few fits =
    let rounds : num_rounds (length files) ≡ length files =
      rw (lt→ltb (length files) (2 ^ 31) (omega arith)) refl in
    let whole : take (length files) (map host_file files) ≡ map host_file files =
      ap (λ n. take n (map host_file files)) (sym (length-map host_file files))
      ∙ take-length (map host_file files) in
    rw
      (
        length-map host_file files,
        num_headers-count (length files) few,
        rounds,
        whole,
        make_headers-made first_offset files short fits,
      )
      refl
