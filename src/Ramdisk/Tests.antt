-- ===== src/Ramdisk/Tests.antt =====
-- Small images, and 64 empty files.
use nembus_os.Base.{ℕ, ◌-◌, ◌^◌, ◌≡◌, refl, arith, none, some, List, [], ◌∷◌, ◌++◌, replicate}
use nembus_os.Ramdisk.{
  HostFile, image, file_not_found, word_bytes, headers_bytes, max_headers, make_headers,
  num_headers, write_image, generate,
}
use nembus_os.Ramdisk.Wraps.{generate-wraps}

abbrev nothing : ℕ → ℕ
nothing place = 0

abbrev missing : List HostFile
missing = record { name = b'x' ∷ []; contents = none } ∷ []

missing_is_reported : generate nothing missing ≡ file_not_found (b'x' ∷ [])
unfolding generate num_headers make_headers write_image
missing_is_reported = refl

abbrev many_files : List HostFile
many_files = replicate 64 (record { name = b'x' ∷ []; contents = some [] })

generate-wraps_example :
    generate nothing many_files
    ≡ image (word_bytes (2 ^ 32 - (128 - 64)) ++ headers_bytes nothing 0 [] max_headers)
generate-wraps_example = generate-wraps nothing many_files (omega arith) (omega arith)
