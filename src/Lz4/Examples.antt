-- ===== src/Lz4/Examples.antt =====
-- Codecs that meet the documented behaviour, and the theorems of lz4.rs at concrete inputs.
use wolf_engine.Base.{
  ℕ, ◌+◌, ◌/◌, ◌≤◌, ◌<◌, ◌≡◌, refl, sym, subst, true, false, List, [], ◌∷◌, length, replicate,
  length-replicate, ok, err, returned, arith, leb, if◌then◌else◌, le→leb, overwrite,
}
use wolf_engine.Base.Int.{ℤ, pos, negsuc}
use wolf_engine.Lz4.{
  Native, CompressMode, default, fast, run_mode, compress, de_compress, missing_destination,
  invalid_source_size, run_mode, attempt,
}
use wolf_engine.Lz4.Laws.{Encodes, IsLossless}
use wolf_engine.Lz4.RoundTrip.{de_compress-compress, de_compress_large}

copy_within : List ℕ → ℕ → ℤ × List ℕ
copy_within xs cap = if leb (length xs) cap then (pos (length xs), xs) else (negsuc 0, [])

-- Blocks that are the source itself.
abbrev stored : Native
stored = record {
  compress_bound = λ n. pos (n + n / 255 + 16);
  compress_default = copy_within;
  compress_fast = λ src cap acceleration. copy_within src cap;
  decompress_safe = copy_within;
}

stored-Encodes : (b : List ℕ) → Encodes stored b b
unfolding copy_within
stored-Encodes b = record { enough = λ cap h. ground arith; too_small = λ cap h. ground arith }

copy_within-fits :
    (src written : List ℕ) (cap n : ℕ)
    → copy_within src cap ≡ (pos n, written)
    → (length written ≡ n) × (n ≤ cap) × (src ≡ written)
unfolding copy_within
copy_within-fits src written cap n e = ground arith

stored-compressed :
    (mode : CompressMode) (src written : List ℕ) (cap : ℕ) (acceleration : ℤ) (n : ℕ)
    → run_mode stored mode src cap acceleration ≡ (pos n, written)
    → 0 < n
    → (length written ≡ n) × (n ≤ cap) × Encodes stored written src
unfolding run_mode
stored-compressed default src written cap acceleration n e h =
    let (len, fits, same) = copy_within-fits src written cap n e in
    (len, fits, subst (λ x. Encodes stored written x) (sym same) (stored-Encodes written))
stored-compressed fast src written cap acceleration n e h =
    let (len, fits, same) = copy_within-fits src written cap n e in
    (len, fits, subst (λ x. Encodes stored written x) (sym same) (stored-Encodes written))

stored-IsLossless : IsLossless stored
stored-IsLossless = record { compressed = stored-compressed }

abbrev hello : List ℕ
hello = 72 ∷ 69 ∷ 76 ∷ 76 ∷ 79 ∷ []

hello_compressed : compress stored hello default (pos 1) ≡ ok hello
unfolding compress copy_within run_mode overwrite replicate
hello_compressed = refl

empty_refused : compress stored [] fast (pos 1) ≡ err invalid_source_size
unfolding compress
empty_refused = refl

hello_decompressed : de_compress stored false hello ≡ returned (ok hello)
unfolding de_compress copy_within overwrite replicate attempt
hello_decompressed = refl

de_compress-compress_example : de_compress stored true hello ≡ returned (ok hello)
de_compress-compress_example =
    de_compress-compress stored true hello hello default (pos 1) stored-IsLossless (omega arith)
      (omega arith) (omega arith) hello_compressed

abbrev gibibyte : List ℕ
gibibyte = replicate 1073741824 0

de_compress_large_example : de_compress stored false gibibyte ≡ returned (err missing_destination)
de_compress_large_example =
    de_compress_large stored false gibibyte (omega (arith, length-replicate {A = ℕ} 1073741824 0))
      (omega (arith, length-replicate {A = ℕ} 1073741824 0))

-- Blocks that hold a run of zeros.
zeros_within : ℕ → ℕ → ℤ × List ℕ
zeros_within n cap = if leb n cap then (pos n, replicate n 0) else (negsuc 0, [])

run_of : List ℕ → ℕ
run_of [] = 0
run_of (n ∷ rest) = n

abbrev runs : Native
runs = record stored { decompress_safe = λ b cap. zeros_within (run_of b) cap }

abbrev long_run : List ℕ
long_run = replicate 5000 0

runs-Encodes : Encodes runs (5000 ∷ []) long_run
unfolding zeros_within run_of
runs-Encodes = record {
  enough = λ cap h. rw (
    length-replicate {A = ℕ} 5000 0,
    le→leb 5000 cap (omega (arith, length-replicate {A = ℕ} 5000 0)),
  );
  too_small = λ cap h. ground (arith, length-replicate {A = ℕ} 5000 0);
}
