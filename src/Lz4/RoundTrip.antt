-- ===== src/Lz4/RoundTrip.antt =====
-- What `compress` and `de_compress` do together, and where `de_compress` fails.
use wolf_engine.Base.{
  ℕ, zero, suc, ◌*◌, ◌≤◌, ◌<◌, ◌≡◌, refl, inl, inr, Bool, true, false, List, [], length,
  take-overwrite, length-replicate, replicate, overwrite, ok, err, returned, panicked, arith,
  Bool-cases, leb, lt→ltb, ap, if◌then◌else◌, subst,
}
use wolf_engine.Base.Int.{ℤ, pos, negsuc, i32_max, usize_or_zero, i32_or_zero}
use wolf_engine.Lz4.{
  Native, CompressMode, double_i32, finish, compress, de_compress, run_mode, missing_destination,
  compress_into, finish_attempt, start_growing,
}
use wolf_engine.Lz4.Laws.{Encodes, IsLossless}
use wolf_engine.Lz4.Growth.{
  grow-finds, finish-found, double_i32-panics, double_i32-wraps, double_i32-in_range,
  grow-exhausted,
}

i32_or_zero-of_le : (n : ℕ) → n ≤ i32_max → i32_or_zero n ≡ n
i32_or_zero-of_le n h = ground arith

finish-written :
    (n cap : ℕ) (written : List ℕ)
    → length written ≡ suc n
    → suc n ≤ cap
    → finish (pos (suc n)) (overwrite written (replicate cap 0)) ≡ ok written
unfolding finish
finish-written n cap written h k = rw (← h) (
    rw (lt→ltb 0 (length written) (omega arith)) (
      ap ok
        (take-overwrite written (replicate cap 0) (omega (arith, length-replicate {A = ℕ} cap 0)))))

compress_into-status :
    (lz4 : Native) (src b written : List ℕ) (mode : CompressMode) (acceleration : ℤ) (cap : ℕ)
    (status : ℤ)
    → run_mode lz4 mode src cap acceleration ≡ (status, written)
    → compress_into lz4 src mode acceleration cap ≡ ok b
    → finish status (overwrite written (replicate cap 0)) ≡ ok b
unfolding compress_into
compress_into-status lz4 src b written mode acceleration cap status e h = ground arith

finish-failed :
    (status : ℤ) (dst : List ℕ)
    → usize_or_zero status ≡ 0
    → finish status dst ≡ err missing_destination
unfolding finish
finish-failed status dst e = rw e

compress_into-Encodes :
    (lz4 : Native) (src b written : List ℕ) (mode : CompressMode) (acceleration : ℤ) (cap : ℕ)
    (status : ℤ)
    → IsLossless lz4
    → run_mode lz4 mode src cap acceleration ≡ (status, written)
    → compress_into lz4 src mode acceleration cap ≡ ok b
    → Encodes lz4 b src × (0 < length b)
compress_into-Encodes lz4 src b written mode acceleration cap status l e h =
    by_status status e (compress_into-status lz4 src b written mode acceleration cap status e h)
  where
    by_status :
        (s : ℤ)
        → run_mode lz4 mode src cap acceleration ≡ (s, written)
        → finish s (overwrite written (replicate cap 0)) ≡ ok b
        → Encodes lz4 b src × (0 < length b)
    by_status (negsuc n) e h = absurd (cc (finish-failed (negsuc n) _ refl, h))
    by_status (pos zero) e h = absurd (cc (finish-failed (pos zero) _ refl, h))
    by_status (pos (suc n)) e h =
        let (len, fits, enc) =
          l.compressed mode src written cap acceleration (suc n) e (omega arith) in
        let same : written ≡ b = cc (finish-written n cap written len fits) in
        (subst (λ x. Encodes lz4 x src) same enc, subst (λ x. 0 < length x) same (omega arith))

compress-inversion :
    (lz4 : Native) (src b : List ℕ) (mode : CompressMode) (acceleration : ℤ)
    → compress lz4 src mode acceleration ≡ ok b
    → (0 < length src)
      × (length src ≤ i32_max)
      × (compress_into lz4 src mode acceleration (usize_or_zero (lz4.compress_bound (length src)))
          ≡ ok b)
unfolding compress
compress-inversion lz4 src b mode acceleration h = elim (Bool-cases (leb (length src) i32_max)) [
  | inl fits ↦ ground arith
  | inr over ↦ absurd (ground arith)
]

-- Where the library is lossless, `compress` succeeds only with a block that is not empty, and it
-- encodes the source, which is not empty either.
pub compress-Encodes :
    (lz4 : Native) (src b : List ℕ) (mode : CompressMode) (acceleration : ℤ)
    → IsLossless lz4
    → compress lz4 src mode acceleration ≡ ok b
    → Encodes lz4 b src × (0 < length b) × (0 < length src)
compress-Encodes lz4 src b mode acceleration l h =
    let (some_bytes, _, into) = compress-inversion lz4 src b mode acceleration h in
    let r = compress_into-Encodes lz4 src b _ mode acceleration _ _ l refl into in
    (r.0, r.1, some_bytes)

de_compress-start :
    (lz4 : Native) (checks : Bool) (b : List ℕ)
    → 0 < length b
    → length b ≤ i32_max
    → de_compress lz4 checks b ≡ start_growing lz4 checks b (double_i32 checks (length b))
unfolding de_compress
de_compress-start lz4 checks b h k = rw (i32_or_zero-of_le (length b) k) (ground arith)

-- Where the library is lossless, decompressing what `compress` made of a source of at most 2 ^ 30
-- bytes gives the source back, in both build profiles, as long as the source is at most 1024 times as long as its block and
-- the block is shorter than 2 ^ 30 bytes; in particular the loop's ten turns are enough.
pub de_compress-compress :
    (lz4 : Native) (checks : Bool) (src b : List ℕ) (mode : CompressMode) (acceleration : ℤ)
    → IsLossless lz4
    → length src ≤ 1073741824
    → length src ≤ 1024 * length b
    → length b < 1073741824
    → compress lz4 src mode acceleration ≡ ok b
    → de_compress lz4 checks b ≡ returned (ok src)
unfolding start_growing finish_attempt
de_compress-compress lz4 checks src b mode acceleration l small ratio short h =
    let (e, block, some_bytes) = compress-Encodes lz4 src b mode acceleration l h in
    let (k, dst, fits, found) =
      grow-finds lz4 checks b src 10 (length b * 2) (record { status = pos 0; dst = [] }) e
        some_bytes small (omega arith) (omega arith) in
    rw
      (
        de_compress-start lz4 checks b block (omega arith),
        double_i32-in_range checks (length b) (omega arith),
        found,
      )
      (ap returned (finish-found src k dst some_bytes fits))

-- A block of 2 ^ 30 bytes or more, up to the largest `i32`, is never decompressed, whatever it
-- encodes: doubling its size overflows, which panics where overflow is checked and is reported as a missing destination
-- where it wraps.
pub de_compress_large :
    (lz4 : Native) (checks : Bool) (b : List ℕ)
    → 1073741824 ≤ length b
    → length b ≤ i32_max
    → de_compress lz4 checks b ≡ (if checks then panicked else returned (err missing_destination))
unfolding start_growing finish_attempt
de_compress_large lz4 true b h k =
    rw (de_compress-start lz4 true b (omega arith) k, double_i32-panics (length b) (omega arith))
de_compress_large lz4 false b h k =
    rw (de_compress-start lz4 false b (omega arith) k, double_i32-wraps (length b) k (omega arith))
      (ap returned (finish-failed (pos 0) [] refl))

-- A source more than 1024 times as long as its block is never recovered from it, where the block is
-- not empty and 2048 times its length is an `i32`: the block is reported as a missing destination,
-- though it encodes the source.
pub de_compress_expansion :
    (lz4 : Native) (checks : Bool) (src b : List ℕ)
    → Encodes lz4 b src
    → 0 < length b
    → 2048 * length b ≤ i32_max
    → 1024 * length b < length src
    → de_compress lz4 checks b ≡ returned (err missing_destination)
unfolding start_growing finish_attempt
de_compress_expansion lz4 checks src b e block fits less =
    let (a, stopped, failed) =
      grow-exhausted lz4 checks b src 10 (length b * 2) (record { status = pos 0; dst = [] }) e refl
        (omega arith) (omega arith) (omega arith) in
    rw
      (
        de_compress-start lz4 checks b block (omega arith),
        double_i32-in_range checks (length b) (omega arith),
        stopped,
      )
      (ap returned (finish-failed a.status a.dst failed))
