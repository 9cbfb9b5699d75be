-- ===== src/Lz4.antt =====
-- wolf/src/system/compression/lz4.rs: `compress` and `de_compress` over the C functions of LZ4.
--
-- The four `w_lz4_*` functions are C code behind generated bindings, so they are a record of
-- functions. A call that writes to the destination returns its status and the bytes it wrote.
-- A slice is the list of its bytes. `i32` arithmetic is written out for both build profiles:
-- `overflow-checks` on (a panic) or off (a wrap).
pub mod Laws
pub mod Growth
pub mod RoundTrip
mod Examples
use wolf_engine.Base.{
  ℕ, zero, suc, ◌+◌, ◌*◌, ◌%◌, ◌^◌, Bool, true, false, List, [], ◌++◌, length, take, replicate,
  overwrite, Option, none, some, Result, ok, err, Outcome, returned, panicked, ltb, leb, ◌==◌,
  if◌then◌else◌,
}
use wolf_engine.Base.Int.{ℤ, pos, negsuc, i32_max, i32_of_bits, usize_or_zero, i32_or_zero}

-- LZ4CompressMode
pub data CompressMode : Type 0 where
  default fast : CompressMode

pub data Error : Type 0 where
  invalid_source_size invalid_destination_size missing_destination : Error

-- The arguments are the source, the destination's capacity and, for `fast`, the acceleration.
pub record Native : Type 0 where
  pub compress_bound : ℕ → ℤ
  pub compress_default : List ℕ → ℕ → ℤ × List ℕ
  pub compress_fast : List ℕ → ℕ → ℤ → ℤ × List ℕ
  pub decompress_safe : List ℕ → ℕ → ℤ × List ℕ

-- `p_dst.set_len(new_size)` over the buffer that the call wrote into.
pub finish : ℤ → List ℕ → Result Error (List ℕ)
finish status dst =
    let new_size = usize_or_zero status in
    if ltb 0 new_size then ok (take new_size dst) else err missing_destination

pub run_mode : Native → CompressMode → List ℕ → ℕ → ℤ → ℤ × List ℕ
run_mode lz4 default src cap acceleration = lz4.compress_default src cap
run_mode lz4 fast src cap acceleration = lz4.compress_fast src cap acceleration

compress_into : Native → List ℕ → CompressMode → ℤ → ℕ → Result Error (List ℕ)
unfolding finish
compress_into lz4 src mode acceleration cap =
    if cap == 0
    then err invalid_destination_size
    else let (status, written) = run_mode lz4 mode src cap acceleration in
      finish status (overwrite written (replicate cap 0))

-- The result is the destination vector; on an error it is dropped by the callers of the tests.
unfoldable pub compress : Native → List ℕ → CompressMode → ℤ → Result Error (List ℕ)
unfolding compress_into
compress lz4 src mode acceleration =
    let src_len = i32_or_zero (length src) in
    if src_len == 0
    then err invalid_source_size
    else compress_into lz4 src mode acceleration (usize_or_zero (lz4.compress_bound src_len))

-- `x * 2` at i32. Capacities are never negative, so the argument is a number below 2 ^ 31.
pub double_i32 : Bool → ℕ → Option ℤ
double_i32 checks x =
    if leb (x * 2) i32_max
    then some (pos (x * 2))
    else if checks
    then none
    else some (i32_of_bits ((x * 2) % 2 ^ 32))

-- What the loop leaves: the last status and the destination.
pub record Attempt : Type 0 where
  pub status : ℤ
  pub dst : List ℕ

-- `Vec::resize(n, 0u8)`: cut, or filled up with zeros.
pub resize : ℕ → List ℕ → List ℕ
resize n xs = take n (xs ++ replicate n 0)

-- One turn at a positive capacity: resize (which keeps the old bytes), then decompress.
pub attempt : Native → List ℕ → ℕ → List ℕ → Attempt
unfolding resize
attempt lz4 src cap dst =
    let (status, written) = lz4.decompress_safe src cap in
    record { status = status; dst = overwrite written (resize cap dst) }

-- `for _ in 0..10`, on the turns left. `max_dst_size` is the `i32` of the code.
pub grow : Native → Bool → List ℕ → ℕ → ℤ → Attempt → Outcome Attempt
grow lz4 checks src zero max_dst_size last = returned last
grow lz4 checks src (suc turns) (negsuc n) last = returned last
grow lz4 checks src (suc turns) (pos cap) last =
    let now = attempt lz4 src cap last.dst in
    let again : Outcome Attempt = elim (double_i32 checks cap) [
      | none ↦ panicked
      | some next ↦ grow lz4 checks src turns next now
    ] in
    if cap == 0
    then returned last
    else if ltb 0 (usize_or_zero now.status)
    then returned now
    else again

finish_attempt : Outcome Attempt → Outcome (Result Error (List ℕ))
unfolding finish
finish_attempt (returned a) = returned (finish a.status a.dst)
finish_attempt panicked = panicked

start_growing : Native → Bool → List ℕ → Option ℤ → Outcome (Result Error (List ℕ))
unfolding grow finish_attempt
start_growing lz4 checks src none = panicked
start_growing lz4 checks src (some cap) =
    finish_attempt (grow lz4 checks src 10 cap (record { status = pos 0; dst = [] }))

unfoldable pub de_compress : Native → Bool → List ℕ → Outcome (Result Error (List ℕ))
unfolding start_growing double_i32
de_compress lz4 checks src =
    let src_len = i32_or_zero (length src) in
    if src_len == 0
    then returned (err invalid_source_size)
    else start_growing lz4 checks src (double_i32 checks src_len)
