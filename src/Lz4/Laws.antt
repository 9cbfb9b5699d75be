-- ===== src/Lz4/Laws.antt =====
-- What the LZ4 library documents of the four functions, for the proofs about lz4.rs.
use wolf_engine.Base.{ℕ, ◌≤◌, ◌<◌, ◌≡◌, List, length}
use wolf_engine.Base.Int.{ℤ, pos, usize_or_zero}
use wolf_engine.Lz4.{Native, CompressMode, run_mode}

-- The block `b` is a compressed form of `src`: decompression into enough room returns the
-- number of bytes of `src` and writes them; into less it fails with a negative status.
pub record Encodes (lz4 : Native) (b src : List ℕ) : Type 0 where
  pub enough : (cap : ℕ) → length src ≤ cap → lz4.decompress_safe b cap ≡ (pos (length src), src)
  pub too_small : (cap : ℕ) → cap < length src → usize_or_zero (lz4.decompress_safe b cap).0 ≡ 0

-- A compression that returns a positive size has written that many bytes, no more than the
-- capacity, and they encode the source.
pub record IsLossless (lz4 : Native) : Type 0 where
  pub compressed :
      (mode : CompressMode) (src written : List ℕ) (cap : ℕ) (acceleration : ℤ) (n : ℕ)
      → run_mode lz4 mode src cap acceleration ≡ (pos n, written)
      → 0 < n
      → (length written ≡ n) × (n ≤ cap) × Encodes lz4 written src
