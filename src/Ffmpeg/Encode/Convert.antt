-- ===== src/Ffmpeg/Encode/Convert.antt =====
-- What `rgb2yuv` of wolf/sys/media/conversion.cpp does to a sound memory.
use wolf_engine.Base.{
  ℕ, ◌*◌, ◌^◌, ◌≤◌, ◌<◌, ◌≡◌, inl, inr, refl, Bool, true, false, ◌||◌, Option, none, some, ◌==◌,
  arith, Bool-cases,
}
use wolf_engine.Rist.Store.{Ptr, write, calloc}
use wolf_engine.Ffmpeg.{
  Context, yuv_frame, Block, frame_block, bytes, Memory, done, failed, load, store, free, load_ctx,
  alloc,
}
use wolf_engine.Ffmpeg.Cleanup.{get, print_error}
use wolf_engine.Ffmpeg.Init.{Options, is_fine, set_image}
use wolf_engine.Ffmpeg.Encode.{Conversion, rgb2yuv, look, stride_overflows}
use wolf_engine.Ffmpeg.Ends.{Ends, returns, fails}
use wolf_engine.Ffmpeg.Sound.{is_part, is_buffer, IsSound, IsOpen}

abbrev pub IsBoth : Context → Memory → Type 0
IsBoth c s = IsSound s × IsOpen s c

-- A block is allocated, which no pointer has taken yet.
abbrev pub with_block : Block → Memory → Memory
with_block b s = record s { heap = (calloc true b s.heap).1 }

abbrev pub with_cell : Ptr → Option Block → Memory → Memory
with_cell p b s = record s { heap = write s.heap p b }

pub with_block-IsBoth :
    (b : Block) (c : Context) (s : Memory) → IsBoth c s → IsBoth c (with_block b s)
unfolding calloc write
with_block-IsBoth b c s (k, o) = (
  record {
    next_pos = omega arith;
    unused = λ a h. grind (arith, k.unused a);
    buffer = ground (arith, k.buffer, k.unused s.heap.next);
  },
  record {
    pos = o.pos;
    here = ground (arith, o.here, k.unused s.heap.next);
    parts = λ f. ground (arith, o.parts f, k.unused s.heap.next);
    apart = o.apart;
  },
)

-- A buffer that is not the caller's is freed.
pub freed-IsBoth :
    (p : Ptr) (c : Context) (s : Memory)
    → IsBoth c s
    → is_buffer (s.heap.cell p) ≡ true
    → (s.ptr == p) ≡ false
    → IsBoth c (with_cell p none s)
unfolding write
freed-IsBoth p c s (k, o) b n = (
  record {
    next_pos = k.next_pos;
    unused = λ a h. ground (arith, k.unused a h);
    buffer = ground (arith, k.buffer);
  },
  record {
    pos = o.pos;
    here = ground (arith, o.here);
    parts = λ f. ground (arith, o.parts f);
    apart = o.apart;
  },
)

-- A frame gets a picture.
pub imaged-IsBoth :
    (f q : Ptr) (c : Context) (s : Memory)
    → IsBoth c s
    → is_part (s.heap.cell f) ≡ true
    → IsBoth c (with_cell f (some (frame_block q)) s)
unfolding write
imaged-IsBoth f q c s (k, o) b = (
  record {
    next_pos = k.next_pos;
    unused = λ a h. ground (arith, k.unused a h);
    buffer = ground (arith, k.buffer);
  },
  record {
    pos = o.pos;
    here = ground (arith, o.here);
    parts = λ g. ground (arith, o.parts g);
    apart = o.apart;
  },
)

stride_overflows-small : (width : ℕ) → width * 3 < 2 ^ 31 → stride_overflows width ≡ false
unfolding stride_overflows
stride_overflows-small width h = ground arith

module _ (plain : Bool) (r : Conversion) (given : ℕ) (op : Options) (c : Context) (s : Memory) where
  abbrev refused : Bool
  refused = op.width == 0 || op.height == 0 || c.yuv_frame == 0

  refused_lem : IsBoth c s → refused ≡ true → rgb2yuv plain r given op s ≡ failed s
  unfolding rgb2yuv get load_ctx load
  refused_lem (k, o) h = ground (arith, o.here)

  without_scaler :
      IsBoth c s
      → refused ≡ false
      → plain ≡ true
      → stride_overflows op.width ≡ false
      → r.scaler_given ≡ false
      → rgb2yuv plain r given op s ≡ failed s
  unfolding rgb2yuv get load_ctx load print_error
  without_scaler (k, o) h p w t = ground (arith, o.here)

  without_image :
      IsBoth c s
      → refused ≡ false
      → plain ≡ true
      → stride_overflows op.width ≡ false
      → r.scaler_given ≡ true
      → r.image_given ≡ false
      → rgb2yuv plain r given op s ≡ failed s
  unfolding rgb2yuv get load_ctx load print_error alloc calloc
  without_image (k, o) h p w t g = ground (arith, o.here)

  abbrev with_image : Memory
  with_image = with_block (bytes r.image) s

  unfilled :
      IsBoth c s
      → refused ≡ false
      → plain ≡ true
      → stride_overflows op.width ≡ false
      → r.scaler_given ≡ true
      → r.image_given ≡ true
      → is_fine r.filled ≡ false
      → rgb2yuv plain r given op s ≡ failed (with_cell s.heap.next none with_image)
  unfolding rgb2yuv get load_ctx load print_error alloc calloc free store write
  unfilled (k, o) h p w t g n = ground (arith, o.here)

  abbrev filled : Memory
  filled = with_cell c.yuv_frame (some (frame_block s.heap.next)) with_image

  unscaled :
      IsBoth c s
      → refused ≡ false
      → plain ≡ true
      → stride_overflows op.width ≡ false
      → r.scaler_given ≡ true
      → r.image_given ≡ true
      → is_fine r.filled ≡ true
      → op.width * op.height * 3 ≤ given
      → is_fine r.scaled ≡ false
      → rgb2yuv plain r given op s ≡ failed (with_cell s.heap.next none filled)
  unfolding rgb2yuv get load_ctx load print_error alloc calloc free store write set_image look
  unscaled (k, o) h p w t g n e m = ground (arith, o.here, o.parts yuv_frame, k.unused s.heap.next)

  scaled :
      IsBoth c s
      → refused ≡ false
      → plain ≡ true
      → stride_overflows op.width ≡ false
      → r.scaler_given ≡ true
      → r.image_given ≡ true
      → is_fine r.filled ≡ true
      → op.width * op.height * 3 ≤ given
      → is_fine r.scaled ≡ true
      → rgb2yuv plain r given op s ≡ done tt filled
  unfolding rgb2yuv get load_ctx load print_error alloc calloc free store write set_image look
  scaled (k, o) h p w t g n e m = ground (arith, o.here, o.parts yuv_frame, k.unused s.heap.next)

  filled-IsBoth : IsBoth c s → refused ≡ false → IsBoth c filled
  unfolding calloc write
  filled-IsBoth h n =
      imaged-IsBoth c.yuv_frame s.heap.next c with_image (with_block-IsBoth _ c s h)
        (ground (arith, h.1.parts yuv_frame, h.0.unused s.heap.next))

  -- Whatever it answers, the memory is as sound as before, and the options and the caller's buffer
  -- point to where they did; if it succeeds the yuv frame is not null.
  pub rgb2yuv-Ends :
      IsBoth c s
      → plain ≡ true
      → op.width * 3 < 2 ^ 31
      → op.width * op.height * 3 ≤ given
      → Ends
          (λ u s'. IsBoth c s' × (s'.ctx ≡ s.ctx) × ((c.yuv_frame == 0) ≡ false))
          (IsBoth c)
          (rgb2yuv plain r given op s)
  unfolding calloc write
  rgb2yuv-Ends h p small e =
      let w = stride_overflows-small op.width small in
      elim (Bool-cases refused) [
        | inl bad ↦ rw (refused_lem h bad) (fails h)
        | inr go ↦ elim (Bool-cases r.scaler_given) [
          | inr bad ↦ rw (without_scaler h go p w bad) (fails h)
          | inl t ↦ elim (Bool-cases r.image_given) [
            | inr bad ↦ rw (without_image h go p w t bad) (fails h)
            | inl image ↦ elim (Bool-cases (is_fine r.filled)) [
              | inr bad ↦ rw (unfilled h go p w t image bad) (
                  fails (
                    freed-IsBoth s.heap.next c with_image (with_block-IsBoth _ c s h) (ground arith)
                      (ground (arith, h.0.buffer, h.0.unused s.heap.next))))
              | inl full ↦ elim (Bool-cases (is_fine r.scaled)) [
                | inr bad ↦ rw (unscaled h go p w t image full e bad) (
                    fails (
                      freed-IsBoth s.heap.next c filled (filled-IsBoth h go)
                        (ground (arith, h.1.parts yuv_frame, h.0.unused s.heap.next))
                        (ground (arith, h.0.buffer, h.0.unused s.heap.next))))
                | inl fine ↦
                    rw (scaled h go p w t image full e fine)
                      (returns (filled-IsBoth h go, refl, ground arith))
              ]
            ]
          ]
        ]
      ]
