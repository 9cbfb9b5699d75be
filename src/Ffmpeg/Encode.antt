-- ===== src/Ffmpeg/Encode.antt =====
-- `w_ffmpeg_encode` of wolf/sys/media/ffmpeg.cpp, with `rgb2yuv` of wolf/sys/media/conversion.cpp.
pub mod Convert
pub mod Frames
pub mod Safety
pub mod Short
use wolf_engine.Base.{
  ℕ, zero, suc, ◌+◌, ◌*◌, ◌^◌, ◌%◌, ◌-◌, leb, Bool, true, false, not, ◌||◌, Option, none, some,
  List, [], ◌∷◌, ◌++◌, String, ◌==◌, ltb, if◌then◌else◌,
}
use wolf_engine.Base.Int.{ℤ, pos, negsuc}
use wolf_engine.Rist.Store.{Ptr}
use wolf_engine.Ffmpeg.{
  packet, context, yuv_frame, Block, bytes, ctx_block, packet_block, codec_block, parser_block,
  frame_block, Memory, Run, done, failed, fault, looping, Call, pure, and_then, caught, ◌>>=◌, ◌>>◌,
  called, stop, load, free, alloc,
}
use wolf_engine.Ffmpeg.Cleanup.{
  opt, ctx, output, get, set, Group, resources, Errors, leave, require, allocate, field,
  print_error,
}
use wolf_engine.Ffmpeg.Init.{Options, is_fine, set_image}

-- What the library answers while a picture is converted: the buffer of an image of `image` bytes.
pub record Conversion : Type 0 where
  pub scaler_given : Bool
  pub image_given : Bool
  pub image : ℕ
  pub filled : ℤ
  pub scaled : ℤ

-- One round of avcodec_send_frame and avcodec_receive_packet: the sizes of the packets that come, and
-- whether the library then has no more of them (EAGAIN, EOF) or fails with a code.
pub record Packets : Type 0 where
  pub sent : ℤ
  pub sizes : List ℕ
  pub no_more : Bool

pub record Replies : Type 0 where
  pub conversion : Conversion
  pub output_given : Bool
  pub frame : Packets
  pub flush : Packets

-- A function of the library looks at what a pointer points to: a fault if that is null or was freed.
unfoldable pub look : Ptr → Call (Unit {0})
unfolding load
look p = if p == 0 then (λ s. fault) else do b ← load p; pure tt

-- `gsl::narrow_cast<int>(p_width) * 3`, which is undefined beyond an `int`
unfoldable pub stride_overflows : ℕ → Bool
stride_overflows width =
    let i = width % 2 ^ 32 in
    if ltb i (2 ^ 31) then leb (2 ^ 31) (i * 3) else ltb (2 ^ 31) ((2 ^ 32 - i) * 3)

-- rgb2yuv, given how many bytes the caller has at `p_rgb`: the scaler reads three for each pixel.
unfoldable pub rgb2yuv : Bool → Conversion → ℕ → Options → Call (Unit {0})
unfolding get free alloc set_image look stride_overflows print_error
rgb2yuv plain r given o = do
  f ← get (field yuv_frame)
  (if o.width == 0 || o.height == 0 || f == 0 then stop else pure tt)
  (if stride_overflows o.width then (λ s. fault) else pure tt)
  (if r.scaler_given then pure tt else (print_error plain >> stop))
  p ← alloc r.image_given (bytes r.image)
  (if r.image_given then pure tt else (print_error plain >> stop))
  (if is_fine r.filled then pure tt else (print_error plain >> (free p >> stop)))
  look f
  set_image (field yuv_frame) p
  (if ltb given (o.width * o.height * 3) then (λ s. fault) else pure tt)
  (if is_fine r.scaled then pure tt else (print_error plain >> (free p >> stop)))

abbrev pub capacity : Block → ℕ
capacity (bytes n) = n
capacity _ = 0

-- The loop over the packets, from an index on: `memcpy` into the caller's buffer. The size that is
-- returned grows with the index.
unfoldable pub receive : Errors → ℤ → List ℕ → Bool → ℕ → Call ℕ
unfolding load require
receive e code [] no_more i s =
    (require e no_more [] "ffmpeg::w_ffmpeg_encode_frame" "error during the encoding" code
        >> pure i)
      s
receive e code (n ∷ ns) no_more i s = and_then (load s.ptr s) (λ b s'.
    let rest = receive e code ns no_more (i + n) (record s' { len = s'.len + n }) in
    if ltb (capacity b) (i + n) then fault else rest)

unfoldable pub encode_frame : Errors → Packets → ℕ → Call ℕ
unfolding get look require receive
encode_frame e r i = do
  p ← get (field packet)
  look p
  c ← get (field context)
  look c
  require e (is_fine r.sent) [] "ffmpeg::w_ffmpeg_encode_frame"
      "failed to send the frame for encoding" r.sent
  receive e r.sent r.sizes r.no_more i

abbrev pub groups : List Group
groups = resources ++ (output ∷ []) ∷ (opt ∷ ctx ∷ []) ∷ []

-- A call inside `w_ffmpeg_encode` or `w_ffmpeg_decode` whose -1 is its own.
abbrev pub checked : {A : Type 0} → Errors → Option A → Call A
checked e none = leave e groups
checked e (some a) = pure a

unfoldable pub or_leave : {A : Type 0} → Errors → Call A → Call A
or_leave e m = do ret ← called m; checked e ret

abbrev pub reset_len : Call (Unit {0})
reset_len s = done tt (record s { len = 0 })

-- The buffer that the caller gets, of an area of bytes.
unfoldable pub open_output : Errors → Bool → ℕ → Call (Unit {0})
unfolding allocate require
open_output e given area = do
  allocate given (bytes area) output
  require e given groups "ffmpeg::w_ffmpeg_encode" "failed to allocate the output buffer" (pos 0)

-- What follows the test for null pointers.
unfoldable pub encode_open : Errors → Replies → ℕ → Options → Call ℤ
unfolding rgb2yuv encode_frame or_leave open_output
encode_open e r given o = do
  reset_len
  or_leave e (rgb2yuv e.plain r.conversion given o)
  open_output e r.output_given (o.width * o.height * 3)
  i ← or_leave e (encode_frame e r.frame 0)
  set (field yuv_frame) 0
  j ← or_leave e (encode_frame e r.flush i)
  pure (pos 0)

unfoldable pub encode : Errors → Replies → ℕ → Options → Call ℤ
unfolding encode_open
encode e r given o s = if s.ctx == 0 then failed s else encode_open e r given o s
