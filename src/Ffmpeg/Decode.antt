-- ===== src/Ffmpeg/Decode.antt =====
-- `w_ffmpeg_decode` and `w_ffmpeg_fini` of wolf/sys/media/ffmpeg.cpp, with `yuv2rgb` of wolf/sys/media/conversion.cpp.
pub mod Held
pub mod Stays
pub mod Once
pub mod Settles
pub mod Returns
use wolf_engine.Base.{
  ℕ, zero, suc, ◌+◌, ◌-◌, ◌*◌, Bool, true, false, not, ◌||◌, Option, none, some, List, [], ◌∷◌,
  ◌++◌, String, ◌==◌, ltb, if◌then◌else◌,
}
use wolf_engine.Base.Int.{ℤ, pos, negsuc, usize_or_zero}
use wolf_engine.Rist.Store.{Ptr}
use wolf_engine.Ffmpeg.{
  packet, context, yuv_frame, rgb_frame, parser, Block, bytes, ctx_block, packet_block, codec_block,
  parser_block, frame_block, Memory, Run, done, failed, fault, looping, Call, pure, and_then,
  caught, ◌>>=◌, ◌>>◌, called, stop, load,
}
use wolf_engine.Ffmpeg.Cleanup.{
  opt, ctx, output, get, set, Group, resources, Errors, leave, require, allocate, cleanup, field,
  print_error,
}
use wolf_engine.Ffmpeg.Init.{Options, is_fine}
use wolf_engine.Ffmpeg.Encode.{look, groups, or_leave, capacity}

-- A picture that avcodec_receive_frame gives, and what the library answers while it is converted.
pub record Picture : Type 0 where
  pub width : ℕ
  pub height : ℕ
  pub scaler_given : Bool
  pub scaled : ℤ
  pub size : ℤ

-- One call of avcodec_send_packet with the pictures that come, and whether the library then has no
-- more of them (EAGAIN, EOF) or fails with a code.
pub record Pictures : Type 0 where
  pub sent : ℤ
  pub pictures : List Picture
  pub no_more : Bool
  pub code : ℤ

-- One call of av_parser_parse2: how much it takes, or its error, and the size of the packet.
pub record Parsed : Type 0 where
  pub taken : ℤ
  pub packet_size : ℕ
  pub found : Pictures

pub record Replies : Type 0 where
  pub output_given : Bool
  pub parsed : ℕ → Parsed
  pub flush : Pictures

abbrev image_of : Block → Ptr
image_of (frame_block p) = p
image_of _ = 0

-- yuv2rgb: the scaler writes the rows of the picture into the rgb frame, whose rows are those of the
-- options.
unfoldable pub yuv2rgb : Bool → Picture → Options → Call Ptr
unfolding get load print_error
yuv2rgb plain r o = do
  f ← get (field rgb_frame)
  (if r.width == 0 || r.height == 0 || f == 0 then stop else pure tt)
  (if r.scaler_given then pure tt else (print_error plain >> stop))
  b ← load f
  image ← load (image_of b)
  (if ltb (capacity image) ((r.height - 1) * (o.width * 3) + r.width * 3)
      then (λ s. fault)
      else pure tt)
  (if is_fine r.scaled then pure tt else (print_error plain >> stop))
  pure (image_of b)

abbrev set_out : Ptr → Call (Unit {0})
set_out p s = done tt (record s { ptr = p })

abbrev set_len : ℤ → Call (Unit {0})
set_len n s = done tt (record s { len = usize_or_zero n })

abbrev pub trace : String
trace = "ffmpeg::w_ffmpeg_decode_frame"

-- avcodec_receive_frame puts a picture into the yuv frame.
unfoldable pub look_yuv : Call (Unit {0})
unfolding get look
look_yuv = do c ← get (field context); look c; y ← get (field yuv_frame); look y

unfoldable pub converted : Errors → Picture → Option Ptr → Call (Unit {0})
unfolding require
converted e r none = require e false [] trace "failed in converting yuv to rgb" (negsuc 0)
converted e r (some p) = do
  set_out p
  require e (is_fine r.size) [] trace "failed in get the size of the frame buffer" (pos 0)
  set_len r.size

unfoldable pub convert : Errors → Picture → Options → Call (Unit {0})
unfolding yuv2rgb converted
convert e r o = do image ← called (yuv2rgb e.plain r o); converted e r image

unfoldable pub show : Errors → List Picture → Bool → ℤ → Options → Call (Unit {0})
unfolding look_yuv convert require
show e [] no_more code o = do look_yuv; require e no_more [] trace "error during decoding" code
show e (r ∷ rs) no_more code o = do look_yuv; convert e r o; show e rs no_more code o

unfoldable pub decode_frame : Errors → Pictures → Options → Call ℤ
unfolding get look require show
decode_frame e r o = do
  c ← get (field context)
  look c
  require e (is_fine r.sent) [] trace "failed to send the packet" (pos 0)
  show e r.pictures r.no_more r.code o
  pure r.sent

-- av_parser_parse2 looks into the parser and the context and writes into the packet; it reads `size`
-- bytes of what the caller gave.
unfoldable pub parse : Errors → Parsed → ℕ → ℕ → Call (Unit {0})
unfolding get look require
parse e r given size = do
  q ← get (field parser)
  look q
  c ← get (field context)
  look c
  p ← get (field packet)
  look p
  (if ltb given size then (λ s. fault) else pure tt)
  require e (is_fine r.taken) groups "ffmpeg::w_ffmpeg_decode" "failed in parsing during decoding"
      (pos 0)

-- The loop on fuel, at its `i`th turn, with what is given and what is left from `data` on. What a
-- frame's decoding returned is forgotten.
unfoldable pub parse_all : Errors → (ℕ → Parsed) → Options → ℕ → ℕ → ℕ → ℕ → Call (Unit {0})
unfolding parse decode_frame
parse_all e rs o zero i given size = λ s. looping
parse_all e rs o (suc fuel) i given size = do
  let r = rs i
  let given' = given - usize_or_zero r.taken
  let size' = size - usize_or_zero r.taken
  let rest = parse_all e rs o fuel (i + 1) given' size'
  parse e r given size
  if r.packet_size == 0 then pure none else called (decode_frame e r.found o)
  if size' == 0 then pure tt else rest

-- What follows the test for null pointers.
unfoldable pub decode_open : Errors → Replies → ℕ → ℕ → ℕ → Options → Call ℤ
unfolding allocate require parse_all set decode_frame or_leave
decode_open e r fuel given size o = do
  allocate r.output_given (bytes (o.width * o.height * 3)) output
  require e r.output_given groups "ffmpeg::w_ffmpeg_decode" "failed to allocate the output buffer"
      (pos 0)
  parse_all e r.parsed o fuel 0 given size
  set (field packet) 0
  or_leave e (decode_frame e r.flush o)

unfoldable pub decode : Errors → Replies → ℕ → ℕ → ℕ → Options → Call ℤ
unfolding decode_open
decode e r fuel given size o s =
    if s.ctx == 0 then failed s else decode_open e r fuel given size o s

abbrev pub fini_groups : List Group
fini_groups = resources ++ (opt ∷ ctx ∷ field parser ∷ []) ∷ (opt ∷ ctx ∷ []) ∷ []

unfoldable pub fini : Call (Unit {0})
unfolding cleanup
fini = cleanup fini_groups
