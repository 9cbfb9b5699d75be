-- ===== src/Ffmpeg/Init.antt =====
-- `w_ffmpeg_init` with the two functions that it calls, in wolf/sys/media/ffmpeg.cpp.
pub mod Fields
pub mod Safety
pub mod Leaks
use wolf_engine.Base.{
  ℕ, ◌+◌, ◌*◌, Bool, true, false, Option, none, some, List, [], ◌∷◌, ◌++◌, String, ◌==◌,
  if◌then◌else◌,
}
use wolf_engine.Base.Int.{ℤ, pos, negsuc}
use wolf_engine.Rist.Store.{Ptr}
use wolf_engine.Ffmpeg.{
  packet, context, yuv_frame, rgb_frame, parser, Context, ctx_block, packet_block, codec_block,
  parser_block, frame_block, bytes, Memory, Run, done, failed, fault, looping, Call, pure, and_then,
  caught, ◌>>=◌, ◌>>◌, called, store,
}
use wolf_engine.Ffmpeg.Cleanup.{
  Slot, opt, ctx, frame_buffer, get, Group, Errors, leave, require, allocate, field,
}

-- w_ffmpeg_action, and any other value of the enumeration
pub data Action : Type 0 where
  encode : Action
  decode : Action
  unknown : Action

-- w_ffmpeg_opt_t, but for what is only handed on to the library. `h264` says whether `codec_id` is
-- AV_CODEC_ID_H264, and the sides of a picture are not negative.
pub record Options : Type 0 where
  pub width : ℕ
  pub height : ℕ
  pub h264 : Bool
  pub action : Action

-- What `calloc` and the library answer during `w_ffmpeg_init`: whether they give what is asked for,
-- and their return codes.
pub record Replies : Type 0 where
  pub ctx_given : Bool
  pub packet_given : Bool
  pub yuv_given : Bool
  pub codec_found : Bool
  pub context_given : Bool
  pub preset : ℤ
  pub rgb_given : Bool
  pub buffer_given : Bool
  pub filled : ℤ
  pub parser_given : Bool
  pub opened : ℤ

-- `ret < 0` fails
abbrev pub is_fine : ℤ → Bool
is_fine (pos n) = true
is_fine (negsuc n) = false

abbrev pub empty_ctx : Context
empty_ctx = record { packet = 0; context = 0; yuv_frame = 0; rgb_frame = 0; parser = 0 }

-- The picture of a frame: av_image_fill_arrays makes it point into a buffer.
unfoldable pub set_image : Slot → Ptr → Call (Unit {0})
unfolding get store
set_image x p = do f ← get x; store f (some (frame_block p))

abbrev context_group : List Group
context_group = (opt ∷ ctx ∷ field context ∷ []) ∷ []

abbrev rgb_group : List Group
rgb_group = context_group ++ (opt ∷ ctx ∷ field rgb_frame ∷ []) ∷ []

abbrev buffer_group : List Group
buffer_group = rgb_group ++ (frame_buffer ∷ []) ∷ []

abbrev parser_group : List Group
parser_group = buffer_group ++ (opt ∷ ctx ∷ field parser ∷ []) ∷ []

module _ (e : Errors) (r : Replies) (o : Options) where
  unfoldable pub init_encoder : Call ℤ
  unfolding require allocate
  init_encoder = do
    let fail = require e
    let trace : String = "ffmpeg::w_ffmpeg_init_encoder"
    fail r.codec_found [] trace "failed to find the specified coded" (pos 0)
    allocate r.context_given codec_block (field context)
    fail r.context_given context_group trace "failed to allocate video codec context" (pos 0)
    (if o.h264
        then fail (is_fine r.preset) context_group trace "failed to set the options" r.preset
        else pure tt)
    fail (is_fine r.opened) context_group trace "failed to open the codec" r.opened
    pure r.opened

  unfoldable pub init_decoder : Call ℤ
  unfolding require allocate set_image
  init_decoder = do
    let fail = require e
    let trace : String = "ffmpeg::w_ffmpeg_init_decoder"
    fail r.codec_found [] trace "failed to find the specified coded" (pos 0)
    allocate r.context_given codec_block (field context)
    fail r.context_given context_group trace "failed to allocate video codec context" (pos 0)
    allocate r.rgb_given (frame_block 0) (field rgb_frame)
    fail r.rgb_given rgb_group trace "failed to allocate the frame" (pos 0)
    allocate r.buffer_given (bytes (o.width * o.height * 3)) frame_buffer
    fail r.buffer_given buffer_group trace "failed to allocate the buffer for frame" (pos 0)
    fail (is_fine r.filled) buffer_group trace "failed to find fill the image" r.filled
    p ← get frame_buffer
    set_image (field rgb_frame) p
    allocate r.parser_given parser_block (field parser)
    fail r.parser_given parser_group trace "failed to find the parser" (pos 0)
    fail (is_fine r.opened) parser_group trace "failed to open the codec" r.opened
    pure r.opened

  -- The cleanup of what `w_ffmpeg_init` registered, if the function that it calls has failed.
  abbrev pub or_close : List Group → Option ℤ → Call ℤ
  or_close gs none = leave e gs
  or_close gs (some n) = pure (pos 0)

  -- The `switch` over the action.
  unfoldable pub by_action : Action → List Group → Call ℤ
  unfolding init_encoder init_decoder
  by_action encode gs = do ret ← called init_encoder; or_close gs ret
  by_action decode gs = do ret ← called init_decoder; or_close gs ret
  by_action unknown gs = do
    require e false gs "ffmpeg::w_ffmpeg_init"
        "ffmpeg action not found. please provide ffmpeg action (e.g W_ENCODE or W_DECODE)" (pos 0)
    pure (pos 0)

abbrev pub ctx_group : List Group
ctx_group = (opt ∷ ctx ∷ []) ∷ []

abbrev pub packet_group : List Group
packet_group = ctx_group ++ (ctx ∷ field packet ∷ []) ∷ []

abbrev pub yuv_group : List Group
yuv_group = packet_group ++ (ctx ∷ field yuv_frame ∷ []) ∷ []

unfoldable pub init : Errors → Replies → Options → Call ℤ
unfolding require allocate by_action
init e r o = do
  let fail = require e
  let trace : String = "ffmpeg::w_ffmpeg_init"
  allocate r.ctx_given (ctx_block empty_ctx) ctx
  fail r.ctx_given ctx_group trace "failed to allocate the context" (pos 0)
  allocate r.packet_given packet_block (field packet)
  fail r.packet_given packet_group trace "failed to allocate the packet" (pos 0)
  allocate r.yuv_given (frame_block 0) (field yuv_frame)
  fail r.yuv_given yuv_group trace "failed to allocate the frame" (pos 0)
  by_action e r o o.action yuv_group
