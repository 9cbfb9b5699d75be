-- ===== src/Ffmpeg/Examples.antt =====
-- Runs and witnesses for the modules of wolf/src/media/ffmpeg.rs.
pub mod Decoders
use wolf_engine.Base.{
  ℕ, ◌≡◌, ◌==◌, if◌then◌else◌, refl, true, false, not, ◌||◌, Option, none, some, List, [], ◌∷◌,
  String, Result, ok, err, arith,
}
use wolf_engine.Base.Int.{pos}
use wolf_engine.Rist.Store.{Ptr}
use wolf_engine.Ffmpeg.{
  Memory, Context, Field, packet, context, yuv_frame, rgb_frame, parser, read, bytes, ctx_block,
  packet_block, codec_block, frame_block, parser_block,
}
use wolf_engine.Ffmpeg.Init.Safety.{IsStarted}
use wolf_engine.Ffmpeg.Init.Leaks.{no_codec, init-loses_blocks}
use wolf_engine.Ffmpeg.Decode.Once.{decode-once}
use wolf_engine.Ffmpeg.Encode.Frames.{IsRoomy}
use wolf_engine.Ffmpeg.Sound.{IsSound, IsOpen, same, is_part}
use wolf_engine.Ffmpeg.Program.{Command, start, frame, finish}
use wolf_engine.Ffmpeg.Cleanup.{Errors}
use wolf_engine.Ffmpeg.Init
use wolf_engine.Ffmpeg.Init.{Options}
use wolf_engine.Ffmpeg.Encode
use wolf_engine.Ffmpeg.Encode.{Packets, Conversion}
use wolf_engine.Ffmpeg.Decode
use wolf_engine.Ffmpeg.Decode.{Picture, Pictures, Parsed}
use wolf_engine.Ffmpeg.Calls.{
  Outcome, returned, undefined, running, ffmpeg_init, ffmpeg_encode, ffmpeg_decode,
}

abbrev fresh : Memory
fresh = record {
  heap = record { next = 1; cell = λ a. none };
  ctx = 0;
  ptr = 0;
  len = 0;
  frame_buffer = 0;
}

abbrev pub errors : Errors
errors = record { room = 400; plain = true; describe = λ c. "Invalid argument" }

abbrev pub encoder : Options
encoder = record { width = 4; height = 2; h264 = true; action = Init.encode }

abbrev pub decoder : Options
decoder = record { width = 4; height = 2; h264 = true; action = Init.decode }

abbrev all_given : Init.Replies
all_given = record {
  ctx_given = true;
  packet_given = true;
  yuv_given = true;
  codec_found = true;
  context_given = true;
  preset = pos 0;
  rgb_given = true;
  buffer_given = true;
  filled = pos 24;
  parser_given = true;
  opened = pos 0;
}

abbrev packets : Packets
packets = record { sent = pos 0; sizes = 5 ∷ 3 ∷ []; no_more = true }

abbrev pub encoded : Encode.Replies
encoded = record {
  conversion = record {
    scaler_given = true;
    image_given = true;
    image = 12;
    filled = pos 12;
    scaled = pos 2;
  };
  output_given = true;
  frame = packets;
  flush = packets;
}

abbrev seen : {A : Type 0} → Outcome A → Option (A × Ptr × Ptr × ℕ)
seen (returned a s) = some (a, s.ctx, s.ptr, s.len)
seen undefined = none
seen running = none

abbrev then_do : {A B : Type 0} → Outcome A → (Memory → Outcome B) → Outcome B
then_do (returned a s) f = f s
then_do undefined f = undefined
then_do running f = running

abbrev encoded_once : Outcome (Result String (Unit {0}))
encoded_once =
    then_do (ffmpeg_init errors all_given (some encoder) fresh)
      (ffmpeg_encode errors encoded 24 (some encoder))

first_frame : seen encoded_once ≡ some (ok tt, 1, 6, 16)
unfolding ffmpeg_init ffmpeg_encode
first_frame = refl

-- The second encoding fails, and frees the buffer of the first.
second_frame :
    seen (then_do encoded_once (ffmpeg_encode errors encoded 24 (some encoder)))
    ≡ some (err "could not encode the buffer", 0, 0, 0)
unfolding ffmpeg_init ffmpeg_encode
second_frame = refl

null_options : ffmpeg_encode errors encoded 24 none fresh ≡ undefined
unfolding ffmpeg_encode
null_options = refl

fresh-IsSound : IsSound fresh
fresh-IsSound = record { next_pos = omega arith; unused = λ a h. refl; buffer = refl }

errors-IsRoomy : IsRoomy errors
errors-IsRoomy = record { short = λ c. omega arith; enough = omega arith; is_plain = refl }

abbrev twice : List Command
twice = start all_given ∷ frame encoded 24 ∷ frame encoded 24 ∷ finish ∷ []

init-loses_blocks_example :
    (s' : Memory) × (ffmpeg_init errors (no_codec all_given) (some encoder) fresh
      ≡ returned (err "could not initialize ffmpeg") s')
    × (s'.ctx ≡ 0)
    × (s'.heap.cell 2 ≡ some packet_block)
    × (s'.heap.cell 3 ≡ some (frame_block 0))
init-loses_blocks_example =
    init-loses_blocks errors errors-IsRoomy all_given encoder fresh fresh-IsSound refl
