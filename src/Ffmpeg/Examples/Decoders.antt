-- ===== src/Ffmpeg/Examples/Decoders.antt =====
-- Runs and witnesses for a context in a given memory.
use wolf_engine.Base.{◌≡◌, ◌==◌, if◌then◌else◌, refl, true, none, some, [], ◌∷◌, ok}
use wolf_engine.Base.Int.{pos}
use wolf_engine.Ffmpeg.{
  Memory, Context, packet, context, yuv_frame, rgb_frame, parser, bytes, ctx_block, packet_block,
  codec_block, frame_block, parser_block,
}
use wolf_engine.Ffmpeg.Decode.Once.{decode-once}
use wolf_engine.Ffmpeg.Decode
use wolf_engine.Ffmpeg.Decode.{Picture, Pictures, Parsed}
use wolf_engine.Ffmpeg.Calls.{returned, undefined, ffmpeg_decode}
use wolf_engine.Ffmpeg.Examples.{errors, decoder}

-- A decoder in the memory that `ffmpeg_init` leaves.
abbrev decoding : Memory
decoding = record {
  heap = record {
    next = 8;
    cell = λ a.
        if a == 1
        then some (
            ctx_block
              (record { packet = 2; context = 4; yuv_frame = 3; rgb_frame = 5; parser = 7 }))
        else if a == 2
        then some packet_block
        else if a == 3
        then some (frame_block 0)
        else if a == 4
        then some codec_block
        else if a == 5
        then some (frame_block 6)
        else if a == 6
        then some (bytes 24)
        else if a == 7
        then some parser_block
        else none;
  };
  ctx = 1;
  ptr = 0;
  len = 0;
  frame_buffer = 6;
}

abbrev picture : Pictures
picture = record {
  sent = pos 0;
  pictures =
      record { width = 4; height = 2; scaler_given = true; scaled = pos 2; size = pos 24 } ∷ [];
  no_more = true;
  code = pos 0;
}

abbrev decoded : Decode.Replies
decoded = record {
  output_given = true;
  parsed = λ i. record { taken = pos 9; packet_size = 9; found = picture };
  flush = picture;
}

-- What the first decoding leaves: the picture of the rgb frame, and the packet forgotten.
abbrev after_decoding : Memory
after_decoding = record {
  heap = record {
    next = 9;
    cell = λ a.
        if a == 1
        then some (
            ctx_block
              (record { packet = 0; context = 4; yuv_frame = 3; rgb_frame = 5; parser = 7 }))
        else if a == 8
        then some (bytes 24)
        else decoding.heap.cell a;
  };
  ctx = 1;
  ptr = 6;
  len = 24;
  frame_buffer = 6;
}

first_decoding :
    ffmpeg_decode errors decoded 2 9 9 (some decoder) decoding ≡ returned (ok tt) after_decoding
unfolding ffmpeg_decode
first_decoding = refl

decode-once_example : ffmpeg_decode errors decoded 2 9 9 (some decoder) after_decoding ≡ undefined
decode-once_example =
    decode-once errors decoder decoded decoded 2 9 9 1 9 9 decoding after_decoding first_decoding
      refl

abbrev decoding_ctx : Context
decoding_ctx = record { packet = 2; context = 4; yuv_frame = 3; rgb_frame = 5; parser = 7 }
