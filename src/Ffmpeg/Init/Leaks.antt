-- ===== src/Ffmpeg/Init/Leaks.antt =====
-- What `w_ffmpeg_init` of wolf/sys/media/ffmpeg.cpp loses where it fails.
use wolf_engine.Base.{◌+◌, ◌≡◌, ◌∙◌, ap, refl, true, false, none, some, arith, err}
use wolf_engine.Base.Int.{pos}
use wolf_engine.Rist.Store.{write, calloc}
use wolf_engine.Ffmpeg.{
  Context, packet, yuv_frame, update, packet_block, frame_block, Memory, done, failed, load, store,
  free, load_ctx,
}
use wolf_engine.Ffmpeg.Cleanup.{get, set, Errors, require, make_error, cleanup, release}
use wolf_engine.Ffmpeg.Init.{
  Options, Replies, encode, empty_ctx, init_encoder, by_action, init, yuv_group,
}
use wolf_engine.Ffmpeg.Init.Fields.{placed, placed_lem, placed-IsBoth}
use wolf_engine.Ffmpeg.Init.Safety.{with_ctx, with_ctx-IsBoth}
use wolf_engine.Ffmpeg.Sound.{IsSound, IsOpen}
use wolf_engine.Ffmpeg.Encode.Convert.{IsBoth}
use wolf_engine.Ffmpeg.Encode.Frames.{IsRoomy, written_le}
use wolf_engine.Ffmpeg.Calls.{returned, ffmpeg_init}

-- The context is the first that `w_ffmpeg_init` frees, and the others are reached through it.
closed_memory : Memory → Memory
closed_memory s = record s { heap = write s.heap s.ctx none; ctx = 0 }

yuv_group-cleanup :
    (c : Context) (s : Memory) → IsOpen s c → cleanup yuv_group s ≡ done tt (closed_memory s)
unfolding closed_memory cleanup release get set free load store write load_ctx
yuv_group-cleanup c s o = ground (arith, o.here, o.pos)

-- The library gives what it is asked for until it does not know the codec.
abbrev pub no_codec : Replies → Replies
no_codec r = record r {
  ctx_given = true;
  packet_given = true;
  yuv_given = true;
  codec_found = false;
}

module _ (e : Errors) (roomy : IsRoomy e) (r : Replies) (o : Options) where
  refused : (s : Memory) → init_encoder e (no_codec r) o s ≡ failed s
  unfolding init_encoder require make_error cleanup
  refused s = rw (
      written_le e roomy "ffmpeg::w_ffmpeg_init_encoder" "failed to find the specified coded"
        (pos 0) (omega arith))

  by_action-refused :
      (c : Context) (s : Memory)
      → IsOpen s c
      → by_action e (no_codec r) o encode yuv_group s ≡ failed (closed_memory s)
  unfolding by_action
  by_action-refused c s op = rw (refused s) (rw (yuv_group-cleanup c s op))

  -- The memory with a context, a packet and a frame.
  abbrev with_packet : Memory → Memory
  with_packet s = placed true packet_block packet empty_ctx (with_ctx true s)

  abbrev started_ctx : Memory → Context
  started_ctx s = update packet (calloc true packet_block (with_ctx true s).heap).0 empty_ctx

  abbrev with_frame : Memory → Memory
  with_frame s = placed true (frame_block 0) yuv_frame (started_ctx s) (with_packet s)

  packet_placed : (s : Memory) → IsSound s → IsBoth (started_ctx s) (with_packet s)
  packet_placed s k =
      placed-IsBoth true packet_block packet empty_ctx (with_ctx true s) refl (with_ctx-IsBoth s k)

  frame_placed :
      (s : Memory)
      → IsSound s
      → IsBoth
          (update yuv_frame (calloc true (frame_block 0) (with_packet s).heap).0 (started_ctx s))
          (with_frame s)
  frame_placed s k =
      placed-IsBoth true (frame_block 0) yuv_frame (started_ctx s) (with_packet s) refl
        (packet_placed s k)

  init-no_codec :
      (s : Memory)
      → IsSound s
      → o.action ≡ encode
      → init e (no_codec r) o s ≡ failed (closed_memory (with_frame s))
  unfolding init require
  init-no_codec s k encoding =
      rw (placed_lem true packet_block packet empty_ctx (with_ctx true s) (with_ctx-IsBoth s k)) (
        rw
          (placed_lem true (frame_block 0) yuv_frame (started_ctx s) (with_packet s)
            (packet_placed s k))
          (ap (λ a. by_action e (no_codec r) o a yuv_group (with_frame s)) encoding
            ∙ by_action-refused _ (with_frame s) (frame_placed s k).1))

  no_ctx : (s : Memory) → (closed_memory (with_frame s)).ctx ≡ 0
  unfolding closed_memory
  no_ctx s = refl

  packet_left :
      (s : Memory) → (closed_memory (with_frame s)).heap.cell (s.heap.next + 1) ≡ some packet_block
  unfolding closed_memory calloc write
  packet_left s = ground arith

  frame_left :
      (s : Memory)
      → (closed_memory (with_frame s)).heap.cell (s.heap.next + 2) ≡ some (frame_block 0)
  unfolding closed_memory calloc write
  frame_left s = ground arith

  -- In a sound memory, with the options of an encoder, and a buffer of 400 bytes for errors that the
  -- library's texts take up to 259 of: where the context, the packet and the frame are given and the codec is then not
  -- known, `ffmpeg_init` fails and loses two blocks. The packet and the frame that it has allocated
  -- stay allocated, and the options have no context any more.
  pub init-loses_blocks :
      (s : Memory)
      → IsSound s
      → o.action ≡ encode
      → (s' : Memory) × (ffmpeg_init e (no_codec r) (some o) s
          ≡ returned (err "could not initialize ffmpeg") s')
        × (s'.ctx ≡ 0)
        × (s'.heap.cell (s.heap.next + 1) ≡ some packet_block)
        × (s'.heap.cell (s.heap.next + 2) ≡ some (frame_block 0))
  unfolding ffmpeg_init
  init-loses_blocks s k encoding = (
    closed_memory (with_frame s),
    rw (init-no_codec s k encoding),
    no_ctx s,
    packet_left s,
    frame_left s,
  )
