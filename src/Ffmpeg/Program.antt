-- ===== src/Ffmpeg/Program.antt =====
-- Programs that call the functions of wolf/src/media/ffmpeg.rs with the same options.
pub mod Frames
use wolf_engine.Base.{
  ◌<◌, ◌^◌, ℕ, ◌+◌, ◌*◌, ◌≤◌, ◌≡◌, ◌⊎◌, inl, inr, refl, some, List, [], ◌∷◌, arith, String, Result,
  ok, err,
}
use wolf_engine.Base.Int.{ℤ, pos}
use wolf_engine.Stream.Loops.{All}
use wolf_engine.Ffmpeg.{yuv_frame, packet, context, rgb_frame, parser, Context, Memory, Run, failed}
use wolf_engine.Ffmpeg.Cleanup.{Errors}
use wolf_engine.Ffmpeg.Init
use wolf_engine.Ffmpeg.Init.{Options, encode}
use wolf_engine.Ffmpeg.Init.Safety.{IsStarted, IsClosed, init-Ends}
use wolf_engine.Ffmpeg.Encode
use wolf_engine.Ffmpeg.Sound.{IsOpen}
use wolf_engine.Ffmpeg.Encode.{encode_open, rgb2yuv}
use wolf_engine.Ffmpeg.Encode.Convert.{rgb2yuv-Ends}
use wolf_engine.Ffmpeg.Encode.Frames.{IsRoomy, sum}
use wolf_engine.Ffmpeg.Encode.Safety.{
  IsGone, IsSpent, both_valid, longer-IsBoth, or_leave-Ends, encode_open-Ends,
}
use wolf_engine.Ffmpeg.Decode.{fini}
use wolf_engine.Ffmpeg.Ends.{Ends, returns, fails, bind}
use wolf_engine.Ffmpeg.Releases.{IsValid, Tag, of_field, of_ctx, cleanup_lem}
use wolf_engine.Ffmpeg.Calls.{
  Outcome, returned, undefined, running, to_result, ffmpeg_init, ffmpeg_encode, ffmpeg_fini,
}

-- A call, with what the library answers and, for an encoding, the bytes of its input.
pub data Command : Type 0 where
  start : Init.Replies → Command
  frame : Encode.Replies → ℕ → Command
  finish : Command

-- How many calls of `ffmpeg_init` and of `ffmpeg_encode` have returned `Ok`.
pub record Tally : Type 0 where
  pub starts : ℕ
  pub frames : ℕ

abbrev pub succeeded : Result String (Unit {0}) → ℕ
succeeded (ok u) = 1
succeeded (err m) = 0

module _ {A B : Type 0} where
  abbrev pub then_on : Outcome A → (A → Memory → Outcome B) → Outcome B
  then_on (returned a s) k = k a s
  then_on undefined k = undefined
  then_on running k = running

module _ (e : Errors) (o : Options) where
  unfoldable pub step : Command → Memory → Outcome Tally
  unfolding ffmpeg_init ffmpeg_encode ffmpeg_fini
  step (start r) s =
      then_on (ffmpeg_init e r (some o) s)
        (λ a s'. returned (record { starts = succeeded a; frames = 0 }) s')
  step (frame r given) s =
      then_on (ffmpeg_encode e r given (some o) s)
        (λ a s'. returned (record { starts = 0; frames = succeeded a }) s')
  step finish s =
      then_on (ffmpeg_fini (some o) s) (λ a s'. returned (record { starts = 0; frames = 0 }) s')

  abbrev pub plus : Tally → Tally → Tally
  plus a b = record { starts = a.starts + b.starts; frames = a.frames + b.frames }

  unfoldable pub run : List Command → Memory → Outcome Tally
  unfolding step
  run [] s = returned (record { starts = 0; frames = 0 }) s
  run (k ∷ ks) s =
      then_on (step k s) (λ t s'. then_on (run ks s') (λ t' s''. returned (plus t t') s''))

-- A row of the picture has less than 2 ^ 31 bytes, the input has a byte for each of the three colours
-- of each pixel, and the packets of a picture are
-- not longer than it.
abbrev pub Fits : Options → Command → Type 0
Fits o (start r) = Unit {0}
Fits o (frame r given) =
    (o.width * 3 < 2 ^ 31)
    × (o.width * o.height * 3 ≤ given)
    × (sum r.frame.sizes + sum r.flush.sizes ≤ o.width * o.height * 3)
Fits o finish = Unit {0}
