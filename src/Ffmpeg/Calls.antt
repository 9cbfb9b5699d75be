-- ===== src/Ffmpeg/Calls.antt =====
-- The functions of wolf/src/media/ffmpeg.rs.
use wolf_engine.Base.{ℕ, Option, none, some, String, Result, ok, err, ◌==◌, if◌then◌else◌}
use wolf_engine.Base.Int.{ℤ, pos, negsuc}
use wolf_engine.Ffmpeg.{Memory, Run, done, failed, fault, looping}
use wolf_engine.Ffmpeg.Cleanup.{Errors}
use wolf_engine.Ffmpeg.Init
use wolf_engine.Ffmpeg.Init.{Options, init}
use wolf_engine.Ffmpeg.Encode
use wolf_engine.Ffmpeg.Encode.{encode}
use wolf_engine.Ffmpeg.Decode
use wolf_engine.Ffmpeg.Decode.{decode, fini}

-- A call of Rust returns, or is undefined behaviour, or is still in its loop.
pub data Outcome (A : Type 0) : Type 0 where
  returned : A → Memory → Outcome A
  undefined : Outcome A
  running : Outcome A

abbrev is_zero : ℤ → Result String (Unit {0}) → Result String (Unit {0})
is_zero (pos n) e = if n == 0 then ok tt else e
is_zero (negsuc n) e = e

-- `match ret`
abbrev pub to_result : String → Run ℤ → Outcome (Result String (Unit {0}))
to_result msg (done ret s) = returned (is_zero ret (err msg)) s
to_result msg (failed s) = returned (err msg) s
to_result msg fault = undefined
to_result msg looping = running

-- The options are `none` for a null pointer: `w_ffmpeg_init` refuses it, and the others look into it
-- before they test it.
unfoldable pub ffmpeg_init :
    Errors → Init.Replies → Option Options → Memory → Outcome (Result String (Unit {0}))
unfolding init
ffmpeg_init e r none s = returned (err "could not initialize ffmpeg") s
ffmpeg_init e r (some o) s = to_result "could not initialize ffmpeg" (init e r o s)

-- Given the number of bytes of `p_data_in`.
unfoldable pub ffmpeg_encode :
    Errors → Encode.Replies → ℕ → Option Options → Memory → Outcome (Result String (Unit {0}))
unfolding encode
ffmpeg_encode e r given none s = undefined
ffmpeg_encode e r given (some o) s = to_result "could not encode the buffer" (encode e r given o s)

unfoldable pub ffmpeg_decode :
    Errors
    → Decode.Replies
    → ℕ
    → ℕ
    → ℕ
    → Option Options
    → Memory
    → Outcome (Result String (Unit {0}))
unfolding decode
ffmpeg_decode e r fuel given size none s = undefined
ffmpeg_decode e r fuel given size (some o) s =
    to_result "could not decode the buffer" (decode e r fuel given size o s)

abbrev to_unit : Run (Unit {0}) → Outcome (Unit {0})
to_unit (done u s) = returned tt s
to_unit (failed s) = returned tt s
to_unit fault = undefined
to_unit looping = running

unfoldable pub ffmpeg_fini : Option Options → Memory → Outcome (Unit {0})
unfolding fini
ffmpeg_fini none s = undefined
ffmpeg_fini (some o) s = to_unit (fini s)
