-- ===== src/Ffmpeg/Program/Frames.antt =====
-- How the programs of an encoder end: no undefined behaviour, and one frame for each initialization.
use wolf_engine.Base.{ℕ, ◌+◌, ◌≤◌, ◌≡◌, List, [], ◌∷◌}
use wolf_engine.Ffmpeg.{yuv_frame, packet, context, rgb_frame, parser, Memory}
use wolf_engine.Ffmpeg.Cleanup.{Errors}
use wolf_engine.Ffmpeg.Init
use wolf_engine.Ffmpeg.Init.{Options, encode}
use wolf_engine.Ffmpeg.Init.Safety.{IsStarted, IsClosed}
use wolf_engine.Ffmpeg.Encode
use wolf_engine.Ffmpeg.Encode.Frames.{IsRoomy}
use wolf_engine.Ffmpeg.Encode.Safety.{IsSpent}
use wolf_engine.Ffmpeg.Ends.{Ends}
use wolf_engine.Ffmpeg.Releases.{Tag, of_field, of_ctx}
use wolf_engine.Ffmpeg.Calls.{returned}
use wolf_engine.Ffmpeg.Program.{Command, Tally, step}

abbrev fini_tags : List Tag
fini_tags =
    of_field packet
    ∷ of_field context
    ∷ of_field yuv_frame
    ∷ of_field rgb_frame
    ∷ of_field parser
    ∷ of_ctx
    ∷ []

-- What the calls of an encoder leave.
pub data Phase (s : Memory) : Type 0 where
  started : IsStarted s → Phase s
  spent : IsSpent s → Phase s
  closed : IsClosed s → Phase s

-- The encodings that may still succeed.
abbrev pub credit : {s : Memory} → Phase s → ℕ
credit (started h) = 1
credit (spent h) = 0
credit (closed h) = 0

module _ (e : Errors) (roomy : IsRoomy e) (o : Options) (encoding : o.action ≡ encode) where
  -- A call ends, and an encoding that succeeds takes up what a start has given.
  abbrev Steps : (k : Command) (s : Memory) → ℕ → Type 0
  Steps k s before =
      (t : Tally) × (s' : Memory) × (step e o k s ≡ returned t s')
      × ((p : Phase s') × (t.frames + credit p ≤ t.starts + before))
