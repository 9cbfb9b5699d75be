-- ===== src/Ffmpeg/Encode/Short.antt =====
-- What `ffmpeg_encode` of wolf/src/media/ffmpeg.rs does with an input that is shorter than its picture.
use wolf_engine.Base.{◌≡◌, true}
use wolf_engine.Ffmpeg.Init.{is_fine}
use wolf_engine.Ffmpeg.Encode.{Conversion}

-- The library gives what it is asked for.
abbrev pub IsGiven : Conversion → Type 0
IsGiven r = (r.scaler_given ≡ true) × (r.image_given ≡ true) × (is_fine r.filled ≡ true)
