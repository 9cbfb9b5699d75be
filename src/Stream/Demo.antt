-- ===== src/Stream/Demo.antt =====
-- An application, a host and a websocket library to evaluate the modules of wolf/src/stream on.
use wolf_engine.Base.{ℕ, suc, [], ◌∷◌, Result, ok, overwrite, length-overwrite, arith}
use wolf_engine.Stream.{App, Io, Buffer}
use wolf_engine.Stream.Buffers.{KeepsBuffer}

-- A callback over a counter, for any address; the other callbacks consent.
abbrev pub app_of : (ℕ → Buffer → ℕ × Buffer × Result (Unit {0}) (Unit {0})) → App
app_of on_message = record {
  St = ℕ;
  Addr = ℕ;
  Secs = ℕ;
  Failure = Unit {0};
  debug_failure = λ e. "refused";
  on_message = λ s t a b. on_message s b;
  on_accept = λ s a. (s, ok tt);
  on_close = λ s a m. (s, ok tt);
}

-- Answers every message with two bytes, the second of which counts the messages.
abbrev pub answering : App
answering =
    app_of (λ s b. (suc s, record b { size = 2; buf = overwrite (7 ∷ s ∷ []) b.buf }, ok tt))

-- Answers nothing.
abbrev pub mute : App
mute = app_of (λ s b. (suc s, record b { size = 0 }, ok tt))

-- Claims an answer that no buffer holds.
abbrev pub oversize : App
oversize = app_of (λ s b. (suc s, record b { size = 2000 }, ok tt))

abbrev pub io : Io
io = record { IoError = Unit {0}; debug_error = λ e. "io"; timed_out = tt }

pub answering-KeepsBuffer : KeepsBuffer answering
answering-KeepsBuffer = record {
  kept = λ s t a b h. omega (arith, length-overwrite (7 ∷ s ∷ []) b.buf);
}

pub mute-KeepsBuffer : KeepsBuffer mute
mute-KeepsBuffer = record { kept = λ s t a b h. h }

pub oversize-KeepsBuffer : KeepsBuffer oversize
oversize-KeepsBuffer = record { kept = λ s t a b h. h }
