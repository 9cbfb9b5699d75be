-- ===== src/Ffmpeg/Encode/Frames.antt =====
-- What `w_ffmpeg_encode_frame` and an early return of wolf/sys/media/ffmpeg.cpp do to a sound memory.
use wolf_engine.Base.{
  ℕ, ◌+◌, ◌≤◌, ◌≡◌, sym, subst, refl, Bool, true, false, some, List, [], ◌∷◌, ◌==◌, ltb, arith, map,
  String,
}
use wolf_engine.Base.Int.{ℤ}
use wolf_engine.Ffmpeg.{
  Context, packet, context, bytes, Memory, Call, and_then, ◌>>◌, load, load_ctx,
}
use wolf_engine.Ffmpeg.Cleanup.{get, Errors, require, make_error, size, cleanup, written}
use wolf_engine.Ffmpeg.Init.{is_fine}
use wolf_engine.Ffmpeg.Encode.{Packets, encode_frame, receive, look}
use wolf_engine.Ffmpeg.Ends.{Ends, returns, fails, bind, mono}
use wolf_engine.Ffmpeg.Releases.{Tag, group, IsValid, Cleaned, cleanup_lem}
use wolf_engine.Ffmpeg.Encode.Convert.{IsBoth}

-- The caller's buffer for errors takes the longest of them, and is a format that prints itself. The
-- library's texts are cut at 259 bytes.
pub record IsRoomy (e : Errors) : Type 0 where
  pub short : (code : ℤ) → size (e.describe code) ≤ 259
  pub enough : 400 ≤ e.room
  pub is_plain : e.plain ≡ true

module _ (e : Errors) (roomy : IsRoomy e) where
  pub written_le :
      (trace msg : String) (code : ℤ)
      → size msg + size trace ≤ 116
      → ltb e.room (written e trace msg code) ≡ false
  written_le trace msg code h = ground (arith, roomy.short code, roomy.enough)

  pub require-Ends :
      (b : Bool) (ts : List Tag) (trace msg : String) (code : ℤ) (s : Memory)
      → size msg + size trace ≤ 116
      → IsValid s
      → Ends
          (λ u s'. (b ≡ true) × (s' ≡ s))
          (λ s'. Cleaned ts s s')
          (require e b (map group ts) trace msg code s)
  unfolding require make_error
  require-Ends true ts trace msg code s h v = returns (refl, refl)
  require-Ends false ts trace msg code s h v =
      let (s', cleaned) = cleanup_lem ts s v in
      rw (written_le trace msg code h, cleaned.ends) (fails cleaned)

  pub require-nothing :
      (b : Bool) (trace msg : String) (code : ℤ) (s : Memory)
      → size msg + size trace ≤ 116
      → Ends (λ u s'. s' ≡ s) (λ s'. s' ≡ s) (require e b [] trace msg code s)
  unfolding require make_error cleanup
  require-nothing true trace msg code s h = returns refl
  require-nothing false trace msg code s h = rw (written_le trace msg code h) (fails refl)

-- The same memory but for the length that the caller reads.
abbrev pub IsLonger : Memory → Memory → Type 0
IsLonger s s' = (n : ℕ) × (s' ≡ record s { len = n })

abbrev pub sum : List ℕ → ℕ
sum [] = 0
sum (n ∷ ns) = n + sum ns

module _ (e : Errors) (roomy : IsRoomy e) (no_more : Bool) (cap : ℕ) where
  -- Packets that fit into the caller's buffer are copied without an overflow.
  receive-Ends :
      (code : ℤ) (ns : List ℕ) (i : ℕ) (s : Memory)
      → s.heap.cell s.ptr ≡ some (bytes cap)
      → i + sum ns ≤ cap
      → Ends
          (λ j s'. (j ≡ i + sum ns) × IsLonger s s')
          (λ s'. IsLonger s s')
          (receive e code ns no_more i s)
  unfolding receive load
  receive-Ends code [] i s b h =
      bind
        (require-nothing e roomy no_more "ffmpeg::w_ffmpeg_encode_frame" "error during the encoding"
          code s (omega arith))
        (λ u s' p. returns (omega arith, (s.len, p))) (λ s' p. (s.len, p))
  receive-Ends code (n ∷ ns) i s b h =
      let fits : ltb cap (i + n) ≡ false = ground arith in
      rw (b, and_then)
        (rw fits (
          mono (receive-Ends code ns (i + n) (record s { len = s.len + n }) b (omega arith))
            (λ j s' p. (omega (arith, p.0), p.1)) (λ s' p. p)))

module _ (e : Errors) (r : Packets) (c : Context) where
  -- It looks at the packet and at the codec.
  abbrev sends : ℕ → Call ℕ
  sends i =
      require e (is_fine r.sent) [] "ffmpeg::w_ffmpeg_encode_frame"
        "failed to send the frame for encoding" r.sent
      >> receive e r.sent r.sizes r.no_more i

  opens :
      (i : ℕ) (s : Memory)
      → IsBoth c s
      → (c.packet == 0) ≡ false
      → (c.context == 0) ≡ false
      → encode_frame e r i s ≡ sends i s
  unfolding encode_frame get look load load_ctx
  opens i s (k, o) p x = ground (arith, o.here, o.parts packet, o.parts context)

module _ (e : Errors) (roomy : IsRoomy e) (r : Packets) (c : Context) where
  pub encode_frame-Ends :
      (i cap : ℕ) (s : Memory)
      → IsBoth c s
      → (c.packet == 0) ≡ false
      → (c.context == 0) ≡ false
      → s.heap.cell s.ptr ≡ some (bytes cap)
      → i + sum r.sizes ≤ cap
      → Ends
          (λ j s'. (j ≡ i + sum r.sizes) × IsLonger s s')
          (λ s'. IsLonger s s')
          (encode_frame e r i s)
  encode_frame-Ends i cap s (k, o) p x b h = rw (opens e r c i s (k, o) p x) (
      bind
        (require-nothing e roomy (is_fine r.sent) "ffmpeg::w_ffmpeg_encode_frame"
          "failed to send the frame for encoding" r.sent s (omega arith))
        (λ u s' q.
          subst
            (λ s''.
              Ends (λ j t. (j ≡ i + sum r.sizes) × IsLonger s t) (λ t. IsLonger s t)
                (receive e r.sent r.sizes r.no_more i s''))
            (sym q) (receive-Ends e roomy r.no_more cap r.sent r.sizes i s b h))
        (λ s' q. (s.len, q)))
