-- ===== src/Ffmpeg/Decode/Returns.antt =====
-- That `ffmpeg_decode` of wolf/src/media/ffmpeg.rs comes to an end.
use wolf_engine.Base.{
  ℕ, zero, suc, ◌+◌, ◌-◌, ◌*◌, ◌<◌, ◌≡◌, ◌≢◌, Bool, true, Option, none, some, ◌==◌, ltb,
  if◌then◌else◌, arith, inl, inr, String, Bool-cases,
}
use wolf_engine.Base.Int.{ℤ, pos, negsuc, usize_or_zero}
use wolf_engine.Ffmpeg.{
  packet, context, parser, bytes, Memory, Run, done, failed, fault, looping, Call, pure, and_then,
  caught, called,
}
use wolf_engine.Ffmpeg.Cleanup.{get, set, field, output, Errors, require, allocate, cleanup}
use wolf_engine.Ffmpeg.Init.{Options, is_fine}
use wolf_engine.Ffmpeg.Encode.{look, groups, checked, or_leave}
use wolf_engine.Ffmpeg.Decode.{
  Pictures, Parsed, Replies, decode_frame, parse, parse_all, decode_open, decode,
}
use wolf_engine.Ffmpeg.Decode.Held.{caught-Held, look-Held, decode_frame-Held}
use wolf_engine.Ffmpeg.Calls.{running, to_result, ffmpeg_decode}
use wolf_engine.Ffmpeg.Decode.Settles.{
  Through, Settles, through, settles, Held-Settles, get-Settles, set-Settles, if-Settles,
  cleanup-Settles, allocate-Settles, require-Through,
}

parse-Through :
    (e : Errors) (r : Parsed) (given size : ℕ) (s : Memory)
    → Through (is_fine r.taken ≡ true) (parse e r given size s)
unfolding parse
parse-Through e r given size s =
    first (get (field parser) s) _ (get-Settles (field parser) s) (λ q s1.
      first (look q s1) _ (Held-Settles s1 _ (look-Held q s1)) (λ u s2.
        first (get (field context) s2) _ (get-Settles (field context) s2) (λ c s3.
          first (look c s3) _ (Held-Settles s3 _ (look-Held c s3)) (λ u s4.
            first (get (field packet) s4) _ (get-Settles (field packet) s4) (λ p s5.
              first (look p s5) _ (Held-Settles s5 _ (look-Held p s5)) (λ u s6.
                first _ _ (if-Settles (ltb given size) (λ t. fault) (pure tt) s6 tt tt) (λ u s7.
                  require-Through e (is_fine r.taken) groups "ffmpeg::w_ffmpeg_decode"
                    "failed in parsing during decoding" (pos 0) s7)))))))
  where
    first :
        {A : Type 0} (x : Run A) (k : A → Call (Unit {0}))
        → Settles x
        → ((a : A) (s : Memory) → Through (is_fine r.taken ≡ true) (k a s))
        → Through (is_fine r.taken ≡ true) (and_then x k)
    first x k h next = through Unit (is_fine r.taken ≡ true) x k h (λ u. next)

module _ (e : Errors) (o : Options) (rs : ℕ → Parsed)
    (takes : (i : ℕ) → is_fine (rs i).taken ≡ true → 0 < usize_or_zero (rs i).taken) where
  parse_all-Settles :
      (fuel i given size : ℕ) (s : Memory)
      → size < fuel
      → Settles (parse_all e rs o fuel i given size s)
  unfolding parse_all
  parse_all-Settles zero i given size s h = absurd (omega arith)
  parse_all-Settles (suc fuel) i given size s h =
      through (is_fine (rs i).taken ≡ true) Unit (parse e (rs i) given size s) _
        (parse-Through e (rs i) given size s)
        (λ fine u s1. settles _ _ (one_frame ((rs i).packet_size == 0) s1) (λ ret s2.
          elim (Bool-cases (size - usize_or_zero (rs i).taken == 0)) [
            | inl over ↦ rw over tt
            | inr more ↦ rw more (
                parse_all-Settles fuel (i + 1) (given - usize_or_zero (rs i).taken)
                  (size - usize_or_zero (rs i).taken) s2 (ground (arith, takes i fine, more)))
          ]))
    where
      one_frame :
          (b : Bool) (s : Memory)
          → Settles ((if b then pure none else called (decode_frame e (rs i).found o)) s)
      one_frame b s = if-Settles b (pure none) (called (decode_frame e (rs i).found o)) s tt (
          Held-Settles s _ (
            caught-Held s (decode_frame e (rs i).found o s) (decode_frame-Held e (rs i).found o s)))

  flush-Settles : (r : Pictures) (s : Memory) → Settles (or_leave e (decode_frame e r o) s)
  unfolding or_leave
  flush-Settles r s =
      settles (caught (decode_frame e r o s)) _
        (Held-Settles s _ (caught-Held s (decode_frame e r o s) (decode_frame-Held e r o s))) back
    where
      back : (ret : Option ℤ) (s : Memory) → Settles (checked e ret s)
      back none s = settles (cleanup groups s) _ (cleanup-Settles groups s) (λ u s'. tt)
      back (some n) s = tt

  decode-Settles :
      (given_output : Bool) (flush : Pictures) (fuel given size : ℕ) (s : Memory)
      → size < fuel
      → Settles (
          decode e
            (record { output_given = given_output; parsed = rs; flush = flush })
            fuel
            given
            size
            o
            s)
  unfolding decode decode_open
  decode-Settles given_output flush fuel given size s h = elim (Bool-cases (s.ctx == 0)) [
    | inl null ↦ rw null tt
    | inr there ↦ rw there (
        settles (allocate given_output (bytes (o.width * o.height * 3)) output s) _
          (allocate-Settles given_output (bytes (o.width * o.height * 3)) output s)
          (λ u s1.
            through (given_output ≡ true) Unit
              (require e given_output groups "ffmpeg::w_ffmpeg_decode"
                "failed to allocate the output buffer" (pos 0) s1)
              _
              (require-Through e given_output groups "ffmpeg::w_ffmpeg_decode"
                "failed to allocate the output buffer" (pos 0) s1)
              (λ g u s2.
                settles (parse_all e rs o fuel 0 given size s2) _
                  (parse_all-Settles fuel 0 given size s2 h)
                  (λ u s3.
                    settles (set (field packet) 0 s3) _ (set-Settles (field packet) 0 s3)
                      (λ u s4. flush-Settles flush s4)))))
  ]

settled-ne-running : (msg : String) (x : Run ℤ) → Settles x → to_result msg x ≢ running
settled-ne-running msg (done (pos n) s) h q = ground (arith, q)
settled-ne-running msg (done (negsuc n) s) h q = cc
settled-ne-running msg (failed s) h q = cc
settled-ne-running msg fault h q = cc
settled-ne-running msg looping h q = h

-- A decoding does not loop for ever: it comes to an end, by a return or by undefined behaviour, within
-- one turn more than there are bytes, whatever its frames are, given that the parser takes at least
-- one byte wherever it does not fail.
decode-returns :
    (e : Errors) (o : Options) (r : Replies) (fuel given size : ℕ) (s : Memory)
    → ((i : ℕ) → is_fine (r.parsed i).taken ≡ true → 0 < usize_or_zero (r.parsed i).taken)
    → size < fuel
    → ffmpeg_decode e r fuel given size (some o) s ≢ running
unfolding ffmpeg_decode
decode-returns e o r fuel given size s takes h =
    settled-ne-running "could not decode the buffer" (decode e r fuel given size o s)
      (decode-Settles e o r.parsed takes r.output_given r.flush fuel given size s h)
