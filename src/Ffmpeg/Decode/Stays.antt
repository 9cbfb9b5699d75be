-- ===== src/Ffmpeg/Decode/Stays.antt =====
-- What holds where a call of wolf/sys/media/ffmpeg.cpp ends: `w_ffmpeg_decode` keeps the options' context up to its flush.
use wolf_engine.Base.{
  ℕ, zero, suc, ◌+◌, ◌-◌, ◌≡◌, ◌∙◌, refl, Bool, true, false, none, List, ◌==◌, ltb, if◌then◌else◌,
  String,
}
use wolf_engine.Base.Int.{ℤ, pos, usize_or_zero}
use wolf_engine.Ffmpeg.{
  packet, context, parser, Memory, Run, done, failed, fault, looping, Call, and_then, called, pure,
}
use wolf_engine.Ffmpeg.Cleanup.{get, field, Group, Errors, require, make_error, leave, cleanup}
use wolf_engine.Ffmpeg.Init.{Options, is_fine}
use wolf_engine.Ffmpeg.Encode.{look, groups}
use wolf_engine.Ffmpeg.Decode.{Parsed, decode_frame, parse, parse_all}
use wolf_engine.Ffmpeg.Decode.Held.{Held, caught-Held, look-Held, get-Held, decode_frame-Held}

-- What holds if a call comes to its end.
abbrev pub Upon : {A : Type 0} → (A → Memory → Type 0) → Run A → Type 0
Upon P (done a s) = P a s
Upon P (failed s) = Unit
Upon P fault = Unit
Upon P looping = Unit

pub upon :
    {A B : Type 0} (P : A → Memory → Type 0) (R : B → Memory → Type 0) (x : Run A) (k : A → Call B)
    → Upon P x
    → ((a : A) (s : Memory) → P a s → Upon R (k a s))
    → Upon R (and_then x k)
upon P R (done a s) k h next = next a s h
upon P R (failed s) k h next = tt
upon P R fault k h next = tt
upon P R looping k h next = tt

pub always : {A : Type 0} (x : Run A) → Upon (λ a s. Unit {0}) x
always (done a s) = tt
always (failed s) = tt
always fault = tt
always looping = tt

pub settle :
    {A B : Type 0} (R : B → Memory → Type 0) (x : Run A) (k : A → Call B)
    → ((a : A) (s : Memory) → Upon R (k a s))
    → Upon R (and_then x k)
settle R x k next = upon (λ a s. Unit {0}) R x k (always x) (λ a s u. next a s)

-- The context is where it was.
abbrev pub Stays : {A : Type 0} → Memory → Run A → Type 0
Stays s x = Upon (λ a s'. s'.ctx ≡ s.ctx) x

pub Held-Stays : {A : Type 0} (s : Memory) (x : Run A) → Held s x → Stays s x
Held-Stays s (done a s') h = h.1
Held-Stays s (failed s') h = tt
Held-Stays s fault h = tt
Held-Stays s looping h = tt

pub stays :
    {A B : Type 0} (s : Memory) (x : Run A) (k : A → Call B)
    → Stays s x
    → ((a : A) (s' : Memory) → Stays s' (k a s'))
    → Stays s (and_then x k)
stays s x k h next =
    upon (λ a s'. s'.ctx ≡ s.ctx) (λ b s'. s'.ctx ≡ s.ctx) x k h
      (λ a s1 e1. moved_stays s s1 (k a s1) e1 (next a s1))
  where
    moved_stays : {B : Type 0} (s s1 : Memory) (x : Run B) → s1.ctx ≡ s.ctx → Stays s1 x → Stays s x
    moved_stays s s1 (done b t) h g = g ∙ h
    moved_stays s s1 (failed t) h g = tt
    moved_stays s s1 fault h g = tt
    moved_stays s s1 looping h g = tt

-- An early return is not the end of a call.
leave_Upon :
    {A : Type 0} (R : A → Memory → Type 0) (e : Errors) (gs : List Group) (s : Memory)
    → Upon R (leave e {A = A} gs s)
leave_Upon R e gs s = settle R (cleanup gs s) _ (λ u s'. tt)

pub require-Stays :
    (e : Errors) (b : Bool) (gs : List Group) (where_at msg : String) (code : ℤ) (s : Memory)
    → Stays s (require e b gs where_at msg code s)
unfolding require
require-Stays e true gs where_at msg code s = refl
require-Stays e false gs where_at msg code s =
    settle (λ u s'. s'.ctx ≡ s.ctx) (make_error e where_at msg code s) _
      (λ u s'. settle (λ u s'. s'.ctx ≡ s.ctx) (cleanup gs s') _ (λ u s''. tt))

parse-Stays :
    (e : Errors) (r : Parsed) (given size : ℕ) (s : Memory) → Stays s (parse e r given size s)
unfolding parse
parse-Stays e r given size s =
    stays s (get (field parser) s) _ (Held-Stays s _ (get-Held parser s)) (λ q s1.
      stays s1 (look q s1) _ (Held-Stays s1 _ (look-Held q s1)) (λ u s2.
        stays s2 (get (field context) s2) _ (Held-Stays s2 _ (get-Held context s2)) (λ c s3.
          stays s3 (look c s3) _ (Held-Stays s3 _ (look-Held c s3)) (λ u s4.
            stays s4 (get (field packet) s4) _ (Held-Stays s4 _ (get-Held packet s4)) (λ p s5.
              stays s5 (look p s5) _ (Held-Stays s5 _ (look-Held p s5)) (λ u s6.
                stays s6 _ _ (inside s6 (ltb given size)) (λ u s7.
                  require-Stays e (is_fine r.taken) groups "ffmpeg::w_ffmpeg_decode"
                    "failed in parsing during decoding" (pos 0) s7)))))))
  where
    inside :
        (s : Memory) (b : Bool) → Stays {A = Unit {0}} s ((if b then (λ t. fault) else pure tt) s)
    inside s true = tt
    inside s false = refl

pub parse_all-Stays :
    (e : Errors) (rs : ℕ → Parsed) (o : Options) (fuel i given size : ℕ) (s : Memory)
    → Stays s (parse_all e rs o fuel i given size s)
unfolding parse_all
parse_all-Stays e rs o zero i given size s = tt
parse_all-Stays e rs o (suc fuel) i given size s =
    stays s (parse e (rs i) given size s) _ (parse-Stays e (rs i) given size s) (λ u s1.
      stays s1 _ _ (frame_or_not s1 ((rs i).packet_size == 0)) (λ ret s2.
        more s2 (size - usize_or_zero (rs i).taken == 0) _ (
          parse_all-Stays e rs o fuel (i + 1) (given - usize_or_zero (rs i).taken)
            (size - usize_or_zero (rs i).taken) s2)))
  where
    frame_or_not :
        (s : Memory) (b : Bool)
        → Stays s ((if b then pure none else called (decode_frame e (rs i).found o)) s)
    frame_or_not s true = refl
    frame_or_not s false =
        Held-Stays s _
          (caught-Held s (decode_frame e (rs i).found o s) (decode_frame-Held e (rs i).found o s))

    more :
        (s : Memory) (b : Bool) (k : Call (Unit {0}))
        → Stays s (k s)
        → Stays s ((if b then pure tt else k) s)
    more s true k h = refl
    more s false k h = h
