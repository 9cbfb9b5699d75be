-- ===== src/Ffmpeg/Decode/Held.antt =====
-- That `w_ffmpeg_decode_frame` of wolf/sys/media/ffmpeg.cpp allocates and frees nothing.
use wolf_engine.Base.{
  ◌≡◌, ◌∙◌, inl, inr, refl, Bool, true, false, ◌||◌, Option, none, some, List, [], ◌∷◌, ◌==◌, ltb,
  if◌then◌else◌, String, Bool-cases,
}
use wolf_engine.Base.Int.{ℤ, pos, negsuc}
use wolf_engine.Rist.Store.{Ptr}
use wolf_engine.Ffmpeg.{
  ◌>>◌, Field, context, yuv_frame, rgb_frame, Block, ctx_block, packet_block, codec_block,
  parser_block, frame_block, bytes, Memory, Run, done, failed, fault, looping, Call, and_then,
  caught, load, load_ctx, as_ctx, pure, stop,
}
use wolf_engine.Ffmpeg.Cleanup.{
  get, field, Errors, require, make_error, written, cleanup, print_error,
}
use wolf_engine.Ffmpeg.Init.{Options, is_fine}
use wolf_engine.Ffmpeg.Encode.{look}
use wolf_engine.Ffmpeg.Decode.{
  trace, Picture, Pictures, yuv2rgb, look_yuv, converted, convert, show, decode_frame,
}

-- A call that comes to an end and leaves the heap and the options' context as they were, also where
-- it returns -1.
abbrev pub SameHeap : Memory → Memory → Type 0
SameHeap s s' = (s'.heap ≡ s.heap) × (s'.ctx ≡ s.ctx)

abbrev pub Held : {A : Type 0} → Memory → Run A → Type 0
Held s (done a s') = SameHeap s s'
Held s (failed s') = SameHeap s s'
Held s fault = Unit
Held s looping = ⊥

moved : {B : Type 0} (s s' : Memory) (x : Run B) → SameHeap s s' → Held s' x → Held s x
moved s s' (done a t) h g = (g.0 ∙ h.0, g.1 ∙ h.1)
moved s s' (failed t) h g = (g.0 ∙ h.0, g.1 ∙ h.1)
moved s s' fault h g = tt
moved s s' looping h g = absurd g

held :
    {A B : Type 0} (s : Memory) (x : Run A) (k : A → Call B)
    → Held s x
    → ((a : A) (s' : Memory) → Held s' (k a s'))
    → Held s (and_then x k)
held s (done a s') k h next = moved s s' (k a s') h (next a s')
held s (failed s') k h next = h
held s fault k h next = tt
held s looping k h next = absurd h

if-Held :
    {A : Type 0} (s : Memory) (b : Bool) (m n : Call A)
    → Held s (m s)
    → Held s (n s)
    → Held s ((if b then m else n) s)
if-Held s true m n hm hn = hm
if-Held s false m n hm hn = hn

pub caught-Held : {A : Type 0} (s : Memory) (x : Run A) → Held s x → Held s (caught x)
caught-Held s (done a t) h = h
caught-Held s (failed t) h = h
caught-Held s fault h = tt
caught-Held s looping h = absurd h

pub load-Held : (p : Ptr) (s : Memory) → Held s (load p s)
unfolding load
load-Held p s = block (s.heap.cell p)
  where
    block :
        (b : Option Block)
        → Held {A = Block} s (elim b as (λ b. Run Block) [ none ↦ fault | some c ↦ done c s ])
    block none = tt
    block (some c) = (refl, refl)

pub look-Held : (p : Ptr) (s : Memory) → Held s (look p s)
unfolding look
look-Held p s = elim (Bool-cases (p == 0)) [
  | inl null ↦ rw null tt
  | inr there ↦ rw there (held s (load p s) _ (load-Held p s) (λ b s'. (refl, refl)))
]

pub load_ctx-Held : (s : Memory) → Held s (load_ctx s)
unfolding load_ctx
load_ctx-Held s = held s (load s.ctx s) _ (load-Held s.ctx s) is_ctx
  where
    is_ctx : (b : Block) (s' : Memory) → Held s' (as_ctx b s')
    is_ctx (ctx_block c) s' = (refl, refl)
    is_ctx packet_block s' = tt
    is_ctx codec_block s' = tt
    is_ctx parser_block s' = tt
    is_ctx (frame_block p) s' = tt
    is_ctx (bytes n) s' = tt

pub get-Held : (f : Field) (s : Memory) → Held s (get (field f) s)
unfolding get
get-Held f s = held s (load_ctx s) _ (load_ctx-Held s) (λ c s'. (refl, refl))

require-Held :
    (e : Errors) (b : Bool) (trace msg : String) (code : ℤ) (s : Memory)
    → Held s (require e b [] trace msg code s)
unfolding require make_error cleanup
require-Held e true trace msg code s = (refl, refl)
require-Held e false trace msg code s = elim (Bool-cases (ltb e.room (written e trace msg code))) [
  | inl over ↦ rw over tt
  | inr fits ↦ rw fits (refl, refl)
]

refused-Held : (plain : Bool) (s : Memory) → Held {A = Unit {0}} s ((print_error plain >> stop) s)
unfolding print_error
refused-Held true s = (refl, refl)
refused-Held false s = tt

yuv2rgb-Held :
    (plain : Bool) (r : Picture) (o : Options) (s : Memory) → Held s (yuv2rgb plain r o s)
unfolding yuv2rgb
yuv2rgb-Held plain r o s = held s (get (field rgb_frame) s) _ (get-Held rgb_frame s) (λ f s1.
    held s1 _ _
      (if-Held s1 (r.width == 0 || r.height == 0 || f == 0) stop (pure tt) (refl, refl)
        (refl, refl))
      (λ u s1'.
        held s1' _ _
          (if-Held s1' r.scaler_given (pure tt) (print_error plain >> stop) (refl, refl)
            (refused-Held plain s1'))
          (λ u s2. held s2 (load f s2) _ (load-Held f s2) (λ b s3.
            held s3 (load _ s3) _ (load-Held _ s3) (λ image s4.
              held s4 _ _ (if-Held s4 (ltb _ _) (λ t. fault) (pure tt) tt (refl, refl)) (λ u s5.
                held s5 _ _
                  (if-Held s5 (is_fine r.scaled) (pure tt) (print_error plain >> stop) (refl, refl)
                    (refused-Held plain s5))
                  (λ u s6. (refl, refl))))))))

converted-Held :
    (e : Errors) (r : Picture) (image : Option Ptr) (s : Memory) → Held s (converted e r image s)
unfolding converted
converted-Held e r none s =
    require-Held e false trace "failed in converting yuv to rgb" (negsuc 0) s
converted-Held e r (some p) s =
    held s _ _ (require-Held e (is_fine r.size) _ _ (pos 0) (record s { ptr = p }))
      (λ u s'. (refl, refl))

convert-Held : (e : Errors) (r : Picture) (o : Options) (s : Memory) → Held s (convert e r o s)
unfolding convert
convert-Held e r o s =
    held s (caught (yuv2rgb e.plain r o s)) _
      (caught-Held s (yuv2rgb e.plain r o s) (yuv2rgb-Held e.plain r o s)) (converted-Held e r)

look_yuv-Held : (s : Memory) → Held s (look_yuv s)
unfolding look_yuv
look_yuv-Held s = held s (get (field context) s) _ (get-Held context s) (λ c s1.
    held s1 (look c s1) _ (look-Held c s1) (λ u s2.
      held s2 (get (field yuv_frame) s2) _ (get-Held yuv_frame s2) (λ y s3. look-Held y s3)))

show-Held :
    (e : Errors) (rs : List Picture) (no_more : Bool) (code : ℤ) (o : Options) (s : Memory)
    → Held s (show e rs no_more code o s)
unfolding show
show-Held e [] no_more code o s =
    held s (look_yuv s) _ (look_yuv-Held s) (λ u s1. require-Held e no_more _ _ code s1)
show-Held e (r ∷ rs) no_more code o s = held s (look_yuv s) _ (look_yuv-Held s) (λ u s1.
    held s1 (convert e r o s1) _ (convert-Held e r o s1) (λ u s2. show-Held e rs no_more code o s2))

pub decode_frame-Held :
    (e : Errors) (r : Pictures) (o : Options) (s : Memory) → Held s (decode_frame e r o s)
unfolding decode_frame
decode_frame-Held e r o s = held s (get (field context) s) _ (get-Held context s) (λ c s1.
    held s1 (look c s1) _ (look-Held c s1) (λ u s2.
      held s2 _ _ (require-Held e (is_fine r.sent) _ _ (pos 0) s2) (λ u s3.
        held s3 (show e r.pictures r.no_more r.code o s3) _
          (show-Held e r.pictures r.no_more r.code o s3) (λ u s4. (refl, refl)))))
