-- ===== src/Ffmpeg/Init/Safety.antt =====
-- What `w_ffmpeg_init` of wolf/sys/media/ffmpeg.cpp does to a sound memory, for an encoder.
use wolf_engine.Base.{
  ◌≡◌, sym, subst, inl, inr, refl, Bool, true, false, Option, none, some, List, [], ◌∷◌, ◌==◌,
  if◌then◌else◌, arith, Bool-cases, map,
}
use wolf_engine.Base.Int.{ℤ, pos}
use wolf_engine.Rist.Store.{write, calloc}
use wolf_engine.Ffmpeg.{
  Context, Field, packet, context, yuv_frame, rgb_frame, parser, read, update, ctx_block,
  packet_block, codec_block, frame_block, Memory, Call, pure, alloc,
}
use wolf_engine.Ffmpeg.Cleanup.{set, Errors, require, allocate}
use wolf_engine.Ffmpeg.Init.{
  Options, Replies, encode, is_fine, empty_ctx, init_encoder, or_close, by_action, init,
}
use wolf_engine.Ffmpeg.Ends.{Ends, returns, fails, bind, mono, Seen, seen}
use wolf_engine.Ffmpeg.Sound.{IsSound}
use wolf_engine.Ffmpeg.Releases.{
  Tag, of_field, short, of_ctx, group, IsValid, Cleaned, cleanup_lem, any, closes,
}
use wolf_engine.Ffmpeg.Encode.Convert.{IsBoth}
use wolf_engine.Ffmpeg.Encode.Frames.{IsRoomy, require-Ends}
use wolf_engine.Ffmpeg.Encode.Safety.{IsReady, both_valid}
use wolf_engine.Ffmpeg.Init.Fields.{tested, taken}

-- A context that an encoder may use: it has a packet and a codec, and a yuv frame.
pub record IsStarted (s : Memory) : Type 0 where
  pub c : Context
  pub both : IsBoth c s
  pub ready : IsReady c
  pub has_yuv : (c.yuv_frame == 0) ≡ false

-- No context is left, in a valid memory.
pub record IsClosed (s : Memory) : Type 0 where
  pub valid : IsValid s
  pub no_ctx : s.ctx ≡ 0

closed : (ts : List Tag) → any closes ts ≡ true → (s s' : Memory) → Cleaned ts s s' → IsClosed s'
closed ts h s s' p = record { valid = p.valid; no_ctx = p.closed (ground (arith, h)) }

module _ (e : Errors) (roomy : IsRoomy e) (r : Replies) (o : Options) where
  abbrev preset_step : Call (Unit {0})
  preset_step =
      if o.h264
      then require e (is_fine r.preset) (map group (of_field context ∷ []))
          "ffmpeg::w_ffmpeg_init_encoder" "failed to set the options" r.preset
      else pure tt

  preset_step-Ends :
      (c : Context) (s : Memory) → IsBoth c s → Ends (λ u s'. s' ≡ s) IsValid (preset_step s)
  preset_step-Ends c s h = elim (Bool-cases o.h264) [
    | inr other ↦ rw other (returns refl)
    | inl h264 ↦ rw h264 (
        mono
          (require-Ends e roomy (is_fine r.preset) (of_field context ∷ []) _ _ r.preset s
            (omega arith) (both_valid c s h))
          (λ u s' p. p.1) (λ s' p. p.valid))
  ]

  init_encoder-Ends :
      (c : Context) (s : Memory)
      → IsBoth c s
      → (c.packet == 0) ≡ false
      → (c.yuv_frame == 0) ≡ false
      → Ends (λ ret s'. IsStarted s') IsValid (init_encoder e r o s)
  unfolding init_encoder
  init_encoder-Ends c s h p y =
      tested e roomy r.codec_found [] _ _ (pos 0) s _ (omega arith) (both_valid c s h)
        (λ s' q. q.valid)
        (λ found.
          taken e roomy r.context_given codec_block context (of_field context ∷ []) _ _ c s _ refl
            (omega arith) h (λ s1 s' q. q.valid)
            (λ x s1 new h1.
              bind (preset_step-Ends (update context x c) s1 h1)
                (λ u s2 same_memory.
                  let h2 = subst (IsBoth (update context x c)) (sym same_memory) h1 in
                  tested e roomy (is_fine r.opened) (of_field context ∷ []) _ _ r.opened s2 _
                    (omega arith) (both_valid _ s2 h2) (λ s' q. q.valid)
                    (λ fine. returns (record {
                      c = update context x c;
                      both = h2;
                      ready = record { packet = p; context = new };
                      has_yuv = y;
                    })))
                (λ s' q. q)))

abbrev pub with_ctx : Bool → Memory → Memory
with_ctx given s = record s {
  heap = (calloc given (ctx_block empty_ctx) s.heap).1;
  ctx = (calloc given (ctx_block empty_ctx) s.heap).0;
}

no_fields : (f : Field) → read f empty_ctx ≡ 0
no_fields packet = refl
no_fields context = refl
no_fields yuv_frame = refl
no_fields rgb_frame = refl
no_fields parser = refl

pub with_ctx-IsBoth : (s : Memory) → IsSound s → IsBoth empty_ctx (with_ctx true s)
unfolding calloc write
with_ctx-IsBoth s k = (
  record {
    next_pos = omega arith;
    unused = λ a h. grind (arith, k.unused a);
    buffer = ground (arith, k.buffer, k.unused s.heap.next);
  },
  record {
    pos = k.next_pos;
    here = ground arith;
    parts = λ f. rw (no_fields f) refl;
    apart = λ f g d. rw (no_fields f) refl;
  },
)

with_ctx-IsValid : (given : Bool) (s : Memory) → IsSound s → IsValid (with_ctx given s)
unfolding calloc
with_ctx-IsValid true s k = both_valid empty_ctx _ (with_ctx-IsBoth s k)
with_ctx-IsValid false s k = record {
  sound = record { next_pos = k.next_pos; unused = k.unused; buffer = k.buffer };
  open_or_not = inl refl;
}

module _ (e : Errors) (roomy : IsRoomy e) (r : Replies) (o : Options)
    (encoding : o.action ≡ encode) where
  abbrev all_tags : List Tag
  all_tags = of_ctx ∷ short packet ∷ short yuv_frame ∷ []

  after_encoder :
      (ret : Option ℤ) (s : Memory)
      → Seen (λ n. IsStarted) IsValid ret s
      → Ends
          (λ n s'. IsStarted s' × (n ≡ pos 0))
          IsClosed
          (or_close e r o (map group all_tags) ret s)
  after_encoder none s v =
      let (s', cleaned) = cleanup_lem all_tags s v in
      rw cleaned.ends (fails (closed all_tags refl s s' cleaned))
  after_encoder (some n) s started = returns (started, refl)

  by_action-Ends :
      (c : Context) (s : Memory)
      → IsBoth c s
      → (c.packet == 0) ≡ false
      → (c.yuv_frame == 0) ≡ false
      → Ends
          (λ ret s'. IsStarted s' × (ret ≡ pos 0))
          IsClosed
          (by_action e r o encode (map group all_tags) s)
  unfolding by_action
  by_action-Ends c s h p y =
      bind (seen {N = IsClosed} (init_encoder-Ends e roomy r o c s h p y)) after_encoder (λ s' q. q)

  -- Whatever the library answers: an encoder is set up, and the call returns 0, or it returns -1 and
  -- the options have no context.
  pub init-Ends :
      (s : Memory)
      → IsValid s
      → Ends (λ ret s'. IsStarted s' × (ret ≡ pos 0)) IsClosed (init e r o s)
  unfolding init allocate alloc set
  init-Ends s v =
      tested e roomy r.ctx_given (of_ctx ∷ []) _ _ (pos 0) (with_ctx r.ctx_given s) _ (omega arith)
        (with_ctx-IsValid r.ctx_given s v.sound) (closed (of_ctx ∷ []) refl _)
        (λ g.
          let h =
            subst (λ b. IsBoth empty_ctx (with_ctx b s)) (sym g) (with_ctx-IsBoth s v.sound) in
          taken e roomy r.packet_given packet_block packet (of_ctx ∷ short packet ∷ []) _ _ _ _ _
            refl (omega arith) h (closed (of_ctx ∷ short packet ∷ []) refl)
            (λ p s1 packet_new h1.
              taken e roomy r.yuv_given (frame_block 0) yuv_frame all_tags _ _ _ _ _ refl
                (omega arith) h1 (closed all_tags refl)
                (λ y s2 yuv_new h2.
                  subst
                    (λ a.
                      Ends (λ ret s'. IsStarted s' × (ret ≡ pos 0)) IsClosed
                        (by_action e r o a (map group all_tags) s2))
                    (sym encoding) (by_action-Ends _ s2 h2 packet_new yuv_new))))
