-- ===== src/Ffmpeg/Encode/Safety.antt =====
-- What `w_ffmpeg_encode` of wolf/sys/media/ffmpeg.cpp does to a sound memory.
use wolf_engine.Base.{
  ◌<◌, ◌^◌, ℕ, ◌+◌, ◌*◌, ◌≤◌, ◌≡◌, sym, subst, inr, refl, Bool, true, false, Option, none, some,
  List, [], ◌∷◌, ◌==◌, arith,
}
use wolf_engine.Base.Int.{pos}
use wolf_engine.Rist.Store.{write, calloc}
use wolf_engine.Ffmpeg.{
  Context, packet, context, yuv_frame, rgb_frame, update, ctx_block, bytes, Memory, done, Call,
  pure, ◌>>◌, load, store, load_ctx, alloc,
}
use wolf_engine.Ffmpeg.Cleanup.{set, field, Errors, require, allocate}
use wolf_engine.Ffmpeg.Init.{Options}
use wolf_engine.Ffmpeg.Encode.{
  Replies, encode_frame, rgb2yuv, checked, or_leave, open_output, encode_open,
}
use wolf_engine.Ffmpeg.Ends.{Ends, returns, fails, bind, mono, Seen, seen}
use wolf_engine.Ffmpeg.Sound.{read-update}
use wolf_engine.Ffmpeg.Releases.{Tag, of_field, of_output, of_ctx, IsValid, Cleaned, cleanup_lem}
use wolf_engine.Ffmpeg.Encode.Convert.{IsBoth, rgb2yuv-Ends, with_block-IsBoth}
use wolf_engine.Ffmpeg.Encode.Frames.{IsRoomy, require-Ends, encode_frame-Ends, IsLonger, sum}

abbrev pub tags : List Tag
tags =
    of_field packet
    ∷ of_field context
    ∷ of_field yuv_frame
    ∷ of_field rgb_frame
    ∷ of_output
    ∷ of_ctx
    ∷ []

-- Everything that the options and the caller pointed to was freed.
pub record IsGone (s : Memory) : Type 0 where
  pub valid : IsValid s
  pub no_ctx : s.ctx ≡ 0
  pub no_ptr : s.ptr ≡ 0

gone : (s s' : Memory) → Cleaned tags s s' → IsGone s'
gone s s' r = record { valid = r.valid; no_ctx = r.closed refl; no_ptr = r.emptied refl }

abbrev pub both_valid : (c : Context) (s : Memory) → IsBoth c s → IsValid s
both_valid c s (k, o) = record { sound = k; open_or_not = inr (c, o) }

module _ {A : Type 0} {P : A → Memory → Type 0} {Q : Memory → Type 0} (e : Errors)
    (ok : (s : Memory) → Q s → IsValid s) where
  left : (ret : Option A) (s : Memory) → Seen P Q ret s → Ends P IsGone (checked e ret s)
  left none s q =
      let (s', cleaned) = cleanup_lem tags s (ok s q) in rw cleaned.ends (fails (gone s s' cleaned))
  left (some a) s p = returns p

  pub or_leave-Ends : (m : Call A) (s : Memory) → Ends P Q (m s) → Ends P IsGone (or_leave e m s)
  unfolding or_leave
  or_leave-Ends m s h = bind (seen {N = IsGone} h) left (λ s' q. q)

pub longer-IsBoth :
    (n : ℕ) (c : Context) (s : Memory) → IsBoth c s → IsBoth c (record s { len = n })
longer-IsBoth n c s (k, o) = (
  record { next_pos = k.next_pos; unused = k.unused; buffer = k.buffer },
  record { pos = o.pos; here = o.here; parts = o.parts; apart = o.apart },
)

longer : (c : Context) (s s' : Memory) → IsLonger s s' → IsBoth c s → IsBoth c s'
longer c s s' (n, q) h = subst (IsBoth c) (sym q) (longer-IsBoth n c s h)

-- The yuv frame is forgotten.
forgotten-IsBoth :
    (c : Context) (s : Memory)
    → IsBoth c s
    → (s' : Memory) × (set (field yuv_frame) 0 s ≡ done tt s')
      × IsBoth (update yuv_frame 0 c) s'
      × (s'.ctx ≡ s.ctx)
      × (s'.ptr ≡ s.ptr)
      × ((n : ℕ) → s.heap.cell s.ptr ≡ some (bytes n) → s'.heap.cell s'.ptr ≡ some (bytes n))
unfolding set load_ctx load store write
forgotten-IsBoth c s (k, o) = (
  record s { heap = write s.heap s.ctx (some (ctx_block (update yuv_frame 0 c))) },
  ground (arith, o.here),
  (
    record {
      next_pos = k.next_pos;
      unused = λ a h. ground (arith, k.unused a h, k.unused s.ctx, o.here);
      buffer = ground (arith, k.buffer, o.here);
    },
    record {
      pos = o.pos;
      here = ground arith;
      parts = λ f. rw (read-update yuv_frame f 0 c) (ground (arith, o.parts f, o.here));
      apart = λ f g d.
          rw (read-update yuv_frame f 0 c, read-update yuv_frame g 0 c)
            (ground (arith, o.apart f g d));
    },
  ),
  refl,
  refl,
  λ n h. ground (arith, o.here),
)

-- What the encoder needs of a context.
pub record IsReady (c : Context) : Type 0 where
  pub packet : (c.packet == 0) ≡ false
  pub context : (c.context == 0) ≡ false

-- After a frame was encoded: the yuv frame is null.
pub record IsSpent (s : Memory) : Type 0 where
  pub c : Context
  pub both : IsBoth c s
  pub no_yuv : c.yuv_frame ≡ 0

module _ (e : Errors) (roomy : IsRoomy e) (r : Replies) (op : Options) where
  abbrev area : ℕ
  area = op.width * op.height * 3

  allocated :
      (given : Bool) (c : Context) (s : Memory)
      → IsBoth c s
      → Ends
          (λ u s'. IsBoth c s' × (s'.heap.cell s'.ptr ≡ some (bytes area)))
          IsGone
          (open_output e given area s)
  unfolding open_output allocate alloc set calloc write require
  allocated true c s h =
      let (k, o) = with_block-IsBoth (bytes area) c s h in
      returns (
        (
          record { next_pos = k.next_pos; unused = k.unused; buffer = ground arith },
          record { pos = o.pos; here = o.here; parts = o.parts; apart = o.apart },
        ),
        ground arith,
      )
  allocated false c s (k, o) =
      mono
        (require-Ends e roomy false tags "ffmpeg::w_ffmpeg_encode"
          "failed to allocate the output buffer" (pos 0) (record s { ptr = 0 }) (omega arith)
          (both_valid c (record s { ptr = 0 })
            (
              record { next_pos = k.next_pos; unused = k.unused; buffer = refl },
              record { pos = o.pos; here = o.here; parts = o.parts; apart = o.apart },
            )))
        (λ u s' p. cc) (λ s' p. gone (record s { ptr = 0 }) s' p)

  second_frame :
      (c : Context) (i : ℕ) (s : Memory)
      → IsBoth c s
      → IsReady c
      → s.heap.cell s.ptr ≡ some (bytes area)
      → i + sum r.flush.sizes ≤ area
      → Ends
          (λ ret s'. IsSpent s' × (ret ≡ pos 0))
          IsGone
          ((set (field yuv_frame) 0 >> (or_leave e (encode_frame e r.flush i) >> pure (pos 0))) s)
  second_frame c i s h ready b fit =
      let (s1, e1, h1, ctx1, ptr1, kept) = forgotten-IsBoth c s h in
      rw e1 (
        bind
          (or_leave-Ends e
            (λ s' p.
              both_valid (update yuv_frame 0 c) s' (longer (update yuv_frame 0 c) s1 s' p h1))
            (encode_frame e r.flush i) s1
            (encode_frame-Ends e roomy r.flush (update yuv_frame 0 c) i area s1 h1 ready.packet
              ready.context (kept area b) fit))
          (λ j s' p. returns (
            record {
              c = update yuv_frame 0 c;
              both = longer (update yuv_frame 0 c) s1 s' p.1 h1;
              no_yuv = refl;
            },
            refl,
          ))
          (λ s' p. p))

  -- Whatever the library answers, an encoding ends: it returns 0 with the yuv frame null, or -1 with
  -- everything freed that the options and the caller pointed to.
  pub encode_open-Ends :
      (given : ℕ) (c : Context) (s : Memory)
      → IsBoth c s
      → IsReady c
      → op.width * 3 < 2 ^ 31
      → area ≤ given
      → sum r.frame.sizes + sum r.flush.sizes ≤ area
      → Ends (λ ret s'. IsSpent s' × (ret ≡ pos 0)) IsGone (encode_open e r given op s)
  unfolding encode_open
  encode_open-Ends given c s h ready small enough fit =
      bind
        (or_leave-Ends e (both_valid c) (rgb2yuv e.plain r.conversion given op)
          (record s { len = 0 })
          (rgb2yuv-Ends e.plain r.conversion given op c (record s { len = 0 })
            (longer-IsBoth 0 c s h) roomy.is_plain small enough))
        (λ u s1 (h1, _, _).
          bind (allocated r.output_given c s1 h1)
            (λ u s2 (h2, b2).
              bind
                (or_leave-Ends e (λ s' p. both_valid c s' (longer c s2 s' p h2))
                  (encode_frame e r.frame 0) s2
                  (encode_frame-Ends e roomy r.frame c 0 area s2 h2 ready.packet ready.context b2
                    (omega arith)))
                (λ i s3 (count, same_but).
                  second_frame c i s3 (longer c s2 s3 same_but h2) ready
                    (subst (λ t. t.heap.cell t.ptr ≡ some (bytes area)) (sym same_but.1) b2)
                    (omega arith))
                (λ s' p. p))
            (λ s' p. p))
        (λ s' p. p)
