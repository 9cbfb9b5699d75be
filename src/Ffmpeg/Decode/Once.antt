-- ===== src/Ffmpeg/Decode/Once.antt =====
-- What `w_ffmpeg_decode` of wolf/sys/media/ffmpeg.cpp leaves for the next call of it.
use wolf_engine.Base.{
  ℕ, suc, ◌*◌, ◌≡◌, ◌∙◌, subst, inl, inr, ap, refl, Bool, true, false, Option, none, some, ◌==◌,
  arith, ok, String, Bool-cases,
}
use wolf_engine.Base.Int.{ℤ, pos, negsuc}
use wolf_engine.Rist.Store.{write, calloc}
use wolf_engine.Ffmpeg.{
  Context, packet, update, Block, ctx_block, packet_block, codec_block, parser_block, frame_block,
  bytes, Memory, Run, done, failed, fault, looping, Call, and_then, caught, load, store, load_ctx,
  alloc,
}
use wolf_engine.Ffmpeg.Cleanup.{get, set, field, output, Errors, require, allocate, cleanup}
use wolf_engine.Ffmpeg.Init.{Options}
use wolf_engine.Ffmpeg.Encode.{look, groups, checked, or_leave}
use wolf_engine.Ffmpeg.Decode.{
  Pictures, Parsed, Replies, decode_frame, parse, parse_all, decode_open, decode,
}
use wolf_engine.Ffmpeg.Decode.Held.{Held, decode_frame-Held}
use wolf_engine.Ffmpeg.Calls.{returned, undefined, to_result, ffmpeg_decode}
use wolf_engine.Ffmpeg.Decode.Stays.{Upon, upon, settle, Stays, require-Stays, parse_all-Stays}

-- The context has no packet.
abbrev NullPacket : Memory → Type 0
NullPacket s = (c : Context) × (s.heap.cell s.ctx ≡ some (ctx_block c)) × (c.packet ≡ 0)

abbrev Unpacked : Memory → Memory → Type 0
Unpacked s s' = NullPacket s' × (s'.ctx ≡ s.ctx)

set-Unpacked : (s : Memory) → Upon (λ u s'. Unpacked s s') (set (field packet) 0 s)
unfolding set load_ctx load store write
set-Unpacked s = inside (s.heap.cell s.ctx) refl
  where
    inside :
        (b : Option Block)
        → s.heap.cell s.ctx ≡ b
        → Upon (λ u s'. Unpacked s s') (set (field packet) 0 s)
    inside none h = rw (h, and_then) tt
    inside (some (ctx_block c)) h = rw (h, and_then) ((update packet 0 c, ground arith, refl), refl)
    inside (some packet_block) h = rw (h, and_then) tt
    inside (some codec_block) h = rw (h, and_then) tt
    inside (some parser_block) h = rw (h, and_then) tt
    inside (some (frame_block p)) h = rw (h, and_then) tt
    inside (some (bytes n)) h = rw (h, and_then) tt

unpacked :
    {A : Type 0} (s s1 : Memory) (x : Run A)
    → s1.ctx ≡ s.ctx
    → Upon (λ a s'. Unpacked s1 s') x
    → Upon (λ a s'. Unpacked s s') x
unpacked s s1 (done a t) e (n, h) = (n, h ∙ e)
unpacked s s1 (failed t) e h = tt
unpacked s s1 fault e h = tt
unpacked s s1 looping e h = tt

-- A frame's decoding changes nothing of the heap.
Held-Unpacked :
    {A : Type 0} (s : Memory) (x : Run A) → NullPacket s → Held s x → Upon (λ a s'. Unpacked s s') x
Held-Unpacked s (done a t) (c, here, p) (heap, same) =
    ((c, ap (λ h. h.cell t.ctx) heap ∙ ap s.heap.cell same ∙ here, p), same)
Held-Unpacked s (failed t) n h = tt
Held-Unpacked s fault n h = tt
Held-Unpacked s looping n h = tt

module _ (e : Errors) (o : Options) where
  flush-Unpacked :
      (r : Pictures) (s : Memory)
      → NullPacket s
      → Upon (λ ret s'. Unpacked s s') (or_leave e (decode_frame e r o) s)
  unfolding or_leave
  flush-Unpacked r s n =
      by_end (decode_frame e r o s) (Held-Unpacked s _ n (decode_frame-Held e r o s))
    where
      by_end :
          (x : Run ℤ)
          → Upon (λ a s'. Unpacked s s') x
          → Upon (λ ret s'. Unpacked s s') (and_then (caught x) (checked e))
      by_end (done a t) h = h
      by_end (failed t) h = settle (λ ret s'. Unpacked s s') (cleanup groups t) _ (λ u s'. tt)
      by_end fault h = tt
      by_end looping h = tt

  allocate-Stays : (given : Bool) (b : Block) (s : Memory) → Stays s (allocate given b output s)
  unfolding allocate alloc set
  allocate-Stays given b s = refl

  -- A decoding that comes to its end leaves no packet.
  decode_open-Unpacked :
      (r : Replies) (fuel given size : ℕ) (s : Memory)
      → Upon (λ ret s'. Unpacked s s') (decode_open e r fuel given size o s)
  unfolding decode_open
  decode_open-Unpacked r fuel given size s =
      after s (allocate r.output_given (bytes (o.width * o.height * 3)) output s) _
        (allocate-Stays r.output_given (bytes (o.width * o.height * 3)) s)
        (λ u s1.
          after s1 (refusal s1) _
            (require-Stays e r.output_given groups "ffmpeg::w_ffmpeg_decode"
              "failed to allocate the output buffer" (pos 0) s1)
            (λ u s2.
              after s2 (parse_all e r.parsed o fuel 0 given size s2) _
                (parse_all-Stays e r.parsed o fuel 0 given size s2)
                (λ u s3.
                  upon (λ u s4. Unpacked s3 s4) (λ ret s'. Unpacked s3 s') (set (field packet) 0 s3)
                    _ (set-Unpacked s3)
                    (λ u s4 h. unpacked s3 s4 _ h.1 (flush-Unpacked r.flush s4 h.0)))))
    where
      refusal : Memory → Run (Unit {0})
      refusal =
          require e r.output_given groups "ffmpeg::w_ffmpeg_decode"
            "failed to allocate the output buffer" (pos 0)

      after :
          {A B : Type 0} (s : Memory) (x : Run A) (k : A → Call B)
          → Stays s x
          → ((a : A) (s1 : Memory) → Upon (λ b s'. Unpacked s1 s') (k a s1))
          → Upon (λ b s'. Unpacked s s') (and_then x k)
      after s x k h next =
          upon (λ a s1. s1.ctx ≡ s.ctx) (λ b s'. Unpacked s s') x k h
            (λ a s1 same. unpacked s s1 (k a s1) same (next a s1))

  null-parse :
      (r : Parsed) (given size : ℕ) (s : Memory) (c : Context)
      → s.heap.cell s.ctx ≡ some (ctx_block c)
      → c.packet ≡ 0
      → parse e r given size s ≡ fault
  unfolding parse get load_ctx load look
  null-parse r given size s c here p = ground (arith, here, p)

  lost-parse :
      (r : Parsed) (given size : ℕ) (s : Memory) (n : ℕ)
      → s.heap.cell s.ctx ≡ some (bytes n)
      → parse e r given size s ≡ fault
  unfolding parse get load_ctx load
  lost-parse r given size s n here = ground (arith, here)

  abbrev with_output : Memory → Memory
  with_output s = record s {
    heap = (calloc true (bytes (o.width * o.height * 3)) s.heap).1;
    ptr = (calloc true (bytes (o.width * o.height * 3)) s.heap).0;
  }

  output-parse :
      (r : Parsed) (given size : ℕ) (s : Memory)
      → NullPacket s
      → parse e r given size (with_output s) ≡ fault
  unfolding calloc write
  output-parse r given size s (c, here, p) = elim (Bool-cases (s.ctx == s.heap.next)) [
    | inl lost ↦
        lost-parse r given size (with_output s) (o.width * o.height * 3) (ground (arith, lost))
    | inr kept ↦ null-parse r given size (with_output s) c (ground (arith, kept, here)) p
  ]

  -- The parser writes into the packet.
  no_packet-fault :
      (r : Replies) (fuel given size : ℕ) (s : Memory)
      → NullPacket s
      → (s.ctx == 0) ≡ false
      → r.output_given ≡ true
      → decode e r (suc fuel) given size o s ≡ fault
  unfolding decode decode_open allocate alloc set require parse_all
  no_packet-fault r fuel given size s n there memory =
      rw (there, memory) (rw (output-parse (r.parsed 0) given size s n))

  ended :
      {A : Type 0} (P : A → Memory → Type 0) (x : Run A) {a : A} {s : Memory}
      → Upon P x
      → x ≡ done a s
      → P a s
  ended P x h q = subst (Upon P) q h

  ok_is_done :
      (msg : String) (x : Run ℤ) (s : Memory)
      → to_result msg x ≡ returned (ok tt) s
      → (ret : ℤ) × (x ≡ done ret s)
  ok_is_done msg (done (pos n) t) s h = (pos n, ground (arith, h))
  ok_is_done msg (done (negsuc n) t) s h = cc
  ok_is_done msg (failed t) s h = cc
  ok_is_done msg fault s h = cc
  ok_is_done msg looping s h = cc

  opened :
      (r : Replies) (fuel given size : ℕ) (s : Memory) (ret : ℤ) (s' : Memory)
      → decode e r fuel given size o s ≡ done ret s'
      → ((s.ctx == 0) ≡ false) × (decode_open e r fuel given size o s ≡ done ret s')
  unfolding decode
  opened r fuel given size s ret s' q = elim (Bool-cases (s.ctx == 0)) [
    | inl null ↦ cc (rw null at q)
    | inr there ↦ (there, rw there at q)
  ]

  -- After a decoding that returned `Ok`, the next one with the same options is undefined behaviour,
  -- whatever its input, given that `calloc` gives it an output buffer.
  pub decode-once :
      (r r' : Replies) (fuel given size fuel' given' size' : ℕ) (s s' : Memory)
      → ffmpeg_decode e r fuel given size (some o) s ≡ returned (ok tt) s'
      → r'.output_given ≡ true
      → ffmpeg_decode e r' (suc fuel') given' size' (some o) s' ≡ undefined
  unfolding ffmpeg_decode
  decode-once r r' fuel given size fuel' given' size' s s' first memory =
      let (ret, q) =
        ok_is_done "could not decode the buffer" (decode e r fuel given size o s) s' first in
      let (there, q') = opened r fuel given size s ret s' q in
      let (n, same_ctx) =
        ended (λ ret s'. Unpacked s s') (decode_open e r fuel given size o s)
          (decode_open-Unpacked r fuel given size s) q' in
      rw (no_packet-fault r' fuel' given' size' s' n (ap (λ p. p == 0) same_ctx ∙ there) memory)
