-- ===== src/Ffmpeg/Init/Fields.antt =====
-- The steps of `w_ffmpeg_init` of wolf/sys/media/ffmpeg.cpp on a sound memory: an allocation and a test.
use wolf_engine.Base.{
  ℕ, ◌+◌, ◌≤◌, ◌<◌, ◌≡◌, sym, subst, Bool, true, false, not, ◌&&◌, ◌||◌, some, List, ◌==◌,
  if◌then◌else◌, arith, map, String,
}
use wolf_engine.Base.Int.{ℤ, pos}
use wolf_engine.Rist.Store.{Ptr, write, calloc}
use wolf_engine.Ffmpeg.{
  Context, Field, read, update, Block, ctx_block, Memory, done, Call, ◌>>◌, load, store, load_ctx,
  alloc,
}
use wolf_engine.Ffmpeg.Cleanup.{set, field, Errors, require, allocate, size}
use wolf_engine.Ffmpeg.Ends.{Ends, bind}
use wolf_engine.Ffmpeg.Sound.{is_part, same, read-update}
use wolf_engine.Ffmpeg.Releases.{Tag, group, IsValid, Cleaned}
use wolf_engine.Ffmpeg.Encode.Convert.{IsBoth}
use wolf_engine.Ffmpeg.Encode.Frames.{IsRoomy, require-Ends}
use wolf_engine.Ffmpeg.Encode.Safety.{both_valid}

-- A field of the context takes a block or null.
abbrev pub placed : Bool → Block → Field → Context → Memory → Memory
placed given b f c s = record s {
  heap =
      write (calloc given b s.heap).1 s.ctx
        (some (ctx_block (update f (calloc given b s.heap).0 c)));
}

pub placed_lem :
    (given : Bool) (b : Block) (f : Field) (c : Context) (s : Memory)
    → IsBoth c s
    → allocate given b (field f) s ≡ done tt (placed given b f c s)
unfolding allocate alloc calloc set load_ctx load store write
placed_lem true b f c s (k, o) = ground (arith, o.here, k.unused s.heap.next)
placed_lem false b f c s (k, o) = ground (arith, o.here)

two_apart :
    (n q r : ℕ) (a b : Bool)
    → (q == n) ≡ false
    → (r == n) ≡ false
    → (q == 0 || not (q == r)) ≡ true
    → (a && b) ≡ false
    → ((if a then n else q) == 0 || not ((if a then n else q) == (if b then n else r))) ≡ true
two_apart n q r true true p o d e = cc
two_apart n q r true false p o d e = ground (arith, o)
two_apart n q r false true p o d e = ground (arith, p)
two_apart n q r false false p o d e = d

not_both : (f g h : Field) → same g h ≡ false → (same f g && same f h) ≡ false
not_both f g h d = ground arith

is_old : (f : Field) (c : Context) (s : Memory) → IsBoth c s → (read f c == s.heap.next) ≡ false
is_old f c s (k, o) = ground (arith, o.parts f, k.unused s.heap.next, k.next_pos)

pub placed-IsBoth :
    (given : Bool) (b : Block) (f : Field) (c : Context) (s : Memory)
    → is_part (some b) ≡ true
    → IsBoth c s
    → IsBoth (update f (calloc given b s.heap).0 c) (placed given b f c s)
unfolding calloc write
placed-IsBoth true b f c s part (k, o) = (
  record {
    next_pos = omega arith;
    unused = λ a h. grind (arith, k.unused a, k.unused s.ctx, o.here);
    buffer = ground (arith, k.buffer, k.unused s.heap.next, o.here);
  },
  record {
    pos = o.pos;
    here = ground arith;
    parts = λ g.
        rw (read-update f g s.heap.next c)
          (ground (arith, o.parts g, k.unused s.heap.next, o.here));
    apart = λ g h d.
        rw (read-update f g s.heap.next c, read-update f h s.heap.next c)
          (two_apart s.heap.next (read g c) (read h c) (same f g) (same f h) (is_old g c s (k, o))
            (is_old h c s (k, o)) (o.apart g h d) (not_both f g h d));
  },
)
placed-IsBoth false b f c s part (k, o) = (
  record {
    next_pos = k.next_pos;
    unused = λ a h. ground (arith, k.unused a h, k.unused s.ctx, o.here);
    buffer = ground (arith, k.buffer, o.here);
  },
  record {
    pos = o.pos;
    here = ground arith;
    parts = λ g. rw (read-update f g 0 c) (ground (arith, o.parts g, o.here));
    apart = λ g h d. rw (read-update f g 0 c, read-update f h 0 c) (ground (arith, o.apart g h d));
  },
)

calloc_ne :
    (given : Bool) (b : Block) (s : Memory)
    → 0 < s.heap.next
    → given ≡ true
    → ((calloc given b s.heap).0 == 0) ≡ false
unfolding calloc
calloc_ne given b s h g = rw g (ground arith)

module _ (e : Errors) (roomy : IsRoomy e) {A : Type 0} {R : A → Memory → Type 0}
    {N : Memory → Type 0} where
  -- A test with an early return.
  pub tested :
      (b : Bool) (ts : List Tag) (trace msg : String) (code : ℤ) (s : Memory) (k : Call A)
      → size msg + size trace ≤ 116
      → IsValid s
      → ((s' : Memory) → Cleaned ts s s' → N s')
      → (b ≡ true → Ends R N (k s))
      → Ends R N ((require e b (map group ts) trace msg code >> k) s)
  tested b ts trace msg code s k h v kept next =
      bind (require-Ends e roomy b ts trace msg code s h v)
        (λ u s' p. subst (λ t. Ends R N (k t)) (sym p.1) (next p.0)) kept

  -- A field is allocated, or the function returns early.
  pub taken :
      (given : Bool) (b : Block) (f : Field) (ts : List Tag) (trace msg : String) (c : Context)
      (s : Memory) (k : Call A)
      → is_part (some b) ≡ true
      → size msg + size trace ≤ 116
      → IsBoth c s
      → ((s1 s' : Memory) → Cleaned ts s1 s' → N s')
      → ((p : Ptr) (s' : Memory) → (p == 0) ≡ false → IsBoth (update f p c) s' → Ends R N (k s'))
      → Ends R N (
          (allocate given b (field f) >> (require e given (map group ts) trace msg (pos 0) >> k)) s)
  taken given b f ts trace msg c s k part h both kept next = rw (placed_lem given b f c s both) (
      tested given ts trace msg (pos 0) (placed given b f c s) k h
        (both_valid _ _ (placed-IsBoth given b f c s part both)) (kept _)
        (λ g.
          next _ _ (calloc_ne given b s both.0.next_pos g) (placed-IsBoth given b f c s part both)))
