-- ===== src/Ffmpeg/Sound.antt =====
-- The invariant of the memory of wolf/sys/media/ffmpeg.cpp, and that a release keeps it.
use wolf_engine.Base.{
  ℕ, ◌≤◌, ◌<◌, ◌≡◌, inl, inr, refl, Bool, true, false, not, ◌||◌, Option, none, some, [], ◌∷◌, ◌==◌,
  if◌then◌else◌, arith, Bool-cases,
}
use wolf_engine.Rist.Store.{Ptr, write}
use wolf_engine.Ffmpeg.{
  Context, Field, packet, context, yuv_frame, rgb_frame, parser, read, update, Block, ctx_block,
  packet_block, codec_block, parser_block, frame_block, bytes, Memory, done, load, store, free,
  load_ctx,
}
use wolf_engine.Ffmpeg.Cleanup.{opt, ctx, field, get, set, release}

abbrev pub is_part : Option Block → Bool
is_part none = false
is_part (some (ctx_block c)) = false
is_part (some (bytes n)) = false
is_part (some packet_block) = true
is_part (some codec_block) = true
is_part (some parser_block) = true
is_part (some (frame_block p)) = true

abbrev pub is_buffer : Option Block → Bool
is_buffer none = false
is_buffer (some (bytes n)) = true
is_buffer (some (ctx_block c)) = false
is_buffer (some packet_block) = false
is_buffer (some codec_block) = false
is_buffer (some parser_block) = false
is_buffer (some (frame_block p)) = false

abbrev index : Field → ℕ
index packet = 0
index context = 1
index yuv_frame = 2
index rgb_frame = 3
index parser = 4

abbrev pub same : Field → Field → Bool
same f g = index f == index g

-- Addresses from `next` on are free, and the caller's buffer is null or a buffer.
pub record IsSound (s : Memory) : Type 0 where
  pub next_pos : 0 < s.heap.next
  pub unused : (a : Ptr) → s.heap.next ≤ a → s.heap.cell a ≡ none
  pub buffer : (s.ptr == 0 || is_buffer (s.heap.cell s.ptr)) ≡ true

-- The options have a context, each of its fields is null or points to a block of its own.
pub record IsOpen (s : Memory) (c : Context) : Type 0 where
  pub pos : 0 < s.ctx
  pub here : s.heap.cell s.ctx ≡ some (ctx_block c)
  pub parts : (f : Field) → (read f c == 0 || is_part (s.heap.cell (read f c))) ≡ true
  pub apart :
      (f g : Field) → same f g ≡ false → (read f c == 0 || not (read f c == read g c)) ≡ true

pub read-update :
    (f g : Field) (p : Ptr) (c : Context)
    → read g (update f p c) ≡ (if same f g then p else read g c)
read-update packet packet p c = refl
read-update packet g p c = refl
read-update context packet p c = refl
read-update context g p c = refl
read-update yuv_frame packet p c = refl
read-update yuv_frame g p c = refl
read-update rgb_frame packet p c = refl
read-update rgb_frame g p c = refl
read-update parser packet p c = refl
read-update parser g p c = refl

pub same_sym : (f g : Field) → same f g ≡ same g f
same_sym f g = ground arith

-- A field is freed and cleared.
abbrev pub cleared : Memory → Ptr → Context → Field → Memory
cleared s p c f = record s {
  heap = write (write s.heap p none) s.ctx (some (ctx_block (update f 0 c)));
}

pub cleared-IsOpen :
    (s : Memory) (c : Context) (f : Field)
    → IsOpen s c
    → (read f c == 0) ≡ false
    → IsOpen (cleared s (read f c) c f) (update f 0 c)
unfolding write
cleared-IsOpen s c f o live = record {
  pos = o.pos;
  here = ground arith;
  parts = λ g.
      rw (read-update f g 0 c)
        (ground (arith, o.parts f, o.parts g, o.apart g f, same_sym f g, o.here));
  apart = λ g h d. rw (read-update f g 0 c, read-update f h 0 c) (ground (arith, o.apart g h d));
}

pub cleared-IsSound :
    (s : Memory) (c : Context) (f : Field)
    → IsOpen s c
    → IsSound s
    → (read f c == 0) ≡ false
    → IsSound (cleared s (read f c) c f)
unfolding write
cleared-IsSound s c f o k live = record {
  next_pos = k.next_pos;
  unused = λ a h. ground (arith, k.unused a h, k.unused s.ctx, o.here);
  buffer = ground (arith, k.buffer, o.parts f, o.here);
}

-- One turn of `cleanup` at a field of the context.
pub release-field :
    (s : Memory) (c : Context) (f : Field)
    → IsOpen s c
    → IsSound s
    → (s' : Memory) × (release (opt ∷ ctx ∷ field f ∷ []) s ≡ done tt s')
      × ((c' : Context) × IsOpen s' c')
      × IsSound s'
      × (s'.ctx ≡ s.ctx)
      × (s'.ptr ≡ s.ptr)
unfolding release get set free load store load_ctx write
release-field s c f o k = elim (Bool-cases (read f c == 0)) [
  | inl dead ↦ (s, ground (arith, o.here, o.pos), (c, o), k, refl, refl)
  | inr live ↦ (
    cleared s (read f c) c f,
    ground (arith, o.here, o.pos, o.parts f),
    (update f 0 c, cleared-IsOpen s c f o live),
    cleared-IsSound s c f o k live,
    refl,
    refl,
  )
]
