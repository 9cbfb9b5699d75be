-- ===== src/Ffmpeg.antt =====
-- The memory that the calls of wolf/src/media/ffmpeg.rs work on, which wolf/sys/media/ffmpeg.cpp allocates and frees.
pub mod Cleanup
pub mod Init
pub mod Encode
pub mod Decode
pub mod Calls
pub mod Ends
pub mod Sound
pub mod Releases
pub mod Program
pub mod Examples
use wolf_engine.Base.{ℕ, zero, suc, ◌+◌, Bool, true, false, Option, none, some, ◌==◌, if◌then◌else◌}
use wolf_engine.Rist.Store.{Ptr, Heap, write, calloc}

-- w_ffmpeg_ctx_t, but for the codec, which is never allocated
pub record Context : Type 0 where
  pub packet : Ptr
  pub context : Ptr
  pub yuv_frame : Ptr
  pub rgb_frame : Ptr
  pub parser : Ptr

-- The fields of a context that own a block.
pub data Field : Type 0 where
  packet : Field
  context : Field
  yuv_frame : Field
  rgb_frame : Field
  parser : Field

abbrev pub read : Field → Context → Ptr
read packet c = c.packet
read context c = c.context
read yuv_frame c = c.yuv_frame
read rgb_frame c = c.rgb_frame
read parser c = c.parser

abbrev pub update : Field → Ptr → Context → Context
update packet p c = record c { packet = p }
update context p c = record c { context = p }
update yuv_frame p c = record c { yuv_frame = p }
update rgb_frame p c = record c { rgb_frame = p }
update parser p c = record c { parser = p }

-- What a block of the heap is. A frame has the address of its picture, `bytes` its own size.
pub data Block : Type 0 where
  ctx_block : Context → Block
  packet_block : Block
  codec_block : Block
  parser_block : Block
  frame_block : Ptr → Block
  bytes : ℕ → Block

-- The heap, `ctx` of the options, the buffer `CBuffer` of the caller, and `frame_buffer_out`.
pub record Memory : Type 0 where
  pub heap : Heap Block
  pub ctx : Ptr
  pub ptr : Ptr
  pub len : ℕ
  pub frame_buffer : Ptr

-- `failed` is a return of -1, `fault` undefined behaviour, `looping` a loop that is out of fuel.
pub data Run (A : Type 0) : Type 0 where
  done : A → Memory → Run A
  failed : Memory → Run A
  fault : Run A
  looping : Run A

abbrev pub Call : Type 0 → Type 0
Call A = Memory → Run A

abbrev pub pure : {A : Type 0} → A → Call A
pure = done

module _ {A B : Type 0} where
  abbrev pub and_then : Run A → (A → Call B) → Run B
  and_then (done a s) k = k a s
  and_then (failed s) k = failed s
  and_then fault k = fault
  and_then looping k = looping

  infixl 5 ◌>>=◌ ◌>>◌
  abbrev pub ◌>>=◌ : Call A → (A → Call B) → Call B
  m >>= k = λ s. and_then (m s) k

  abbrev pub ◌>>◌ : Call A → Call B → Call B
  m >> n = m >>= λ _. n

-- The caller's look at what a function returned: `none` for -1.
abbrev pub caught : {A : Type 0} → Run A → Run (Option A)
caught (done a s) = done (some a) s
caught (failed s) = done none s
caught fault = fault
caught looping = looping

abbrev pub called : {A : Type 0} → Call A → Call (Option A)
called m s = caught (m s)

abbrev pub stop : {A : Type 0} → Call A
stop = failed

-- The memory at an address: null and what was freed hold nothing.
unfoldable pub load : Ptr → Call Block
load p s = elim (s.heap.cell p) [ none ↦ fault | some b ↦ done b s ]

unfoldable pub store : Ptr → Option Block → Call (Unit {0})
unfolding write
store p c s = done tt (record s { heap = write s.heap p c })

unfoldable pub free : Ptr → Call (Unit {0})
unfolding load store
free p = load p >> store p none

-- What `calloc`, `av_malloc` and the like give: null where the flag is off.
unfoldable pub alloc : Bool → Block → Call Ptr
unfolding calloc
alloc given b s = let (p, h) = calloc given b s.heap in done p (record s { heap = h })

-- The options' context: a fault where it is null or was freed.
abbrev pub as_ctx : Block → Call Context
as_ctx (ctx_block c) = pure c
as_ctx _ = λ s. fault

unfoldable pub load_ctx : Call Context
unfolding load
load_ctx s = (load s.ctx >>= as_ctx) s
