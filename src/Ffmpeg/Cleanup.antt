-- ===== src/Ffmpeg/Cleanup.antt =====
-- `cleanup`, `to_cleanup` and `make_error` of wolf/sys/media/ffmpeg.cpp.
use wolf_engine.Base.{
  ℕ, ◌+◌, Bool, true, false, some, List, [], ◌∷◌, String, ◌==◌, ltb, if◌then◌else◌,
}
use wolf_engine.Base.Int.{ℤ}
use wolf_engine.Rist.Store.{Ptr}
use wolf_engine.Ffmpeg.{
  Context, Field, packet, context, yuv_frame, rgb_frame, read, update, ctx_block, done, fault, Call,
  pure, ◌>>=◌, ◌>>◌, stop, store, free, alloc, Block, load_ctx,
}

-- The pointers that the code frees by: the options, their context and its fields, the caller's
-- buffer, and the local `frame_buffer_out`.
pub data Slot : Type 0 where
  opt : Slot
  ctx : Slot
  field : Field → Slot
  output : Slot
  frame_buffer : Slot

-- `*j.second`: the options are there, since every caller has looked into them.
unfoldable pub get : Slot → Call Ptr
unfolding load_ctx
get opt = pure 1
get ctx = λ s. done s.ctx s
get (field f) = do c ← load_ctx; pure (read f c)
get output = λ s. done s.ptr s
get frame_buffer = λ s. done s.frame_buffer s

abbrev store_ctx : Context → Call (Unit {0})
store_ctx c s = store s.ctx (some (ctx_block c)) s

unfoldable pub set : Slot → Ptr → Call (Unit {0})
unfolding load_ctx store
set opt p = pure tt
set ctx p = λ s. done tt (record s { ctx = p })
set (field f) p = do c ← load_ctx; store_ctx (update f p c)
set output p = λ s. done tt (record s { ptr = p })
set frame_buffer p = λ s. done tt (record s { frame_buffer = p })

abbrev pub Group : Type 0
Group = List Slot

-- One turn of the loop of `cleanup`: the last pointer of a group is freed and cleared, if no
-- pointer of the group is null.
unfoldable pub release : Group → Call (Unit {0})
unfolding get set free
release [] = pure tt
release (x ∷ []) = do p ← get x; if p == 0 then pure tt else (free p >> set x 0)
release (x ∷ (y ∷ g)) = do p ← get x; if p == 0 then pure tt else release (y ∷ g)

unfoldable pub cleanup : List Group → Call (Unit {0})
unfolding release
cleanup [] = pure tt
cleanup (g ∷ gs) = release g >> cleanup gs

-- to_cleanup
abbrev pub resources : List Group
resources =
    (opt ∷ ctx ∷ field packet ∷ [])
    ∷ (opt ∷ ctx ∷ field context ∷ [])
    ∷ (opt ∷ ctx ∷ field yuv_frame ∷ [])
    ∷ (opt ∷ ctx ∷ field rgb_frame ∷ [])
    ∷ []

-- The bytes of a text.
abbrev pub size : String → ℕ
size String.[] = 0
size (String.◌∷◌ c s) = size s + 1

-- What a call is given to write errors into, and av_make_error_string. `plain` says that while a
-- picture is converted, the buffer holds a text with its 0 and without a `%`.
pub record Errors : Type 0 where
  pub room : ℕ
  pub plain : Bool
  pub describe : ℤ → String

-- `std::printf(p_error, ...)`, whose format is the caller's buffer: undefined where that has no end
-- or asks for arguments.
unfoldable pub print_error : Bool → Call (Unit {0})
print_error true = pure tt
print_error false = λ s. fault

module _ (e : Errors) where
  -- What sprintf writes of "%s, because %s. trace info: %s", with its 0 at the end.
  abbrev pub written : String → String → ℤ → ℕ
  written trace msg code = size msg + 10 + size (e.describe code) + 14 + size trace + 1

  unfoldable pub make_error : String → String → ℤ → Call (Unit {0})
  make_error trace msg code s = if ltb e.room (written trace msg code) then fault else done tt s

  -- `return ret = -1`, which runs the cleanups that are registered.
  abbrev pub leave : {A : Type 0} → List Group → Call A
  leave gs = cleanup gs >> stop

  unfoldable pub require : Bool → List Group → String → String → ℤ → Call (Unit {0})
  unfolding make_error cleanup
  require true gs trace msg code = pure tt
  require false gs trace msg code = make_error trace msg code >> leave gs

-- A pointer takes what an allocation gives.
unfoldable pub allocate : Bool → Block → Slot → Call (Unit {0})
unfolding alloc set
allocate given b x = do p ← alloc given b; set x p
