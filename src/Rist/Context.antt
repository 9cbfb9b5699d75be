-- ===== src/Rist/Context.antt =====
-- The rist wrapper of wolf/src/stream/rist.rs, over the functions of rist.cpp.
pub mod Safety
use Prim.Native.String.{◌++◌ as ◌<>◌}
use wolf_engine.Base.{
  ℕ, ◌+◌, Bool, true, false, not, Option, none, some, List, [], ◌∷◌, String, Result, ok, err, ◌==◌,
  if◌then◌else◌,
}
use wolf_engine.Base.Int.{ℤ, pos, negsuc}
use wolf_engine.Rist.Store.{Ptr, Heap, World, calloc, free, owner, remove}
use wolf_engine.Rist.Levels.{CtxMode, sender_mode, receiver_mode, Profile, LogLevel, profile_as_i32}

-- w_rist_ctx_t, as far as its functions read it again
pub record Context : Type 0 where
  pub profile : ℤ
  pub loss_percentage : ℕ

abbrev pub is_zero : ℤ → Bool
is_zero (pos n) = n == 0
is_zero (negsuc n) = false

abbrev pub is_minus_one : ℤ → Bool
is_minus_one (pos n) = false
is_minus_one (negsuc n) = n == 0

-- What the shims return for what librist returned: some test for 0, and some for -1.
abbrev pub zero_or_fail : ℤ → ℤ
zero_or_fail r = if is_zero r then pos 0 else negsuc 0

abbrev pub unless_minus_one : ℤ → ℤ
unless_minus_one r = if is_minus_one r then negsuc 0 else pos 0

-- What `calloc` and librist answer while a context is made.
pub record Init : Type 0 where
  pub memory : Bool
  pub logging : ℤ
  pub sender : ℤ
  pub receiver : ℤ

unfoldable pub created : Init → CtxMode → ℤ
created i sender_mode = i.sender
created i receiver_mode = i.receiver

-- w_rist_init: where librist fails, what `calloc` gave is not freed.
unfoldable pub init : Init → CtxMode → Profile → ℕ → Heap Context → Ptr → ℤ × Heap Context × Ptr
unfolding calloc created profile_as_i32
init i mode profile loss h p =
    let (q, h') =
      calloc i.memory (record { profile = profile_as_i32 profile; loss_percentage = loss }) h in
    if not i.memory
    then (negsuc 0, h, p)
    else if not (is_zero i.logging)
    then (negsuc 0, h', p)
    else if not (is_zero (created i mode))
    then (negsuc 0, h', p)
    else (pos 0, h', q)

-- `drop` of rist, which is w_rist_fini: nothing for null.
unfoldable pub drop : Heap Context → Ptr → Option (Heap Context)
unfolding free
drop h p = free h p

pub record Rist : Type 0 where
  pub ctx : Ptr
  pub url : String
  pub mode : CtxMode
  pub profile : Profile
  pub loss_percentage : ℕ
  pub log_level : LogLevel

abbrev debug_mode : CtxMode → String
debug_mode sender_mode = "RIST_SENDER_MODE"
debug_mode receiver_mode = "RIST_RECEIVER_MODE"

-- rist::new: what it leaves of the heap, and the wrapper or the error, with the wrapper dropped.
unfoldable pub after_init :
    CtxMode
    → Profile
    → ℕ
    → LogLevel
    → ℤ × Heap Context × Ptr
    → Option (Heap Context × Result String Rist)
unfolding drop
after_init mode profile loss level (ret, h, p) =
    if is_zero ret
    then some (
      h,
      ok (record {
        ctx = p;
        url = "";
        mode = mode;
        profile = profile;
        loss_percentage = loss;
        log_level = level;
      }),
    )
    else elim (drop h p) [
      | none ↦ none
      | some h' ↦ some (h', err ("could not create rist " <> debug_mode mode))
    ]

unfoldable pub new :
    Init
    → CtxMode
    → Profile
    → ℕ
    → LogLevel
    → Heap Context
    → Option (Heap Context × Result String Rist)
unfolding after_init init
new i mode profile loss level h = after_init mode profile loss level (init i mode profile loss h 0)

-- `match ret`
abbrev pub checked : String → ℤ → Result String (Unit {0})
checked text ret = if is_zero ret then ok tt else err text

-- A function of the context reads through its pointer: undefined where there is no context.
abbrev pub through : {A : Type 0} → Heap Context → Rist → (Context → A) → Option A
through h r f = elim (h.cell r.ctx) [ none ↦ none | some c ↦ some (f c) ]

-- What librist answers while a context connects. It is given the url as a C string: the bytes of
-- the `String` and whatever follows them in memory up to the next NUL, which is not the string's.
pub record Connecting : Type 0 where
  pub parse_address2 : String → ℤ
  pub beyond : String
  pub peer_create : ℤ
  pub start : ℤ

-- w_rist_connect
unfoldable pub connect_ret : Connecting → String → ℤ
connect_ret c url =
    if not (is_zero (c.parse_address2 (url <> c.beyond)))
    then negsuc 0
    else if is_minus_one c.peer_create
    then negsuc 0
    else unless_minus_one c.start

unfoldable pub connect :
    Connecting → String → Heap Context → Rist → Option (Rist × Result String (Unit {0}))
unfolding connect_ret
connect c url h r =
    let r' = record r { url = url } in
    through h r' (λ x. (r', checked ("could not connect to " <> r'.url) (connect_ret c r'.url)))

-- The setters, by what librist answers. None changes the wrapper.
module _ (h : Heap Context) (r : Rist) (answer : ℤ) where
  unfoldable pub set_auth_handler : Option (Result String (Unit {0}))
  set_auth_handler =
      through h r (λ c. checked ("could not set auth handler for " <> r.url) (zero_or_fail answer))

  unfoldable pub set_conn_status_callback : Option (Result String (Unit {0}))
  set_conn_status_callback = through h r (λ c.
      checked ("could not set connection status callback for " <> r.url) (unless_minus_one answer))

  -- The simple profile has no out-of-band data.
  unfoldable pub out_of_band_ret : Context → ℤ
  out_of_band_ret c = if is_zero c.profile then negsuc 0 else unless_minus_one answer

  unfoldable pub set_out_of_band_callback : Option (Result String (Unit {0}))
  unfolding out_of_band_ret
  set_out_of_band_callback =
      through h r
        (λ c. checked ("could not set out of band callback for " <> r.url) (out_of_band_ret c))

  unfoldable pub set_stats_callback : Option (Result String (Unit {0}))
  set_stats_callback =
      through h r
        (λ c. checked ("could not set stats callback for " <> r.url) (unless_minus_one answer))

  unfoldable pub set_receiver_data_callback : Option (Result String (Unit {0}))
  set_receiver_data_callback =
      through h r
        (λ c. checked ("could not set receiver callback for " <> r.url) (zero_or_fail answer))

  -- w_rist_write and w_rist_read hand on what librist answers.
  unfoldable pub send : Option ℤ
  send = through h r (λ c. answer)

  unfoldable pub read : Option ℤ
  read = through h r (λ c. answer)

-- The operations on the wrappers in scope: `call` is any method, all of which read the context.
pub data Command : Type 0 where
  create : Init → CtxMode → Profile → ℕ → LogLevel → Command
  clone : ℕ → Command
  call : ℕ → Command
  leave : ℕ → Command

unfoldable pub enter :
    List Ptr → Option (Heap Context × Result String Rist) → Option (World Context)
enter ps none = none
enter ps (some (h, err e)) = some (record { heap = h; owners = ps })
enter ps (some (h, ok r)) = some (record { heap = h; owners = r.ctx ∷ ps })

unfoldable pub on_clone : World Context → Option Ptr → Option (World Context)
on_clone w none = some w
on_clone w (some p) = some (record w { owners = p ∷ w.owners })

unfoldable pub called : World Context → Option Context → Option (World Context)
called w none = none
called w (some c) = some w

unfoldable pub on_call : World Context → Option Ptr → Option (World Context)
unfolding called
on_call w none = some w
on_call w (some p) = called w (w.heap.cell p)

unfoldable pub dropped : List Ptr → Option (Heap Context) → Option (World Context)
dropped ps none = none
dropped ps (some h) = some (record { heap = h; owners = ps })

unfoldable pub on_leave : World Context → ℕ → Option Ptr → Option (World Context)
unfolding dropped drop remove
on_leave w i none = some w
on_leave w i (some p) = dropped (remove i w.owners) (drop w.heap p)

unfoldable pub step : World Context → Command → Option (World Context)
unfolding enter new on_clone on_call on_leave owner
step w (create i mode profile loss level) = enter w.owners (new i mode profile loss level w.heap)
step w (clone i) = on_clone w (owner i w.owners)
step w (call i) = on_call w (owner i w.owners)
step w (leave i) = on_leave w i (owner i w.owners)
