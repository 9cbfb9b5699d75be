-- ===== src/Stream.antt =====
-- wolf/src/stream/common: the message buffer (buffer.rs), the callbacks (callback.rs) and the
-- timeouts (timeouts.rs) that the tcp, websocket and udp modules share.
--
-- The callbacks are closures of the application, so they are the parameter `App`; what they may
-- change is the state `St`. A number of seconds is an `f64` that the code only hands on or compares
-- with 0, so a timeout is the Boolean `p_timeout > 0.0` and a time is a value of `Secs`. A timeout above 0
-- is one that a `Duration` holds: of an infinite or a larger one `Duration::from_secs_f64` panics, and
-- the development leaves such arguments out.
pub mod Buffers
pub mod Loops
pub mod Demo
use Prim.Native.String.{◌++◌ as ◌<>◌}
use wolf_engine.Base.{
  ℕ, Bool, true, false, List, [], ◌∷◌, Option, none, some, String, Result, ok, err, length, take,
  replicate, overwrite, if◌then◌else◌,
}

abbrev pub max_msg_size : ℕ
max_msg_size = 1024

pub data BufferType : Type 0 where
  binary text : BufferType

-- `buf` is a `[u8; MAX_MSG_SIZE]`: see `IsBuffer`.
pub record Buffer : Type 0 where
  pub type_ : BufferType
  pub size : ℕ
  pub buf : List ℕ

unfoldable pub zeros : List ℕ
zeros = replicate max_msg_size 0

-- Buffer::new
unfoldable pub new : BufferType → Buffer
new type_ = record { type_ = type_; size = 0; buf = zeros }

-- Buffer::reset
unfoldable pub reset : Buffer → Buffer
reset b = record b { size = 0; buf = zeros }

pub data TcpProtocol : Type 0 where
  native websocket : TcpProtocol

-- OnMessageCallback::run, OnSocketCallback::run and OnCloseSocketCallback::run. The message
-- callback also leaves the buffer as it changed it; `debug_failure` is the text of `{:?}`.
pub record App : Type 1 where
  pub St : Type 0
  pub Addr : Type 0
  pub Secs : Type 0
  pub Failure : Type 0
  pub debug_failure : Failure → String
  pub on_message : St → Secs → Addr → Buffer → St × Buffer × Result Failure (Unit {0})
  pub on_accept : St → Addr → St × Result Failure (Unit {0})
  pub on_close : St → Addr → String → St × Result Failure (Unit {0})

-- `std::io::Error`, the text of its `{:?}`, and the error of the timeouts.
pub record Io : Type 1 where
  pub IoError : Type 0
  pub debug_error : IoError → String
  pub timed_out : IoError

-- `{:?}` of a `Result` that is an error, from that of the error.
abbrev pub debug_err : String → String
debug_err s = "Err(" <> (s <> ")")

-- What a wait for data ends with: the peer's bytes or an error, or the moment of the deadline.
pub data Arrival (IoError A : Type 0) : Type 0 where
  ready : Result IoError A → Arrival IoError A
  deadline : Arrival IoError A

-- `tokio::select!` of the timeout and the operation if there is a timeout, else the operation
-- alone, for which the moment of the deadline is nothing: `none` is that the wait goes on. The timeout
-- of `true` is one that a `Duration` holds.
unfoldable pub select :
    (io : Io) {A : Type 0} → Bool → Arrival io.IoError A → Option (Result io.IoError A)
select io timed (ready r) = some r
select io true deadline = some (err io.timed_out)
select io false deadline = none

-- A read into the buffer: as many of the bytes as it holds, over its front. What is longer is cut only
-- as a datagram: of a stream, the bytes of an arrival are those that the one read takes, at most 1024,
-- and the bytes that it leaves behind belong to the arrival of the next read.
unfoldable pub receive : List ℕ → Buffer → Buffer
receive bytes b =
    let got = take max_msg_size bytes in record b { size = length got; buf = overwrite got b.buf }

-- Where a handler's `loop` stands: in the loop, left by `break` with a result, or dead by a panic or
-- by a write outside of its memory.
pub data Phase (C R : Type 0) : Type 0 where
  looping : C → Phase C R
  closed : C → R → Phase C R
  panicked faulted : Phase C R

-- The turns of a loop, each over what the world does in it.
abbrev pub advance : {C R T : Type 0} → (C → T → Phase C R) → Phase C R → T → Phase C R
advance step (looping c) t = step c t
advance step (closed c r) t = closed c r
advance step panicked t = panicked
advance step faulted t = faulted

unfoldable pub run : {C R T : Type 0} → (C → T → Phase C R) → Phase C R → List T → Phase C R
run step p [] = p
run step p (t ∷ ts) = run step (advance step p t) ts
