-- ===== src/Stream/Buffers.antt =====
-- What holds of a buffer between two callbacks: it is a Rust array of `MAX_MSG_SIZE` bytes.
use wolf_engine.Base.{
  ℕ, ◌≤◌, ◌≡◌, List, length, take, length-replicate, length-overwrite, length-take, take-overwrite,
  arith,
}
use wolf_engine.Stream.{Buffer, BufferType, App, max_msg_size, zeros, new, reset, receive}

abbrev pub IsBuffer : Buffer → Type 0
IsBuffer b = length b.buf ≡ max_msg_size

pub length-zeros : length zeros ≡ max_msg_size
unfolding zeros
length-zeros = length-replicate max_msg_size 0

pub new-IsBuffer : (t : BufferType) → IsBuffer (new t)
unfolding new
new-IsBuffer t = length-zeros

pub reset-IsBuffer : (b : Buffer) → IsBuffer (reset b)
unfolding reset
reset-IsBuffer b = length-zeros

pub receive-IsBuffer : (bytes : List ℕ) (b : Buffer) → IsBuffer b → IsBuffer (receive bytes b)
unfolding receive
receive-IsBuffer bytes b h = omega (arith, length-overwrite (take max_msg_size bytes) b.buf)

-- The bytes that arrived stand at the front, and the size counts them.
pub receive_front :
    (bytes : List ℕ) (b : Buffer)
    → IsBuffer b
    → (take (receive bytes b).size (receive bytes b).buf ≡ take max_msg_size bytes)
      × ((receive bytes b).size ≤ max_msg_size)
unfolding receive
receive_front bytes b h = (
  take-overwrite (take max_msg_size bytes) b.buf (omega (arith, length-take max_msg_size bytes)),
  omega (arith, length-take max_msg_size bytes),
)

-- What Rust's types give of a callback: it can write into the array and cannot resize it.
pub record KeepsBuffer (app : App) : Type 0 where
  pub kept :
      (s : app.St) (t : app.Secs) (a : app.Addr) (b : Buffer)
      → IsBuffer b
      → IsBuffer (app.on_message s t a b).1
