-- ===== src/Rist/Levels.antt =====
-- The enums of wolf/src/stream/rist.rs and their numbers in C.
use wolf_engine.Base.{◌≡◌, refl, ◌==◌, if◌then◌else◌}
use wolf_engine.Base.Int.{ℤ, pos, negsuc}

pub data ConnectionStatus : Type 0 where
  connection_established connection_timed_out client_connected client_timed_out : ConnectionStatus

pub data CtxMode : Type 0 where
  sender_mode receiver_mode : CtxMode

pub data Profile : Type 0 where
  simple main advanced : Profile

pub data LogLevel : Type 0 where
  disable error warn notice info debug simulate : LogLevel

-- `as i32`
unfoldable pub mode_as_i32 : CtxMode → ℤ
mode_as_i32 sender_mode = pos 0
mode_as_i32 receiver_mode = pos 1

unfoldable pub profile_as_i32 : Profile → ℤ
profile_as_i32 simple = pos 0
profile_as_i32 main = pos 1
profile_as_i32 advanced = pos 2

unfoldable pub level_as_i32 : LogLevel → ℤ
level_as_i32 disable = negsuc 0
level_as_i32 error = pos 3
level_as_i32 warn = pos 4
level_as_i32 notice = pos 5
level_as_i32 info = pos 6
level_as_i32 debug = pos 7
level_as_i32 simulate = pos 100

-- rist_log_level::from_i32
unfoldable pub from_i32 : ℤ → LogLevel
from_i32 (pos n) =
    if n == 3
    then error
    else if n == 4
    then warn
    else if n == 5
    then notice
    else if n == 6
    then info
    else if n == 7
    then debug
    else if n == 100
    then simulate
    else disable
from_i32 (negsuc n) = disable

-- The number of every level is read back as that level.
pub from_i32-level_as_i32 : (l : LogLevel) → from_i32 (level_as_i32 l) ≡ l
unfolding from_i32 level_as_i32
from_i32-level_as_i32 disable = refl
from_i32-level_as_i32 error = refl
from_i32-level_as_i32 warn = refl
from_i32-level_as_i32 notice = refl
from_i32-level_as_i32 info = refl
from_i32-level_as_i32 debug = refl
from_i32-level_as_i32 simulate = refl
