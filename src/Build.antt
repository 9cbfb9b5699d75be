-- ===== src/Build.antt =====
-- wolf/build.rs: the script that builds the native library and its bindings before the crate.
--
-- The script leaves a trace of what it does, in order. `err` is that it panicked after that trace. Cargo's
-- features and the host that the script is compiled for are parameters, as are the environment, the
-- files and how the programs that it runs end.
pub mod Native
pub mod Link
pub mod Paths
pub mod Copies
mod Examples
use Prim.Native.String.{◌++◌ as ◌<>◌, [] as no_text, ◌∷◌ as ◌then◌}
use Prim.Native.Char.{Char, code}
use text.Mathlib.Text.{◌==◌ as ◌is◌}
use wolf_engine.Base.{
  ℕ, Bool, true, false, not, ◌||◌, List, [], ◌∷◌, ◌++◌, Option, none, some, String, Result, ok, err,
  ◌>>=◌, ◌==◌, if◌then◌else◌,
}

pub data Effect : Type 0 where
  set_var : String → String → Effect
  compile_protos : Bool → Bool → List String → List String → Effect
  command : String → String → List String → Effect
  copy : String → String → Effect
  print : String → Effect
  bind : String → List String → String → Effect

pub data HostOs : Type 0 where
  windows macos ios linux : HostOs

pub record Features : Type 0 where
  pub system_raft : Bool
  pub system_lz4 : Bool
  pub stream_rist : Bool
  pub ffmpeg : Bool
  pub media_av1 : Bool

-- `run` is none where the program does not start, and else whether it succeeds; `var` is none for a
-- variable that is not set.
pub record World : Type 0 where
  pub host : HostOs
  pub features : Features
  pub current_dir : Option String
  pub var : String → Option String
  pub exists : String → Bool
  pub run : String → List String → Option Bool
  pub protos_compile : Bool
  pub binds : String → Bool

-- What has been done, and whether the script goes on.
abbrev pub Script : Type 0
Script = Result (List Effect) (List Effect)

-- `expect`, `unwrap` and `assert!`
unfoldable pub expect : {A : Type 0} → List Effect → Option A → Result (List Effect) A
expect trace none = err trace
expect trace (some a) = ok a

abbrev pub assert_ok : List Effect → Bool → Script
assert_ok trace true = ok trace
assert_ok trace false = err trace

abbrev pub add : List Effect → Effect → List Effect
add trace e = trace ++ e ∷ []

-- `Path::join` of a relative path, with the separator of the paths of the script: none is put after a
-- slash, or after an empty path.
unfoldable pub ends_in_slash : Bool → String → Bool
ends_in_slash last no_text = last
ends_in_slash last (c then s) = ends_in_slash (code c == 47) s

unfoldable pub join : String → String → String
unfolding ends_in_slash
join a b = if ends_in_slash true a then a <> b else a <> ("/" <> b)

-- The profile of cmake, from OPT_LEVEL and PROFILE
unfoldable pub build_profile : String → String → String
build_profile opt_level profile =
    if opt_level is "0"
    then "Debug"
    else if (opt_level is "1") || ((opt_level is "2") || (opt_level is "3"))
    then (if profile is "debug" then "RelWithDebInfo" else "Release")
    else if (opt_level is "s") || (opt_level is "z")
    then "MinSizeRel"
    else if profile is "debug"
    then "Debug"
    else "Release"
