-- ===== src/Build/Native.antt =====
-- `cmake`, `build_protos` and `bindgens` of wolf/build.rs.
use Prim.Native.String.{◌++◌ as ◌<>◌}
use text.Mathlib.Text.{◌==◌ as ◌is◌}
use wolf_engine.Base.{
  Bool, true, not, ◌||◌, List, [], ◌∷◌, ◌++◌, Option, none, some, String, ok, ◌>>=◌, if◌then◌else◌,
}
use wolf_engine.Build.{
  Effect, compile_protos, command, print, bind, HostOs, windows, macos, ios, linux, Features, World,
  Script, expect, assert_ok, add, join,
}

-- CMAKE_C_COMPILER
unfoldable pub cmake_c_compiler : HostOs → String
cmake_c_compiler windows =
    "C:/Program Files/Microsoft Visual Studio/2022/Community/VC/Tools/MSVC/14.32.31326/bin/Hostx64/x64/cl.exe"
cmake_c_compiler macos = "/Library/Developer/CommandLineTools/usr/bin/clang"
cmake_c_compiler ios = "/Library/Developer/CommandLineTools/usr/bin/clang"
cmake_c_compiler linux = "/usr/bin/clang"

-- The protos, without a server for the mobile systems
unfoldable pub build_protos : World → String → String → List Effect → Script
unfolding join
build_protos w dir target_os trace =
    let includes = join dir "proto" in
    let server = not ((target_os is "android") || (target_os is "ios")) in
    assert_ok
      (add trace (compile_protos true server (join includes "raft.proto" ∷ []) (includes ∷ [])))
      w.protos_compile

unfoldable pub build_dir : String → String → String
unfolding join
build_dir dir profile = join (join dir "sys/") ("build/" <> profile)

-- The library that `cmake` looks for
unfoldable pub wolf_sys_path : String → String → String → String
unfolding join build_dir
wolf_sys_path dir profile target_os =
    if target_os is "windows"
    then join (join (build_dir dir profile) profile) "wolf_sys.dll"
    else if (target_os is "macos") || (target_os is "ios")
    then join (build_dir dir profile) "libwolf_sys.dylib"
    else join (build_dir dir profile) "libwolf_sys.so"

abbrev pub when : Bool → List String → List String
when b args = if b then args else []

abbrev pub generator : HostOs → String
generator windows = ""
generator _ = "-GNinja"

unfoldable pub android_args : String → List String
android_args ndk =
    ("-DCMAKE_TOOLCHAIN_FILE=" <> (ndk <> "/build/cmake/android.toolchain.cmake"))
    ∷ "-DANDROID_ABI=armeabi-v7a"
    ∷ ("-DANDROID_NDK=" <> ndk)
    ∷ "-DANDROID_PLATFORM=android-21"
    ∷ "-DCMAKE_ANDROID_ARCH_ABI=armeabi-v7a"
    ∷ ("-DCMAKE_ANDROID_NDK=" <> ndk)
    ∷ "-DCMAKE_EXPORT_COMPILE_COMMANDS=ON"
    ∷ "-DCMAKE_SYSTEM_NAME=Android"
    ∷ "-DCMAKE_SYSTEM_VERSION=21"
    ∷ []

unfoldable pub configure_args : World → String → String → List String
unfolding join build_dir cmake_c_compiler
configure_args w dir profile =
    "."
    ∷ "--no-warn-unused-cli"
    ∷ "-Wdev"
    ∷ "--debug-output"
    ∷ "-DCMAKE_EXPORT_COMPILE_COMMANDS:BOOL=TRUE"
    ∷ ("-DCMAKE_C_COMPILER=" <> cmake_c_compiler w.host)
    ∷ ("-DCMAKE_BUILD_TYPE:STRING=" <> profile)
    ∷ ("-B" <> build_dir dir profile)
    ∷ ("-S" <> join dir "sys/")
    ∷ generator w.host
    ∷ "-DWOLF_ENABLE_TESTS=OFF"
    ∷ (when w.features.system_lz4 ("-DWOLF_SYSTEM_LZ4=ON" ∷ [])
        ++ (when w.features.stream_rist ("-DWOLF_STREAM_RIST=ON" ∷ [])
            ++ when w.features.ffmpeg ("-DWOLF_MEDIA_FFMPEG=ON" ∷ [])))

-- A command whose output is expected and whose status is asserted
unfoldable pub run_command : World → String → String → List String → List Effect → Script
unfolding expect
run_command w program dir args trace =
    let trace' = add trace (command program dir args) in
    expect trace' (w.run program args) >>= λ success. assert_ok trace' success

-- The arguments for Android need ANDROID_NDK_HOME.
unfoldable pub extra_args : World → String → Option (List String)
unfolding android_args
extra_args w target_os =
    if target_os is "android"
    then elim (w.var "ANDROID_NDK_HOME") [ none ↦ none | some ndk ↦ some (android_args ndk) ]
    else some []

abbrev build_program : HostOs → String
build_program windows = "cmake"
build_program _ = "ninja"

abbrev build_args : HostOs → List String
build_args windows = "--build" ∷ "." ∷ "--parallel 8" ∷ []
build_args _ = []

unfoldable pub cmake : World → String → String → String → List Effect → Script
unfolding wolf_sys_path extra_args run_command configure_args join build_dir expect
cmake w dir profile target_os trace =
    let build = expect trace (extra_args w target_os) >>= λ extra.
    run_command w "cmake" (join dir "sys/") (configure_args w dir profile ++ extra) trace
    >>= λ configured.
        run_command w (build_program w.host) (build_dir dir profile) (build_args w.host)
          configured in
    if w.exists (wolf_sys_path dir profile target_os) then ok trace else build

-- A header and the file of its bindings
pub record Binding : Type 0 where
  pub src : String
  pub dst : String

abbrev pub bindings_if : Bool → String → String → List Binding
bindings_if b src dst = if b then record { src = src; dst = dst } ∷ [] else []

unfoldable pub headers : Features → List Binding
headers f =
    record { src = "sys/wolf/version.h"; dst = "src/system/ffi/version.rs" }
    ∷ (bindings_if f.system_lz4 "sys/system/lz4.h" "src/system/ffi/lz4.rs"
        ++ (bindings_if f.stream_rist "sys/stream/rist.h" "src/stream/ffi/rist.rs"
            ++ bindings_if f.ffmpeg "sys/media/ffmpeg.h" "src/media/ffi/ffmpeg.rs"))

-- The line that tells cargo which file to watch
unfoldable pub watch_line : Binding → String
watch_line b = "cargo:rerun-if-changed=sys/" <> b.src

unfoldable pub bind_all : World → String → List Binding → List Effect → Script
unfolding join watch_line
bind_all w dir [] trace = ok trace
bind_all w dir (b ∷ bs) trace =
    let bound = add (add trace (print (watch_line b))) (
      bind b.src
        (("-I" <> (dir <> "/sys"))
          ∷ ("-I" <> (dir <> "/sys/wolf"))
          ∷ ("-I" <> (dir <> "/sys/media"))
          ∷ [])
        (join dir b.dst)) in
    assert_ok bound (w.binds b.src) >>= bind_all w dir bs

unfoldable pub bindgens : World → String → List Effect → Script
unfolding headers bind_all
bindgens w dir trace = bind_all w dir (headers w.features) trace
