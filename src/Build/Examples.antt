-- ===== src/Build/Examples.antt =====
-- Runs and a witness for the build script.

use text.Mathlib.Text.{◌==◌ as ◌is◌}
use wolf_engine.Base.{List, ◌≡◌, refl, true, false, [], none, some, ok, if◌then◌else◌}
use wolf_engine.Build.{World, linux, join, build_profile, ends_in_slash, Effect, copy}
use wolf_engine.Build.Native.{wolf_sys_path}
use wolf_engine.Build.Link.{link, lib_names, main}
use wolf_engine.Build.Paths.{first}
use wolf_engine.Build.Copies.{Has, link-copies_library}

looks_at : wolf_sys_path "/wolf" "Release" "linux" ≡ "/wolf/sys/build/Release/libwolf_sys.so"
unfolding wolf_sys_path
looks_at = refl

-- A build for wasm32, of which nothing native is built.
abbrev wasm : World
wasm = record {
  host = linux;
  features = record {
    system_raft = false;
    system_lz4 = false;
    stream_rist = false;
    ffmpeg = false;
    media_av1 = false;
  };
  current_dir = some "/wolf";
  var = λ name. if name is "CARGO_CFG_TARGET_ARCH" then some "wasm32" else some "unknown";
  exists = λ path. false;
  run = λ program args. none;
  protos_compile = true;
  binds = λ header. true;
}

wasm_builds_nothing : main wasm ≡ ok []
unfolding main
wasm_builds_nothing = refl

-- A build on linux whose OUT_DIR is set.
abbrev native : World
native = record wasm { var = λ name. some "/out" }

link-copies_library_example :
    (done : List Effect) × (link native "/wolf" (build_profile "3" "release") "linux" [] ≡ ok done)
    × Has
        (copy
          (wolf_sys_path "/wolf" (build_profile "3" "release") "linux")
          (join (join (join "/out" "../../..") "deps") (first (lib_names "linux"))))
        done
unfolding ends_in_slash
link-copies_library_example =
    link-copies_library native "/out" refl "/wolf" "3" "release" "linux" [] refl
