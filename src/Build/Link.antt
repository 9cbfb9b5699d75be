-- ===== src/Build/Link.antt =====
-- `link` of wolf/build.rs, with the copies of the shared libraries, and `main`.
use Prim.Native.String.{◌++◌ as ◌<>◌}
use text.Mathlib.Text.{◌==◌ as ◌is◌}
use wolf_engine.Base.{
  Bool, true, false, ◌||◌, List, [], ◌∷◌, ◌++◌, String, ok, ◌>>=◌, if◌then◌else◌,
}
use wolf_engine.Build.{
  Effect, set_var, copy, print, HostOs, windows, macos, ios, linux, World, Script, expect, add,
  join, build_profile,
}
use wolf_engine.Build.Native.{build_protos, cmake, bindgens}

-- The results of the copies are not looked at.
unfoldable pub copy_names : String → String → List String → List Effect → List Effect
unfolding join
copy_names out_path lib_path [] trace = trace
copy_names out_path lib_path (name ∷ names) trace =
    let file = lib_path <> ("/" <> name) in
    copy_names out_path lib_path names (
      add (add trace (copy file (join (join out_path "deps") name)))
        (copy file (join out_path name)))

unfoldable pub copy_shared_libs : World → String → List String → List Effect → Script
unfolding copy_names join expect
copy_shared_libs w lib_path names trace = expect trace (w.var "OUT_DIR") >>= λ out_dir.
    ok (copy_names (join out_dir "../../..") lib_path names trace)

-- A directory that the linker searches, and whose files are copied
unfoldable pub search_and_copy : World → String → List String → List Effect → Script
unfolding copy_shared_libs
search_and_copy w path names trace =
    copy_shared_libs w path names (add trace (print ("cargo:rustc-link-search=native=" <> path)))

abbrev pub ffmpeg_dll_names : List String
ffmpeg_dll_names =
    "avcodec-59.dll" ∷ "avdevice-59.dll" ∷ "avfilter-8.dll" ∷ "avformat-59.dll" ∷ "avutil-57.dll"
    ∷ "swresample-4.dll" ∷ "swscale-6.dll" ∷ []

abbrev pub ffmpeg_lib_names : List String
ffmpeg_lib_names =
    "avcodec.lib" ∷ "avdevice.lib" ∷ "avfilter.lib" ∷ "avformat.lib" ∷ "avutil.lib"
    ∷ "swresample.lib" ∷ "swscale.lib" ∷ []

unfoldable pub copy_ffmpeg : World → String → String → List Effect → Script
unfolding search_and_copy
copy_ffmpeg w dir target_os trace =
    search_and_copy w (dir <> "/sys/third_party/FFMPEG/bin") ffmpeg_dll_names trace
    >>= search_and_copy w (dir <> ("/sys/third_party/FFMPEG/lib/" <> target_os)) ffmpeg_lib_names

unfoldable pub copy_dav1d : World → String → String → List Effect → Script
unfolding search_and_copy
copy_dav1d w dir profile trace =
    search_and_copy w (dir <> ("/sys/third_party/DAV1D/lib/" <> profile)) ("dav1d.lib" ∷ []) trace
    >>= search_and_copy w (dir <> ("/sys/third_party/DAV1D/bin/" <> profile)) ("dav1d.dll" ∷ [])

unfoldable pub copy_svt : World → String → String → List Effect → Script
unfolding search_and_copy
copy_svt w dir profile trace =
    search_and_copy w (dir <> ("/sys/third_party/SVT-AV1/lib/" <> profile))
      ("SvtAv1Dec.lib" ∷ "SvtAv1Enc.lib" ∷ []) trace
    >>= search_and_copy w (dir <> ("/sys/third_party/SVT-AV1/bin/" <> profile))
        ("SvtAv1Dec.dll" ∷ "SvtAv1Enc.dll" ∷ [])

abbrev pub line : String → List Effect
line text = print ("cargo:rustc-link-" <> text) ∷ []

unfoldable pub windows_lines : String → String → List Effect
windows_lines profile target_os =
    if target_os is "windows"
    then line (if profile is "Debug" then "lib=msvcrtd" else "lib=msvcrt")
      ++ (line "lib=dylib=Shell32" ++ (line "lib=dylib=Rpcrt4" ++ line "lib=dylib=Mswsock"))
    else []

-- `cfg!` is about the host that the script runs on, and not about the target.
abbrev pub apple_lines : HostOs → List Effect
apple_lines macos = line "search=native=/usr/lib" ++ line "lib=dylib=c++"
apple_lines ios = line "search=native=/usr/lib" ++ line "lib=dylib=c++"
apple_lines windows = []
apple_lines linux = []

unfoldable pub lib_path : String → String → String → String
lib_path dir profile target_os =
    let sys_build_dir = dir <> ("/sys/build/" <> profile) in
    if target_os is "windows" then sys_build_dir <> ("/" <> profile) else sys_build_dir

unfoldable pub lib_names : String → List String
lib_names target_os =
    if target_os is "windows"
    then "wolf_sys.dll" ∷ "wolf_sys.exp" ∷ "wolf_sys.lib" ∷ "wolf_sys.pdb" ∷ []
    else if (target_os is "macos") || (target_os is "ios")
    then "libwolf_sys.dylib" ∷ []
    else "libwolf_sys.so" ∷ []

unfoldable pub copy_system : World → HostOs → List String → List Effect → Script
unfolding copy_shared_libs
copy_system w linux names trace = copy_shared_libs w "/usr/lib" names trace
copy_system w windows names trace = ok trace
copy_system w macos names trace = ok trace
copy_system w ios names trace = ok trace

abbrev pub if_feature : Bool → (List Effect → Script) → List Effect → Script
if_feature true f trace = f trace
if_feature false f trace = ok trace

unfoldable pub link : World → String → String → String → List Effect → Script
unfolding windows_lines lib_path lib_names copy_shared_libs copy_system copy_ffmpeg copy_dav1d
    copy_svt
link w dir profile target_os trace =
    let path = lib_path dir profile target_os in
    let names = lib_names target_os in
    copy_shared_libs w path names (
      trace
      ++ (windows_lines profile target_os
          ++ (apple_lines w.host
              ++ (line ("search=native=" <> path) ++ line "lib=dylib=wolf_sys"))))
    >>= copy_system w w.host names
    >>= if_feature w.features.ffmpeg (copy_ffmpeg w dir target_os)
    >>= if_feature w.features.media_av1 (copy_dav1d w dir profile)
    >>= if_feature w.features.media_av1 (copy_svt w dir profile)

-- The part of `main` that is left out for wasm32
unfoldable pub build_native : World → String → String → List Effect → Script
unfolding expect build_profile cmake link bindgens
build_native w dir target_os trace = expect trace (w.var "OPT_LEVEL") >>= λ opt_level.
    expect trace (w.var "PROFILE") >>= λ profile.
    cmake w dir (build_profile opt_level profile) target_os trace
    >>= link w dir (build_profile opt_level profile) target_os
    >>= bindgens w dir

unfoldable pub main : World → Script
unfolding expect build_protos build_native
main w = expect [] w.current_dir >>= λ dir. expect [] (w.var "CARGO_CFG_TARGET_ARCH") >>= λ arch.
    expect [] (w.var "CARGO_CFG_TARGET_OS") >>= λ target_os.
    if_feature w.features.system_raft (build_protos w dir target_os)
      (if target_os is "macos" then set_var "MACOSX_DEPLOYMENT_TARGET" "12.0" ∷ [] else [])
    >>= λ trace. if arch is "wasm32" then ok trace else build_native w dir target_os trace
