-- ===== src/Build/Copies.antt =====
-- What `link` of wolf/build.rs leaves behind.
use Prim.Native.String.{◌++◌ as ◌<>◌}
use mathlib.Core.List.{append-nil, append_assoc}
use text.Mathlib.Text.{◌==◌ as ◌is◌}
use wolf_engine.Base.{
  ◌≡◌, ◌∙◌, ap, sym, refl, Bool, true, false, ◌||◌, List, [], ◌∷◌, ◌++◌, some, String, ok, ◌>>=◌,
  if◌then◌else◌,
}
use wolf_engine.Build.{
  Effect, copy, print, World, HostOs, windows, macos, ios, linux, Script, add, join, expect,
  build_profile, ends_in_slash,
}
use wolf_engine.Build.Native.{wolf_sys_path}
use wolf_engine.Build.Link
use wolf_engine.Build.Link.{
  copy_names, copy_shared_libs, search_and_copy, copy_ffmpeg, copy_dav1d, copy_svt, copy_system,
  lib_path, lib_names, link,
}
use wolf_engine.Build.Paths.{first, cmake-looks_where_link_copies}

-- A step that does not panic, and only adds to the trace.
abbrev Adds : (List Effect → Script) → Type 0
Adds f = (trace : List Effect) → (more : List Effect) × (f trace ≡ ok (trace ++ more))

-- An effect is in a trace.
abbrev pub Has : Effect → List Effect → Type 0
Has e trace = (before : List Effect) × (after : List Effect) × (trace ≡ before ++ e ∷ after)

then-Adds : (f g : List Effect → Script) → Adds f → Adds g → Adds (λ t. f t >>= g)
then-Adds f g addsf addsg trace =
    let (a, ea) = addsf trace in
    let (b, eb) = addsg (trace ++ a) in
    (a ++ b, ap (λ r. r >>= g) ea ∙ (eb ∙ ap ok (append_assoc trace a b)))

copy_names-adds :
    (out path : String) (names : List String) (trace : List Effect)
    → (more : List Effect) × (copy_names out path names trace ≡ trace ++ more)
unfolding copy_names
copy_names-adds out path [] trace = ([], sym (append-nil trace))
copy_names-adds out path (name ∷ names) trace =
    let file = path <> ("/" <> name) in
    let one = copy file (join (join out "deps") name) in
    let two = copy file (join out name) in
    let (more, e) = copy_names-adds out path names (add (add trace one) two) in
    (
      one ∷ two ∷ more,
      e
          ∙ (append_assoc (trace ++ one ∷ []) (two ∷ []) more
              ∙ append_assoc trace (one ∷ []) (two ∷ more)),
    )

first-of :
    (b c : Bool) (x y z : String) (xs : List String)
    → (rest : List String) × ((if b then x ∷ xs else if c then y ∷ [] else z ∷ [])
        ≡ first (if b then x ∷ xs else if c then y ∷ [] else z ∷ []) ∷ rest)
first-of true c x y z xs = (xs, refl)
first-of false true x y z xs = ([], refl)
first-of false false x y z xs = ([], refl)

lib_names-first :
    (target_os : String)
    → (rest : List String) × (lib_names target_os ≡ first (lib_names target_os) ∷ rest)
unfolding lib_names
lib_names-first target_os =
    first-of (target_os is "windows") ((target_os is "macos") || (target_os is "ios"))
      "wolf_sys.dll" "libwolf_sys.dylib" "libwolf_sys.so"
      ("wolf_sys.exp" ∷ "wolf_sys.lib" ∷ "wolf_sys.pdb" ∷ [])

module _ (w : World) (out : String) (set : w.var "OUT_DIR" ≡ some out) where
  copy_shared_libs-done :
      (path : String) (names : List String) (trace : List Effect)
      → copy_shared_libs w path names trace ≡ ok (copy_names (join out "../../..") path names trace)
  unfolding copy_shared_libs expect
  copy_shared_libs-done path names trace =
      ap
        (λ o.
          expect trace o >>= λ out_dir. ok (copy_names (join out_dir "../../..") path names trace))
        set

  copy_shared_libs-Adds :
      (path : String) (names : List String) → Adds (copy_shared_libs w path names)
  copy_shared_libs-Adds path names trace =
      let (more, e) = copy_names-adds (join out "../../..") path names trace in
      (more, copy_shared_libs-done path names trace ∙ ap ok e)

  search_and_copy-Adds : (path : String) (names : List String) → Adds (search_and_copy w path names)
  unfolding search_and_copy
  search_and_copy-Adds path names trace =
      let searched : List Effect = print ("cargo:rustc-link-search=native=" <> path) ∷ [] in
      let (more, e) = copy_shared_libs-Adds path names (trace ++ searched) in
      (searched ++ more, e ∙ ap ok (append_assoc trace searched more))

  copy_system-Adds : (host : HostOs) (names : List String) → Adds (copy_system w host names)
  unfolding copy_system
  copy_system-Adds linux names trace = copy_shared_libs-Adds "/usr/lib" names trace
  copy_system-Adds windows names trace = ([], ap ok (sym (append-nil trace)))
  copy_system-Adds macos names trace = ([], ap ok (sym (append-nil trace)))
  copy_system-Adds ios names trace = ([], ap ok (sym (append-nil trace)))

  if_feature-Adds : (b : Bool) (f : List Effect → Script) → Adds f → Adds (Link.if_feature b f)
  if_feature-Adds true f adds trace = adds trace
  if_feature-Adds false f adds trace = ([], ap ok (sym (append-nil trace)))

  two-Adds :
      (path path' : String) (names names' : List String)
      → Adds (λ t. search_and_copy w path names t >>= search_and_copy w path' names')
  two-Adds path path' names names' =
      then-Adds (search_and_copy w path names) (search_and_copy w path' names')
        (search_and_copy-Adds path names) (search_and_copy-Adds path' names')

  copy_ffmpeg-Adds : (dir target_os : String) → Adds (copy_ffmpeg w dir target_os)
  unfolding copy_ffmpeg
  copy_ffmpeg-Adds dir target_os =
      two-Adds (dir <> "/sys/third_party/FFMPEG/bin")
        (dir <> ("/sys/third_party/FFMPEG/lib/" <> target_os)) Link.ffmpeg_dll_names
        Link.ffmpeg_lib_names

  copy_dav1d-Adds : (dir profile : String) → Adds (copy_dav1d w dir profile)
  unfolding copy_dav1d
  copy_dav1d-Adds dir profile =
      two-Adds (dir <> ("/sys/third_party/DAV1D/lib/" <> profile))
        (dir <> ("/sys/third_party/DAV1D/bin/" <> profile)) ("dav1d.lib" ∷ []) ("dav1d.dll" ∷ [])

  copy_svt-Adds : (dir profile : String) → Adds (copy_svt w dir profile)
  unfolding copy_svt
  copy_svt-Adds dir profile =
      two-Adds (dir <> ("/sys/third_party/SVT-AV1/lib/" <> profile))
        (dir <> ("/sys/third_party/SVT-AV1/bin/" <> profile))
        ("SvtAv1Dec.lib" ∷ "SvtAv1Enc.lib" ∷ []) ("SvtAv1Dec.dll" ∷ "SvtAv1Enc.dll" ∷ [])

  -- The steps of `link` after the copy of the library
  rest-Adds :
      (dir profile target_os : String) (names : List String)
      → Adds (λ t.
        copy_system w w.host names t
        >>= Link.if_feature w.features.ffmpeg (copy_ffmpeg w dir target_os)
        >>= Link.if_feature w.features.media_av1 (copy_dav1d w dir profile)
        >>= Link.if_feature w.features.media_av1 (copy_svt w dir profile))
  rest-Adds dir profile target_os names =
      then-Adds
        (λ t.
          copy_system w w.host names t
          >>= Link.if_feature w.features.ffmpeg (copy_ffmpeg w dir target_os)
          >>= Link.if_feature w.features.media_av1 (copy_dav1d w dir profile))
        (Link.if_feature w.features.media_av1 (copy_svt w dir profile))
        (then-Adds
          (λ t.
            copy_system w w.host names t
            >>= Link.if_feature w.features.ffmpeg (copy_ffmpeg w dir target_os))
          (Link.if_feature w.features.media_av1 (copy_dav1d w dir profile))
          (then-Adds (copy_system w w.host names)
            (Link.if_feature w.features.ffmpeg (copy_ffmpeg w dir target_os))
            (copy_system-Adds w.host names)
            (if_feature-Adds w.features.ffmpeg _ (copy_ffmpeg-Adds dir target_os)))
          (if_feature-Adds w.features.media_av1 _ (copy_dav1d-Adds dir profile)))
        (if_feature-Adds w.features.media_av1 _ (copy_svt-Adds dir profile))

  copied :
      (path name : String) (names : List String) (trace : List Effect)
      → (more : List Effect) × (copy_shared_libs w path (name ∷ names) trace
          ≡ ok (
              trace
              ++ copy (path <> ("/" <> name)) (join (join (join out "../../..") "deps") name)
                ∷ more))
  unfolding copy_names
  copied path name names trace =
      let file = path <> ("/" <> name) in
      let one = copy file (join (join (join out "../../..") "deps") name) in
      let two = copy file (join (join out "../../..") name) in
      let (more, e) = copy_names-adds (join out "../../..") path names (add (add trace one) two) in
      (
        two ∷ more,
        copy_shared_libs-done path (name ∷ names) trace
            ∙ ap ok (
                e
                ∙ (append_assoc (trace ++ one ∷ []) (two ∷ []) more
                    ∙ append_assoc trace (one ∷ []) (two ∷ more))),
      )

  -- Where OUT_DIR is set and the directory of the crate is not empty and does not end in a slash, `link`
  -- does not panic, and
  -- one of the copies that it makes is of the library that `cmake` has looked for, to the directory deps
  -- of the target, for every target and for the profile of any level of optimisation.
  pub link-copies_library :
      (dir opt_level profile target_os : String) (trace : List Effect)
      → ends_in_slash true dir ≡ false
      → (done : List Effect) × (link w dir (build_profile opt_level profile) target_os trace
          ≡ ok done)
        × Has
            (copy
              (wolf_sys_path dir (build_profile opt_level profile) target_os)
              (join (join (join out "../../..") "deps") (first (lib_names target_os))))
            done
  unfolding link
  link-copies_library dir opt_level profile target_os trace plain =
      let p = build_profile opt_level profile in
      let path = lib_path dir p target_os in
      let names = lib_names target_os in
      let before =
        trace
        ++ (Link.windows_lines p target_os
            ++ (Link.apple_lines w.host
                ++ (Link.line ("search=native=" <> path) ++ Link.line "lib=dylib=wolf_sys"))) in
      let deps = join (join (join out "../../..") "deps") (first names) in
      let (rest, named) = lib_names-first target_os in
      let (more, library) = copied path (first names) rest before in
      let (others, others_done) =
        rest-Adds dir p target_os names
          (before ++ copy (path <> ("/" <> first names)) deps ∷ more) in
      (
        (before ++ copy (path <> ("/" <> first names)) deps ∷ more) ++ others,
        ap
              (λ r.
                r
                >>= copy_system w w.host names
                >>= Link.if_feature w.features.ffmpeg (copy_ffmpeg w dir target_os)
                >>= Link.if_feature w.features.media_av1 (copy_dav1d w dir p)
                >>= Link.if_feature w.features.media_av1 (copy_svt w dir p))
              (ap (λ ns. copy_shared_libs w path ns before) named ∙ library)
            ∙ others_done,
        (
          before,
          more ++ others,
          append_assoc before (copy (path <> ("/" <> first names)) deps ∷ more) others
              ∙ ap (λ file. before ++ copy file deps ∷ (more ++ others))
                  (sym (cmake-looks_where_link_copies dir opt_level profile target_os plain)),
        ),
      )
