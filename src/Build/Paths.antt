-- ===== src/Build/Paths.antt =====
-- wolf/build.rs: the library that `cmake` looks for, and the one that `link` copies.
use Prim.Native.String.{◌++◌ as ◌<>◌, [] as no_text, ◌∷◌ as ◌then◌}
use Prim.Native.Char.{Char, code}
use text.Mathlib.Text.{◌==◌ as ◌is◌}
use text.Mathlib.TextLemmas.{append_assoc, cons-append, nil-append}
use wolf_engine.Base.{
  ◌≡◌, ◌∙◌, ap, refl, sym, Bool, true, false, ◌||◌, List, [], ◌∷◌, String, ◌==◌, if◌then◌else◌,
}
use wolf_engine.Build.{ends_in_slash, join, build_profile}
use wolf_engine.Build.Native.{wolf_sys_path, build_dir}
use wolf_engine.Build.Link.{lib_path, lib_names}

abbrev slash : Char
slash = "/"

-- A text behind anything ends as it does behind a slash, if a slash comes before it.
ends-append :
    (last : Bool) (a b : String) → ends_in_slash last (a <> (slash then b)) ≡ ends_in_slash true b
unfolding ends_in_slash
ends-append last no_text b = ap (ends_in_slash last) (nil-append (slash then b))
ends-append last (x then a) b =
    ap (ends_in_slash last) (cons-append x a (slash then b)) ∙ ends-append (code x == 47) a b

join-plain : (a b : String) → ends_in_slash true a ≡ false → join a b ≡ a <> ("/" <> b)
unfolding join
join-plain a b e = rw e refl

join-slash : (a b : String) → ends_in_slash true a ≡ true → join a b ≡ a <> b
unfolding join
join-slash a b e = rw e refl

if-either : (P : String → Type 0) (b : Bool) (x y : String) → P x → P y → P (if b then x else y)
if-either P true x y hx hy = hx
if-either P false x y hx hy = hy

-- No profile of cmake ends in a slash, or is empty.
build_profile-plain :
    (opt_level profile : String) → ends_in_slash true (build_profile opt_level profile) ≡ false
unfolding build_profile ends_in_slash
build_profile-plain opt_level profile =
    let IsPlain : String → Type 0 = λ s. ends_in_slash true s ≡ false in
    if-either IsPlain (opt_level is "0") _ _ refl (
      if-either IsPlain ((opt_level is "1") || ((opt_level is "2") || (opt_level is "3"))) _ _
        (if-either IsPlain (profile is "debug") _ _ refl refl)
        (if-either IsPlain ((opt_level is "s") || (opt_level is "z")) _ _ refl
          (if-either IsPlain (profile is "debug") _ _ refl refl)))

slash-append : (b : String) → "/" <> b ≡ slash then b
slash-append b = cons-append slash no_text b ∙ ap (◌then◌ slash) (nil-append b)

build_dir-text :
    (dir profile : String)
    → ends_in_slash true dir ≡ false
    → build_dir dir profile ≡ dir <> ("/sys/build/" <> profile)
unfolding build_dir ends_in_slash
build_dir-text dir profile plain =
    ap (λ p. join p ("build/" <> profile)) (join-plain dir "sys/" plain)
    ∙ (join-slash (dir <> "/sys/") ("build/" <> profile) (ends-append true dir "sys/")
        ∙ (append_assoc dir "/sys/" ("build/" <> profile)
            ∙ ap (λ t. dir <> t) (sym (append_assoc "/sys/" "build/" profile))))

ends-join : (a b : String) → ends_in_slash true (a <> ("/" <> b)) ≡ ends_in_slash true b
ends-join a b = ap (λ t. ends_in_slash true (a <> t)) (slash-append b) ∙ ends-append true a b

-- The directory of the build ends as the profile does.
build-plain :
    (dir profile : String)
    → ends_in_slash true profile ≡ false
    → ends_in_slash true (dir <> ("/sys/build/" <> profile)) ≡ false
build-plain dir profile plain =
    ap (λ t. ends_in_slash true (dir <> t)) (append_assoc "/sys/build" "/" profile)
    ∙ (ap (ends_in_slash true) (sym (append_assoc dir "/sys/build" ("/" <> profile)))
        ∙ (ends-join (dir <> "/sys/build") profile ∙ plain))

abbrev pub first : List String → String
first [] = ""
first (name ∷ names) = name

module _ (dir p : String) (dir_plain : ends_in_slash true dir ≡ false)
    (p_plain : ends_in_slash true p ≡ false) where
  abbrev built : String
  built = dir <> ("/sys/build/" <> p)

  file_in_build : (name : String) → join (build_dir dir p) name ≡ built <> ("/" <> name)
  file_in_build name =
      ap (λ d. join d name) (build_dir-text dir p dir_plain)
      ∙ join-plain built name (build-plain dir p p_plain)

  file_in_profile :
      (name : String)
      → join (join (build_dir dir p) p) name ≡ (built <> ("/" <> p)) <> ("/" <> name)
  file_in_profile name =
      ap (λ d. join d name) (file_in_build p)
      ∙ join-plain (built <> ("/" <> p)) name (ends-join built p ∙ p_plain)

  -- By whether the target is Windows, and whether it is one of Apple's
  looks_where_copied :
      (w a : Bool) (dll dylib so : String) (more : List String)
      → (if w
          then join (join (build_dir dir p) p) dll
          else if a
          then join (build_dir dir p) dylib
          else join (build_dir dir p) so)
        ≡ (if w then built <> ("/" <> p) else built)
          <> ("/" <> first (if w then dll ∷ more else if a then dylib ∷ [] else so ∷ []))
  looks_where_copied true a dll dylib so more = file_in_profile dll
  looks_where_copied false true dll dylib so more = file_in_build dylib
  looks_where_copied false false dll dylib so more = file_in_build so

-- Where the directory of the crate is not empty and does not end in a slash, the library that `cmake` looks for, before it
-- builds anything, is the first of those that `link` copies, in the directory that `link` copies from and
-- has the linker search: for every target and for the profile of any level of optimisation.
pub cmake-looks_where_link_copies :
    (dir opt_level profile target_os : String)
    → ends_in_slash true dir ≡ false
    → wolf_sys_path dir (build_profile opt_level profile) target_os
      ≡ lib_path dir (build_profile opt_level profile) target_os
        <> ("/" <> first (lib_names target_os))
unfolding wolf_sys_path lib_path lib_names
cmake-looks_where_link_copies dir opt_level profile target_os plain =
    looks_where_copied dir (build_profile opt_level profile) plain
      (build_profile-plain opt_level profile) (target_os is "windows")
      ((target_os is "macos") || (target_os is "ios")) "wolf_sys.dll" "libwolf_sys.dylib"
      "libwolf_sys.so" _
