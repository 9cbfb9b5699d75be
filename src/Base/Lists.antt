-- ===== src/Base/Lists.antt =====
-- Lists measured by the native numbers, under the library's names.
use Prim.Native.Nat.{ℕ, zero, suc, ◌+◌, ◌≤◌, min}
use mathlib.Core.Path.{◌≡◌, refl, ap}
use mathlib.Core.List.{List, [], ◌∷◌, ◌++◌}
use native.Mathlib.Omega.{arith}

module _ {ℓ} {A : Type ℓ} where
  abbrev pub length : List A → ℕ
  length [] = 0
  length (x ∷ xs) = suc (length xs)

  abbrev pub take : ℕ → List A → List A
  take zero xs = []
  take (suc n) [] = []
  take (suc n) (x ∷ xs) = x ∷ take n xs

  abbrev pub drop : ℕ → List A → List A
  drop zero xs = xs
  drop (suc n) [] = []
  drop (suc n) (x ∷ xs) = drop n xs

  unfoldable pub replicate : ℕ → A → List A
  replicate zero a = []
  replicate (suc n) a = a ∷ replicate n a

  -- A copy of `src` over the front of `dst`, as far as `dst` goes: a read into a buffer.
  unfoldable pub overwrite : List A → List A → List A
  overwrite [] dst = dst
  overwrite (x ∷ src) [] = []
  overwrite (x ∷ src) (y ∷ dst) = x ∷ overwrite src dst

  pub length-append : (xs ys : List A) → length (xs ++ ys) ≡ length xs + length ys
  length-append [] ys = omega arith
  length-append (x ∷ xs) ys = omega (arith, length-append xs ys)

  pub length-take : (n : ℕ) (xs : List A) → length (take n xs) ≡ min n (length xs)
  length-take zero xs = omega arith
  length-take (suc n) [] = omega arith
  length-take (suc n) (x ∷ xs) = omega (arith, length-take n xs)

  pub length-replicate : (n : ℕ) (a : A) → length (replicate n a) ≡ n
  unfolding replicate
  length-replicate zero a = refl
  length-replicate (suc n) a = omega (arith, length-replicate n a)

  pub length-overwrite : (src dst : List A) → length (overwrite src dst) ≡ length dst
  unfolding overwrite
  length-overwrite [] dst = refl
  length-overwrite (x ∷ src) [] = refl
  length-overwrite (x ∷ src) (y ∷ dst) = omega (arith, length-overwrite src dst)

  -- What was copied stands at the front.
  pub take-overwrite :
      (src dst : List A) → length src ≤ length dst → take (length src) (overwrite src dst) ≡ src
  unfolding overwrite
  take-overwrite [] dst h = refl
  take-overwrite (x ∷ src) [] h = absurd (omega arith)
  take-overwrite (x ∷ src) (y ∷ dst) h = ap (◌∷◌ x) (take-overwrite src dst (omega arith))
