-- ===== src/Stream/Loops.antt =====
-- The invariant rule of the handlers' loops.
use wolf_engine.Base.{List, [], ◌∷◌, ◌++◌, ◌≡◌, refl}
use wolf_engine.Stream.{Phase, looping, closed, panicked, faulted, run}

abbrev pub All {ℓ κ} : {A : Type ℓ} → (A → Type κ) → List A → Type κ
All P [] = Unit
All P (x ∷ xs) = P x × All P xs

pub All-snoc {ℓ κ} :
    {A : Type ℓ} (P : A → Type κ) (xs : List A) (x : A) → All P xs → P x → All P (xs ++ x ∷ [])
All-snoc P [] x hs h = (h, tt)
All-snoc P (y ∷ ys) x (hy, hs) h = (hy, All-snoc P ys x hs h)

module _ {C R T : Type 0} (step : C → T → Phase C R) where
  -- What a round keeps from inside the loop, a run keeps from anywhere.
  pub run_inv {κ} :
      (P : Phase C R → Type κ)
      → ((c : C) (t : T) → P (looping c) → P (step c t))
      → (ts : List T) (p : Phase C R) → P p
      → P (run step p ts)
  unfolding run
  run_inv P keep [] p h = h
  run_inv P keep (t ∷ ts) (looping c) h = run_inv P keep ts (step c t) (keep c t h)
  run_inv P keep (t ∷ ts) (closed c r) h = run_inv P keep ts (closed c r) h
  run_inv P keep (t ∷ ts) panicked h = run_inv P keep ts panicked h
  run_inv P keep (t ∷ ts) faulted h = run_inv P keep ts faulted h

  -- A loop that is left stays left.
  pub run-closed : (c : C) (r : R) (ts : List T) → run step (closed c r) ts ≡ closed c r
  unfolding run
  run-closed c r [] = refl
  run-closed c r (t ∷ ts) = run-closed c r ts
