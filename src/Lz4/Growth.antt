-- ===== src/Lz4/Growth.antt =====
-- The loop of `de_compress`: which capacities it reaches, and what stops it.

use mathlib.Core.Path.{◌∙◌}
use native.Mathlib.Decide.{dec_le}
use wolf_engine.Base.{
  ℕ, zero, suc, ◌-◌, ◌*◌, ◌≤◌, ◌<◌, ◌≡◌, refl, Bool, true, false, List, ◌++◌, length,
  take-overwrite, length-take, length-append, length-replicate, replicate, overwrite, none, some,
  ok, returned, arith, lt→ltb, ap,
}
use wolf_engine.Base.Int.{pos, negsuc, i32_max, usize_or_zero}
use wolf_engine.Lz4.{Native, Attempt, resize, attempt, double_i32, grow, finish}
use wolf_engine.Lz4.Laws.{Encodes}

-- A doubling that leaves the range of `i32` panics where it is checked, and is negative elsewhere.
pub double_i32-panics : (x : ℕ) → i32_max < x * 2 → double_i32 true x ≡ none
unfolding double_i32
double_i32-panics x k = ground arith

pub double_i32-wraps :
    (x : ℕ)
    → x ≤ i32_max
    → i32_max < x * 2
    → double_i32 false x ≡ some (negsuc (4294967295 - x * 2))
unfolding double_i32
double_i32-wraps x h k = ground arith

pub double_i32-in_range :
    (checks : Bool) (x : ℕ) → x * 2 ≤ i32_max → double_i32 checks x ≡ some (pos (x * 2))
unfolding double_i32
double_i32-in_range checks x h = ground arith

pub length-resize : (n : ℕ) (xs : List ℕ) → length (resize n xs) ≡ n
unfolding resize
length-resize n xs = omega (
  arith,
  length-take n (xs ++ replicate n 0),
  length-append xs (replicate n 0),
  length-replicate {A = ℕ} n 0,
)

-- An attempt with enough room ends with the source in front of the destination.
pub attempt-enough :
    (lz4 : Native) (b src : List ℕ) (cap : ℕ) (dst : List ℕ)
    → Encodes lz4 b src
    → length src ≤ cap
    → attempt lz4 b cap dst
      ≡ record { status = pos (length src); dst = overwrite src (resize cap dst) }
unfolding attempt
attempt-enough lz4 b src cap dst e h = rw (e.enough cap h)

pub attempt-small :
    (lz4 : Native) (b src : List ℕ) (cap : ℕ) (dst : List ℕ)
    → Encodes lz4 b src
    → cap < length src
    → usize_or_zero (attempt lz4 b cap dst).status ≡ 0
unfolding attempt
attempt-small lz4 b src cap dst e h = e.too_small cap h

-- The largest capacity that is tried in so many turns.
abbrev pub largest : ℕ → ℕ → ℕ
largest zero cap = 0
largest (suc zero) cap = cap
largest (suc (suc n)) cap = largest (suc n) (cap * 2)

-- A turn with enough room is the last one.
grow-hit :
    (lz4 : Native) (checks : Bool) (b src : List ℕ) (turns cap : ℕ) (last : Attempt)
    → Encodes lz4 b src
    → 0 < length src
    → length src ≤ cap
    → grow lz4 checks b (suc turns) (pos cap) last
      ≡ returned (record { status = pos (length src); dst = overwrite src (resize cap last.dst) })
unfolding grow
grow-hit lz4 checks b src turns cap last e some_bytes fits =
    rw (attempt-enough lz4 b src cap last.dst e fits)
      (rw (lt→ltb 0 (length src) some_bytes) (ground arith))

-- A turn with too little room doubles it.
grow-miss :
    (lz4 : Native) (checks : Bool) (b src : List ℕ) (turns cap : ℕ) (last : Attempt)
    → Encodes lz4 b src
    → cap < length src
    → 0 < cap
    → cap * 2 ≤ i32_max
    → grow lz4 checks b (suc turns) (pos cap) last
      ≡ grow lz4 checks b turns (pos (cap * 2)) (attempt lz4 b cap last.dst)
unfolding grow
grow-miss lz4 checks b src turns cap last e less room fits =
    rw (attempt-small lz4 b src cap last.dst e less, double_i32-in_range checks cap fits)
      (ground arith)

le-largest : (n cap : ℕ) → cap ≤ largest (suc n) cap
le-largest zero cap = omega arith
le-largest (suc n) cap = omega (arith, le-largest n (cap * 2))

-- If the source fits the largest capacity and is at most 2 ^ 30 bytes, the loop ends with it.
pub grow-finds :
    (lz4 : Native) (checks : Bool) (b src : List ℕ) (turns cap : ℕ) (last : Attempt)
    → Encodes lz4 b src
    → 0 < length src
    → length src ≤ 1073741824
    → 0 < cap
    → length src ≤ largest turns cap
    → (k : ℕ) × (dst : List ℕ) × (length src ≤ k)
      × (grow lz4 checks b turns (pos cap) last
          ≡ returned (record { status = pos (length src); dst = overwrite src (resize k dst) }))
grow-finds lz4 checks b src zero cap last e some_bytes small room fits = absurd (omega arith)
grow-finds lz4 checks b src (suc zero) cap last e some_bytes small room fits =
    (cap, last.dst, fits, grow-hit lz4 checks b src zero cap last e some_bytes fits)
grow-finds lz4 checks b src (suc (suc n)) cap last e some_bytes small room fits =
    elim (dec_le (length src) cap) [
      | yes hit ↦ (cap, last.dst, hit, grow-hit lz4 checks b src (suc n) cap last e some_bytes hit)
      | no miss ↦
          rw (grow-miss lz4 checks b src (suc n) cap last e (omega arith) room (omega arith)) (
            grow-finds lz4 checks b src (suc n) (cap * 2) (attempt lz4 b cap last.dst) e some_bytes
              small (omega arith) fits)
    ]

-- If even the largest capacity is too small, the last attempt fails too.
pub grow-exhausted :
    (lz4 : Native) (checks : Bool) (b src : List ℕ) (turns cap : ℕ) (last : Attempt)
    → Encodes lz4 b src
    → usize_or_zero last.status ≡ 0
    → 0 < cap
    → largest turns cap < length src
    → largest (suc turns) cap ≤ i32_max
    → (a : Attempt) × (grow lz4 checks b turns (pos cap) last ≡ returned a)
      × (usize_or_zero a.status ≡ 0)
grow-exhausted lz4 checks b src zero cap last e failed room less fits =
    (last, unfold grow in refl, failed)
grow-exhausted lz4 checks b src (suc zero) cap last e failed room less fits = (
  attempt lz4 b cap last.dst,
  grow-miss lz4 checks b src zero cap last e less room fits ∙ (unfold grow in refl),
  attempt-small lz4 b src cap last.dst e less,
)
grow-exhausted lz4 checks b src (suc (suc n)) cap last e failed room less fits =
    let small : cap < length src = omega (arith, le-largest (suc n) cap) in
    rw
      (grow-miss lz4 checks b src (suc n) cap last e small room
        (omega (arith, le-largest n (cap * 2 * 2))))
      (grow-exhausted lz4 checks b src (suc n) (cap * 2) (attempt lz4 b cap last.dst) e
        (attempt-small lz4 b src cap last.dst e small) (omega arith) less fits)

-- The source stands in front of the destination.
pub finish-found :
    (src : List ℕ) (k : ℕ) (dst : List ℕ)
    → 0 < length src
    → length src ≤ k
    → finish (pos (length src)) (overwrite src (resize k dst)) ≡ ok src
unfolding finish
finish-found src k dst h f =
    rw (lt→ltb 0 (length src) h)
      (ap ok (take-overwrite src (resize k dst) (omega (arith, length-resize k dst))))
