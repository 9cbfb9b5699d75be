-- ===== src/Ffmpeg/Releases.antt =====
-- What `cleanup` of wolf/sys/media/ffmpeg.cpp does to a sound memory: it ends, and frees what its groups say.
use wolf_engine.Base.{
  ◌≡◌, ◌∙◌, ◌⊎◌, inl, inr, refl, Bool, true, false, ◌||◌, none, List, [], ◌∷◌, ◌==◌, arith,
  Bool-cases, map,
}
use wolf_engine.Rist.Store.{write}
use wolf_engine.Ffmpeg.{Context, Field, Memory, done, load, store, free}
use wolf_engine.Ffmpeg.Cleanup.{Group, opt, ctx, field, output, get, set, release, cleanup}
use wolf_engine.Ffmpeg.Sound.{IsSound, IsOpen, release-field}

-- The groups that an encoder registers.
pub data Tag : Type 0 where
  of_field : Field → Tag
  short : Field → Tag
  of_output : Tag
  of_ctx : Tag

abbrev pub group : Tag → Group
group (of_field f) = opt ∷ ctx ∷ field f ∷ []
group (short f) = ctx ∷ field f ∷ []
group of_output = output ∷ []
group of_ctx = opt ∷ ctx ∷ []

-- A sound memory, with a context or without one.
pub record IsValid (s : Memory) : Type 0 where
  pub sound : IsSound s
  pub open_or_not : (s.ctx ≡ 0) ⊎ ((c : Context) × IsOpen s c)

abbrev pub closes : Tag → Bool
closes of_ctx = true
closes (of_field f) = false
closes (short f) = false
closes of_output = false

abbrev pub empties : Tag → Bool
empties of_output = true
empties of_ctx = false
empties (of_field f) = false
empties (short f) = false

-- A release at a group ends, in a valid memory where what the group is for is null, as is what was
-- null before.
pub record Released (t : Tag) (s s' : Memory) : Type 0 where
  pub ends : release (group t) s ≡ done tt s'
  pub valid : IsValid s'
  pub closed : (closes t || s.ctx == 0) ≡ true → s'.ctx ≡ 0
  pub emptied : (empties t || s.ptr == 0) ≡ true → s'.ptr ≡ 0

skip : (s : Memory) (t : Tag) → IsSound s → s.ctx ≡ 0 → empties t ≡ false → Released t s s
unfolding release get
skip s (of_field f) k z n = record {
  ends = ground (arith, z);
  valid = record { sound = k; open_or_not = inl z };
  closed = λ h. z;
  emptied = λ h. ground arith;
}
skip s (short f) k z n = record {
  ends = ground (arith, z);
  valid = record { sound = k; open_or_not = inl z };
  closed = λ h. z;
  emptied = λ h. ground arith;
}
skip s of_output k z n = cc
skip s of_ctx k z n = record {
  ends = ground (arith, z);
  valid = record { sound = k; open_or_not = inl z };
  closed = λ h. z;
  emptied = λ h. ground arith;
}

-- The caller's buffer.
abbrev emptied_memory : Memory → Memory
emptied_memory s = record s { heap = write s.heap s.ptr none; ptr = 0 }

emptied-IsSound : (s : Memory) → IsSound s → IsSound (emptied_memory s)
unfolding write
emptied-IsSound s k = record {
  next_pos = k.next_pos;
  unused = λ a h. ground (arith, k.unused a h);
  buffer = ground arith;
}

emptied-IsOpen :
    (s : Memory) (c : Context)
    → IsSound s
    → (s.ptr == 0) ≡ false
    → IsOpen s c
    → IsOpen (emptied_memory s) c
unfolding write
emptied-IsOpen s c k live o = record {
  pos = o.pos;
  here = ground (arith, o.here, k.buffer);
  parts = λ f. ground (arith, o.parts f, k.buffer);
  apart = o.apart;
}

release-output : (s : Memory) → IsValid s → (s' : Memory) × Released of_output s s'
unfolding release get set free load store write
release-output s v = elim (Bool-cases (s.ptr == 0)) [
  | inl dead ↦ (
    s,
    record {
      ends = ground arith;
      valid = v;
      closed = λ h. ground arith;
      emptied = λ h. ground arith;
    },
  )
  | inr live ↦ (
    emptied_memory s,
    record {
      ends = ground (arith, v.sound.buffer);
      valid = record {
        sound = emptied-IsSound s v.sound;
        open_or_not = elim v.open_or_not [
          | inl z ↦ inl z
          | inr (c, o) ↦ inr (c, emptied-IsOpen s c v.sound live o)
        ];
      };
      closed = λ h. ground arith;
      emptied = λ h. refl;
    },
  )
]

-- The context itself.
abbrev closed_memory : Memory → Memory
closed_memory s = record s { heap = write s.heap s.ctx none; ctx = 0 }

closed-IsSound : (s : Memory) (c : Context) → IsSound s → IsOpen s c → IsSound (closed_memory s)
unfolding write
closed-IsSound s c k o = record {
  next_pos = k.next_pos;
  unused = λ a h. ground (arith, k.unused a h);
  buffer = ground (arith, k.buffer, o.here);
}

release-ctx :
    (s : Memory) (c : Context) → IsSound s → IsOpen s c → (s' : Memory) × Released of_ctx s s'
unfolding release get set free load store write
release-ctx s c k o = (
  closed_memory s,
  record {
    ends = ground (arith, o.here, o.pos);
    valid = record { sound = closed-IsSound s c k o; open_or_not = inl refl };
    closed = λ h. refl;
    emptied = λ h. ground arith;
  },
)

release-of_field :
    (s : Memory) (c : Context) (f : Field)
    → IsSound s
    → IsOpen s c
    → (s' : Memory) × Released (of_field f) s s'
release-of_field s c f k o =
    let (s', e, open', sound', same_ctx, same_ptr) = release-field s c f o k in
    (
      s',
      record {
        ends = e;
        valid = record { sound = sound'; open_or_not = inr open' };
        closed = λ h. ground arith;
        emptied = λ h. ground arith;
      },
    )

release-short :
    (f : Field) (s : Memory) → release (group (short f)) s ≡ release (group (of_field f)) s
unfolding release get
release-short f s = refl

abbrev shortened :
    {f : Field} {s s' : Memory} → Released (of_field f) s s' → Released (short f) s s'
shortened {f} {s} r = record {
  ends = release-short f s ∙ r.ends;
  valid = r.valid;
  closed = r.closed;
  emptied = r.emptied;
}

opened :
    (t : Tag) (s : Memory) (c : Context) → IsSound s → IsOpen s c → (s' : Memory) × Released t s s'
opened (of_field f) s c k o = release-of_field s c f k o
opened (short f) s c k o = let (s', r) = release-of_field s c f k o in (s', shortened r)
opened of_output s c k o = release-output s (record { sound = k; open_or_not = inr (c, o) })
opened of_ctx s c k o = release-ctx s c k o

unopened : (t : Tag) (s : Memory) → IsSound s → s.ctx ≡ 0 → (s' : Memory) × Released t s s'
unopened (of_field f) s k z = (s, skip s (of_field f) k z refl)
unopened (short f) s k z = (s, skip s (short f) k z refl)
unopened of_output s k z = release-output s (record { sound = k; open_or_not = inl z })
unopened of_ctx s k z = (s, skip s of_ctx k z refl)

pub released : (t : Tag) (s : Memory) → IsValid s → (s' : Memory) × Released t s s'
released t s v = elim v.open_or_not [
  | inl z ↦ unopened t s v.sound z
  | inr (c, o) ↦ opened t s c v.sound o
]

abbrev pub any : (Tag → Bool) → List Tag → Bool
any p [] = false
any p (t ∷ ts) = p t || any p ts

pub record Cleaned (ts : List Tag) (s s' : Memory) : Type 0 where
  pub ends : cleanup (map group ts) s ≡ done tt s'
  pub valid : IsValid s'
  pub closed : (any closes ts || s.ctx == 0) ≡ true → s'.ctx ≡ 0
  pub emptied : (any empties ts || s.ptr == 0) ≡ true → s'.ptr ≡ 0

pub cleanup_lem : (ts : List Tag) (s : Memory) → IsValid s → (s' : Memory) × Cleaned ts s s'
unfolding cleanup
cleanup_lem [] s v =
    (s, record { ends = refl; valid = v; closed = λ h. ground arith; emptied = λ h. ground arith })
cleanup_lem (t ∷ ts) s v =
    let (s1, r) = released t s v in
    let (s2, c) = cleanup_lem ts s1 r.valid in
    (
      s2,
      record {
        ends = rw r.ends c.ends;
        valid = c.valid;
        closed = λ h. ground (arith, r.closed, c.closed);
        emptied = λ h. ground (arith, r.emptied, c.emptied);
      },
    )
