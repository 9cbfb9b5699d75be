-- ===== src/Raft/Service/Members.antt =====
-- The set of members that `bootstrap` hands to the node.
use Prim.Native.String.{◌++◌ as ◌<>◌}
use wolf_engine.Base.{
  ℕ, zero, suc, ◌+◌, ◌≤◌, ◌≡◌, refl, ◌∙◌, true, false, ◌&&◌, ◌||◌, List, [], length, arith, ltb,
  leb, ◌==◌, Bool-cases, inl, inr, ==_iff, subst, sym, Result, ok, err, some, String,
}
use wolf_engine.Raft.Converter.{Json}
use wolf_engine.Raft.Messages.{
  BootstrapReq, BootstrapOkRes, Reply, ok_res, error_res, bootstrap_failed,
}
use wolf_engine.Raft.Service.{
  Node, bootstrap, respond, error_code, error_reply, contains, insert, insert_range, members,
}

contains-absorb :
    (k i : ℕ) (set : List ℕ) → contains i set ≡ true → contains k set ≡ (k == i || contains k set)
contains-absorb k i set old = elim (Bool-cases (k == i)) [
  | inl same ↦ rw same (subst (λ x. contains x set ≡ true) (sym ((==_iff k i).0 same)) old)
  | inr other ↦ rw other
]

contains-insert : (k i : ℕ) (set : List ℕ) → contains k (insert i set) ≡ (k == i || contains k set)
unfolding insert
contains-insert k i set = elim (Bool-cases (contains i set)) [
  | inl old ↦ rw old (contains-absorb k i set old)
  | inr new ↦ rw new (unfold contains in refl)
]

contains-insert_range :
    (k turns i : ℕ) (set : List ℕ)
    → contains k (insert_range turns i set) ≡ (contains k set || (leb i k && ltb k (i + turns)))
unfolding insert_range
contains-insert_range k zero i set = ground arith
contains-insert_range k (suc turns) i set =
    ground (arith, contains-insert_range k turns (i + 1) (insert i set), contains-insert k i set)

length-insert_range :
    (turns i : ℕ) (set : List ℕ)
    → ((k : ℕ) → i ≤ k → contains k set ≡ false)
    → length (insert_range turns i set) ≡ length set + turns
unfolding insert_range
length-insert_range zero i set new = omega arith
length-insert_range (suc turns) i set new =
    let fresh : contains i set ≡ false = new i (omega arith) in
    let added : length (insert i set) ≡ suc (length set) = unfold insert in rw fresh in
    omega (
      arith,
      added,
      length-insert_range turns (i + 1) (insert i set)
          λ k h. ground (arith, contains-insert k i set, new k (omega arith)),
    )

members_lem : (n : ℕ) → ((k : ℕ) → contains k (members n) ≡ ltb k n) × (length (members n) ≡ n)
unfolding members
members_lem n = (
  λ k. contains-insert_range k n 0 [] ∙ (unfold contains in ground arith),
  length-insert_range n 0 [] (λ k _. unfold contains in refl) ∙ (omega arith),
)

-- A set of exactly the ids below `n`, each once.
abbrev pub HasIds : ℕ → List ℕ → Type 0
HasIds n set = ((k : ℕ) → contains k set ≡ ltb k n) × (length set ≡ n)

-- What `bootstrap` answers to the result of the node's `initialize`.
abbrev pub answer :
    {E : Type 0} → (E → String) → String → Result E (Unit {0}) → Reply BootstrapOkRes
answer describe msg_id (ok u) = some (ok_res (record { msg_id = msg_id }))
answer describe msg_id (err e) = some (
    error_res (record {
      msg_id = msg_id;
      code = 7001;
      msg = "could not initialize raft node because " <> describe e;
    }))

respond_lem :
    {S E St : Type 0} (describe : E → String) (msg_id : String) (p : S × Result E (Unit {0}))
    → respond {St = St} bootstrap_failed msg_id
        (λ e. "could not initialize raft node because " <> describe e)
        (λ (u : Unit {0}). record { msg_id = msg_id })
        p
      ≡ (p.0, ok (answer describe msg_id p.1))
unfolding respond error_reply error_code
respond_lem describe msg_id (s, ok u) = refl
respond_lem describe msg_id (s, err e) = refl

-- Whatever the node does, `bootstrap` initialises it once and leaves it as that leaves it, with a set
-- of exactly the ids below `number_of_nodes`, each once; it answers with the request's id if that
-- succeeds, and else with the code 7001 and the error's text.
pub members_exact :
    {j : Json} (node : Node j) (s : node.State) (req : BootstrapReq)
    → (set : List ℕ) × HasIds req.number_of_nodes set
      × (let (s', r) = node.initialize s set in
          bootstrap node s req ≡ (s', ok (answer node.describe req.msg_id r)))
unfolding bootstrap
members_exact node s req = (
  members req.number_of_nodes,
  members_lem req.number_of_nodes,
  respond_lem node.describe req.msg_id (node.initialize s (members req.number_of_nodes)),
)
