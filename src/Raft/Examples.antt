-- ===== src/Raft/Examples.antt =====
-- A small cluster, and the theorems about the raft modules at concrete inputs.

use wolf_engine.Base.{
  ℕ, ◌≡◌, refl, true, false, List, [], ◌∷◌, length, Option, none, some, String, Result, ok, err,
  ltb, leb, if◌then◌else◌,
}
use wolf_engine.Raft.Messages.{
  AppendEntriesResponse, InstallSnapshotRequest, InstallSnapshotResponse, VoteRequest, VoteResponse,
  vote_failed, install_snapshot_failed, append_entries_failed, BootstrapReq, AppendEntriesReq,
  InstallSnapshotReq, VoteReq, GetMetricsReq,
}
use wolf_engine.Raft.Converter.{
  append_entries_res_to_grpc, append_entries_res_of_grpc, install_snapshot_req_to_grpc,
  install_snapshot_req_of_grpc, install_snapshot_res_to_grpc, install_snapshot_res_of_grpc,
  vote_req_to_grpc, vote_req_of_grpc, vote_res_to_grpc, vote_res_of_grpc, Json,
}
use wolf_engine.Raft.Converter.RoundTrip.{converters_round_trip}
use wolf_engine.Raft.Service
use wolf_engine.Raft.Service.{Node, error_code, bootstrap}
use wolf_engine.Raft.Service.Members.{members_exact, HasIds, answer}
use wolf_engine.Raft.Service.Replies.{Replies, echoes_request_id}
use wolf_engine.Raft.Router
use wolf_engine.Raft.Cluster.{
  cluster, IsSeen, vote_delivered, install_snapshot_delivered, append_entries_delivered, update,
}

abbrev plain_json : Json
plain_json = record {
  AppendEntriesRequest = String;
  JsonError = Unit {0};
  serialize = ok;
  deserialize = ok;
}

-- A node that knows its term and votes for any candidate of a later one.
abbrev term_vote : ℕ → VoteRequest → ℕ × Result (Unit {0}) VoteResponse
term_vote s req =
    if ltb s req.term
    then (req.term, ok (record { term = req.term; vote_granted = true }))
    else (s, ok (record { term = s; vote_granted = false }))

abbrev term_node : Node plain_json
term_node = record {
  State = ℕ;
  RaftError = Unit {0};
  Status = Unit {0};
  describe = λ e. "refused";
  describe_json = λ e. "not json";
  initialize = λ s ids. (s, if leb (length ids) 0 then err tt else ok tt);
  append_entries = λ s req. (s, ok (record { term = s; success = true; conflict_opt = none }));
  install_snapshot = λ s req. (s, err tt);
  vote = term_vote;
  metrics_json = λ s. ok "{}";
}

-- Every uri leads to node 1.
abbrev listen : String → Option ℕ
listen s = some 1

abbrev nowhere : String → Option ℕ
nowhere s = none

abbrev digits : ℕ → String
digits n = "7778"

abbrev name_of : String → String
name_of s = s

abbrev fresh : ℕ → ℕ
fresh id = 3

abbrev candidate : VoteRequest
candidate = record { term = 5; candidate_id = 0; last_log_index = 2; last_log_term = 4 }

abbrev chunk : InstallSnapshotRequest
chunk = record {
  term = 5;
  leader_id = 0;
  last_included_index = 9;
  last_included_term = 4;
  offset = 0;
  done = true;
  bytes = 1 ∷ 2 ∷ [];
}

vote_delivered_example :
    let (w', seen) =
      Router.vote plain_json (cluster term_node listen digits name_of) fresh 1 candidate in
    (w' ≡ update fresh 1 5)
    × IsSeen term_node listen digits name_of vote_failed "wolf_raft_vote" seen
        (ok (record { term = 5; vote_granted = true }))
vote_delivered_example = vote_delivered term_node listen digits name_of fresh 1 candidate refl

install_snapshot_delivered_example :
    let (w', seen) =
      Router.install_snapshot plain_json (cluster term_node listen digits name_of) fresh 1 chunk in
    (w' ≡ update fresh 1 3)
    × IsSeen term_node listen digits name_of {A = InstallSnapshotResponse} install_snapshot_failed
        "wolf_raft_install_snapshot" seen
        (err tt)
install_snapshot_delivered_example =
    install_snapshot_delivered term_node listen digits name_of fresh 1 chunk refl

append_entries_delivered_example :
    let (w', seen) =
      Router.append_entries plain_json (cluster term_node listen digits name_of) fresh 1 "[]" in
    (w' ≡ update fresh 1 3)
    × IsSeen term_node listen digits name_of append_entries_failed "wolf_raft_append_entries" seen
        (ok (record { term = 3; success = true; conflict_opt = none }))
append_entries_delivered_example =
    append_entries_delivered term_node listen digits name_of fresh 1 "[]" "[]" refl refl refl

abbrev b3 : BootstrapReq
b3 = record { msg_id = "b"; number_of_nodes = 3 }

members_exact_example :
    (set : List ℕ) × HasIds 3 set
    × (let (s', r) = term_node.initialize 3 set in
        bootstrap term_node 3 b3 ≡ (s', ok (answer term_node.describe "b" r)))
members_exact_example = members_exact term_node 3 b3

abbrev a1 : AppendEntriesReq
a1 = record { msg_id = "a"; req = "[]" }

abbrev i1 : InstallSnapshotReq
i1 = record {
  msg_id = "i";
  term = 5;
  leader_id = 0;
  last_included_index = 9;
  last_included_term = 4;
  offset = 0;
  done = true;
  bytes = [];
}

abbrev v1 : VoteReq
v1 = record { msg_id = "v"; term = 5; candidate_id = 0; last_log_index = 2; last_log_term = 4 }

abbrev m1 : GetMetricsReq
m1 = record { msg_id = "m" }

echoes_request_id_example :
    Replies (λ r. r.msg_id ≡ "b") (λ e. e.msg_id ≡ "b") (Service.bootstrap term_node 3 b3).1
    × Replies (λ r. r.msg_id ≡ "a") (λ e. e.msg_id ≡ "a") (Service.append_entries term_node 3 a1).1
    × Replies
        (λ r. r.msg_id ≡ "i")
        (λ e. e.msg_id ≡ "i")
        (Service.install_snapshot term_node 3 i1).1
    × Replies (λ r. r.msg_id ≡ "v") (λ e. e.msg_id ≡ "v") (Service.vote term_node 3 v1).1
    × Replies (λ r. r.msg_id ≡ "m") (λ e. e.msg_id ≡ "m") (Service.get_metrics term_node 3 m1).1
echoes_request_id_example = echoes_request_id term_node 3 b3 a1 i1 v1 m1

abbrev conflict : AppendEntriesResponse
conflict = record {
  term = 5;
  success = false;
  conflict_opt = some (record { term = 4; index = 7 });
}

converters_round_trip_example :
    (append_entries_res_of_grpc (append_entries_res_to_grpc "id" conflict) ≡ conflict)
    × (install_snapshot_req_of_grpc (install_snapshot_req_to_grpc "id" chunk) ≡ chunk)
    × (install_snapshot_res_of_grpc (install_snapshot_res_to_grpc "id" (record { term = 5 }))
        ≡ record { term = 5 })
    × (vote_req_of_grpc (vote_req_to_grpc "id" candidate) ≡ candidate)
    × (vote_res_of_grpc (vote_res_to_grpc "id" (record { term = 5; vote_granted = true }))
        ≡ record { term = 5; vote_granted = true })
converters_round_trip_example =
    converters_round_trip "id" conflict chunk (record { term = 5 }) candidate
      (record { term = 5; vote_granted = true })
