-- ===== src/Raft/Cluster.antt =====
-- A cluster of nodes behind their services, joined by a network that delivers every call: what a
-- call of `RaftRouter` (raft_imp.rs) does to the node at the other end of `Srv` (raft_srv.rs).
use wolf_engine.Base.{
  ℕ, ◌+◌, ◌≡◌, Option, none, some, String, Result, ok, err, arith, ◌==◌, if◌then◌else◌,
}
use wolf_engine.Grpc.{Transport, ChannelError, create_channel}
use wolf_engine.Raft.Messages.{
  InstallSnapshotRequest, VoteRequest, append_entries_failed, install_snapshot_failed, vote_failed,
  ErrorCode,
}
use wolf_engine.Raft.Converter.{
  Json, append_entries_res_to_grpc, append_entries_res_of_grpc, install_snapshot_req_to_grpc,
  install_snapshot_req_of_grpc, install_snapshot_res_to_grpc, install_snapshot_res_of_grpc,
  append_entries_req_to_grpc, append_entries_req_of_grpc, vote_req_to_grpc, vote_req_of_grpc,
  vote_res_to_grpc, vote_res_of_grpc,
}
use wolf_engine.Raft.Service
use wolf_engine.Raft.Service.{Node, base_error_code_raft, error_code}
use wolf_engine.Raft.Router
use wolf_engine.Raft.Router.{Rpc, RouterError, error_response, receive}

abbrev pub update {ℓ} : {A : Type ℓ} → (ℕ → A) → ℕ → A → ℕ → A
update f id s k = if id == k then s else f k

abbrev pub IsErr : {E A : Type 0} → Result E A → Type 0
IsErr (ok a) = ⊥
IsErr (err e) = Unit {0}

module _ {j : Json} (node : Node j) (resolve : String → Option ℕ) (decimal : ℕ → String)
    (uuid_v5 : String → String) where
  -- The state of each node, by its id.
  abbrev pub World : Type 0
  World = ℕ → node.State

  abbrev found : Option ℕ → Result (Unit {0}) ℕ
  found none = err tt
  found (some id) = ok id

  -- Every uri is well formed; a connection is made where a node listens.
  abbrev local : Transport World
  local = record {
    Endpoint = String;
    Channel = ℕ;
    InvalidUri = ⊥;
    TransportError = Unit {0};
    IoError = Unit {0};
    from_shared = ok;
    connect = λ w s. (w, found (resolve s));
    read_file = λ w path. err tt;
    tls_config = λ endpoint pem domain. err tt;
  }

  -- A call runs the handler of the node that is called.
  abbrev at_node {ℓ} : {R : Type ℓ} → World → ℕ → node.State × R → World × R
  at_node w id (s, r) = (update w id s, r)

  abbrev pub cluster : Rpc World
  cluster = record {
    transport = local;
    Status = node.Status;
    decimal = decimal;
    uuid_v5 = uuid_v5;
    append_entries = λ w id req. at_node w id (Service.append_entries node (w id) req);
    install_snapshot = λ w id req. at_node w id (Service.install_snapshot node (w id) req);
    vote = λ w id req. at_node w id (Service.vote node (w id) req);
  }

  abbrev Failure : Type 0
  Failure = RouterError j.JsonError (ChannelError local) node.Status

  -- The caller has seen what the other node's method returned: its value, or an error response of
  -- the given code that carries the id of the call.
  abbrev pub IsSeen :
      {A : Type 0} → ErrorCode → String → Result Failure A → Result node.RaftError A → Type 0
  IsSeen code id (ok a) (ok b) = a ≡ b
  IsSeen code id (err (error_response m)) (err e) =
      (m.code ≡ base_error_code_raft + error_code code) × (m.msg_id ≡ id)
  IsSeen _ _ _ _ = ⊥

  -- If the target's uri leads to it, a vote request runs `vote` of the target once and of no
  -- other node, with the request as it was given; the call returns the value that `vote`
  -- returned, or for its error an error response of the code of `vote` under the id of the call.
  pub vote_delivered :
      (w : World) (target : ℕ) (req : VoteRequest)
      → resolve (Router.uri j cluster target) ≡ some target
      → let (s, r) = node.vote (w target) req in
        let (w', seen) = Router.vote j cluster w target req in
        (w' ≡ update w target s) × IsSeen vote_failed (uuid_v5 "wolf_raft_vote") seen r
  unfolding Router.vote create_channel Service.vote vote_req_to_grpc vote_req_of_grpc
      vote_res_to_grpc vote_res_of_grpc
  vote_delivered w target req h = ground arith

  -- If the target's uri leads to it, a snapshot request runs `install_snapshot` of the target
  -- once and of no other node, with the request as it was given; the call returns the value that
  -- `install_snapshot` returned, or for its error an error response of the code of
  -- `install_snapshot` under the id of the call.
  pub install_snapshot_delivered :
      (w : World) (target : ℕ) (req : InstallSnapshotRequest)
      → resolve (Router.uri j cluster target) ≡ some target
      → let (s, r) = node.install_snapshot (w target) req in
        let (w', seen) = Router.install_snapshot j cluster w target req in
        (w' ≡ update w target s)
        × IsSeen install_snapshot_failed (uuid_v5 "wolf_raft_install_snapshot") seen r
  unfolding Router.install_snapshot create_channel Service.install_snapshot
      install_snapshot_req_to_grpc install_snapshot_req_of_grpc install_snapshot_res_to_grpc
      install_snapshot_res_of_grpc
  install_snapshot_delivered w target req h = ground arith

  -- If the target's uri leads to it, log entries that serialize, to a text that deserializes to
  -- them again, run `append_entries` of the target once and of no other node, with the entries as
  -- they were given; the call returns the value that it returned, or for its error an error
  -- response of the code of `append_entries` under the id of the call.
  pub append_entries_delivered :
      (w : World) (target : ℕ) (req : j.AppendEntriesRequest) (text : String)
      → resolve (Router.uri j cluster target) ≡ some target
      → j.serialize req ≡ ok text
      → j.deserialize text ≡ ok req
      → let (s, r) = node.append_entries (w target) req in
        let (w', seen) = Router.append_entries j cluster w target req in
        (w' ≡ update w target s)
        × IsSeen append_entries_failed (uuid_v5 "wolf_raft_append_entries") seen r
  unfolding Router.append_entries create_channel Service.append_entries append_entries_req_to_grpc
      append_entries_req_of_grpc append_entries_res_to_grpc append_entries_res_of_grpc
  append_entries_delivered w target req text h p q = ground arith

  -- If nobody listens at the target's uri, each of the three calls fails and no node is touched.
  pub unreachable_unchanged :
      (w : World) (target : ℕ) (v : VoteRequest) (i : InstallSnapshotRequest)
      (a : j.AppendEntriesRequest)
      → resolve (Router.uri j cluster target) ≡ none
      → ((Router.vote j cluster w target v).0 ≡ w)
        × ((Router.install_snapshot j cluster w target i).0 ≡ w)
        × ((Router.append_entries j cluster w target a).0 ≡ w)
        × IsErr (Router.vote j cluster w target v).1
        × IsErr (Router.install_snapshot j cluster w target i).1
        × IsErr (Router.append_entries j cluster w target a).1
  unfolding Router.vote Router.install_snapshot Router.append_entries create_channel
      append_entries_req_to_grpc
  unreachable_unchanged w target v i a h =
      (ground arith, ground arith, ground arith, ground arith, ground arith, ground arith)
