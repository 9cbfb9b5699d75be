-- ===== src/Raft/Converter.antt =====
-- wolf/src/system/algorithm/raft/raft_converter.rs. A `TRACE` and the text of a `serde_json` error
-- are the error value that the parameter `Json` hands over.
pub mod RoundTrip
use wolf_engine.Base.{ℕ, Option, none, some, String, Result, ok, err, map_ok}
use wolf_engine.Raft.Messages.{
  AppendEntriesReq, ConflictOpt, AppendEntriesOkRes, InstallSnapshotReq, InstallSnapshotOkRes,
  VoteReq, VoteOkRes, RaftConflictOpt, AppendEntriesResponse, InstallSnapshotRequest,
  InstallSnapshotResponse, VoteRequest, VoteResponse,
}

-- `serde_json` at `AppendEntriesRequest<ClientRequest>`, a type of `async_raft`.
pub record Json : Type 1 where
  pub AppendEntriesRequest : Type 0
  pub JsonError : Type 0
  pub serialize : AppendEntriesRequest → Result JsonError String
  pub deserialize : String → Result JsonError AppendEntriesRequest

module _ (j : Json) where
  open j use {AppendEntriesRequest, JsonError, serialize, deserialize}

  unfoldable pub append_entries_req_to_grpc :
      String → AppendEntriesRequest → Result JsonError AppendEntriesReq
  append_entries_req_to_grpc msg_id req =
      map_ok (λ json. record { msg_id = msg_id; req = json }) (serialize req)

  unfoldable pub append_entries_req_of_grpc :
      AppendEntriesReq → Result JsonError AppendEntriesRequest
  append_entries_req_of_grpc req = deserialize req.req

conflict_to_grpc : Option RaftConflictOpt → Option ConflictOpt
conflict_to_grpc none = none
conflict_to_grpc (some c) = some (record { term = c.term; index = c.index })

conflict_of_grpc : Option ConflictOpt → Option RaftConflictOpt
conflict_of_grpc none = none
conflict_of_grpc (some c) = some (record { term = c.term; index = c.index })

unfoldable pub append_entries_res_to_grpc : String → AppendEntriesResponse → AppendEntriesOkRes
unfolding conflict_to_grpc
append_entries_res_to_grpc msg_id res = record {
  msg_id = msg_id;
  term = res.term;
  success = res.success;
  conflict_opt = conflict_to_grpc res.conflict_opt;
}

unfoldable pub append_entries_res_of_grpc : AppendEntriesOkRes → AppendEntriesResponse
unfolding conflict_of_grpc
append_entries_res_of_grpc res = record {
  term = res.term;
  success = res.success;
  conflict_opt = conflict_of_grpc res.conflict_opt;
}

unfoldable pub install_snapshot_req_to_grpc : String → InstallSnapshotRequest → InstallSnapshotReq
install_snapshot_req_to_grpc msg_id req = record {
  msg_id = msg_id;
  term = req.term;
  leader_id = req.leader_id;
  last_included_index = req.last_included_index;
  last_included_term = req.last_included_term;
  offset = req.offset;
  done = req.done;
  bytes = req.bytes;
}

unfoldable pub install_snapshot_req_of_grpc : InstallSnapshotReq → InstallSnapshotRequest
install_snapshot_req_of_grpc req = record {
  term = req.term;
  leader_id = req.leader_id;
  last_included_index = req.last_included_index;
  last_included_term = req.last_included_term;
  offset = req.offset;
  done = req.done;
  bytes = req.bytes;
}

unfoldable pub install_snapshot_res_to_grpc :
    String → InstallSnapshotResponse → InstallSnapshotOkRes
install_snapshot_res_to_grpc msg_id res = record { msg_id = msg_id; term = res.term }

unfoldable pub install_snapshot_res_of_grpc : InstallSnapshotOkRes → InstallSnapshotResponse
install_snapshot_res_of_grpc res = record { term = res.term }

unfoldable pub vote_req_to_grpc : String → VoteRequest → VoteReq
vote_req_to_grpc msg_id req = record {
  msg_id = msg_id;
  term = req.term;
  candidate_id = req.candidate_id;
  last_log_index = req.last_log_index;
  last_log_term = req.last_log_term;
}

unfoldable pub vote_req_of_grpc : VoteReq → VoteRequest
vote_req_of_grpc req = record {
  term = req.term;
  candidate_id = req.candidate_id;
  last_log_index = req.last_log_index;
  last_log_term = req.last_log_term;
}

unfoldable pub vote_res_to_grpc : String → VoteResponse → VoteOkRes
vote_res_to_grpc msg_id res = record {
  msg_id = msg_id;
  term = res.term;
  vote_granted = res.vote_granted;
}

unfoldable pub vote_res_of_grpc : VoteOkRes → VoteResponse
vote_res_of_grpc res = record { term = res.term; vote_granted = res.vote_granted }
