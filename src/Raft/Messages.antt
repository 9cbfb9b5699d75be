-- ===== src/Raft/Messages.antt =====
-- The messages of wolf/proto/raft.proto, and the request and response types of `async_raft` that
-- raft_converter.rs reads and builds. A `uint64` is a native number below 2 ^ 64, bytes are a list.
use wolf_engine.Base.{ℕ, Bool, List, Option, String}

-- ErrorCode
pub data ErrorCode : Type 0 where
  undefined_error bootstrap_failed append_entries_json_of_req_is_not_valid : ErrorCode
  append_entries_failed install_snapshot_failed vote_failed get_metrics_failed : ErrorCode

-- RaftErrorRes; prost keeps an enum field as an `i32`
pub record ErrorRes : Type 0 where
  pub msg_id : String
  pub code : ℕ
  pub msg : String

-- The `oneof response` of the five response messages. An absent `oneof` is `none`.
pub data Response (A : Type 0) : Type 0 where
  ok_res : A → Response A
  error_res : ErrorRes → Response A

abbrev pub Reply : Type 0 → Type 0
Reply A = Option (Response A)

pub record BootstrapReq : Type 0 where
  pub msg_id : String
  pub number_of_nodes : ℕ

pub record BootstrapOkRes : Type 0 where
  pub msg_id : String

pub record AppendEntriesReq : Type 0 where
  pub msg_id : String
  pub req : String

pub record ConflictOpt : Type 0 where
  pub term : ℕ
  pub index : ℕ

pub record AppendEntriesOkRes : Type 0 where
  pub msg_id : String
  pub term : ℕ
  pub success : Bool
  pub conflict_opt : Option ConflictOpt

pub record InstallSnapshotReq : Type 0 where
  pub msg_id : String
  pub term : ℕ
  pub leader_id : ℕ
  pub last_included_index : ℕ
  pub last_included_term : ℕ
  pub offset : ℕ
  pub done : Bool
  pub bytes : List ℕ

pub record InstallSnapshotOkRes : Type 0 where
  pub msg_id : String
  pub term : ℕ

pub record VoteReq : Type 0 where
  pub msg_id : String
  pub term : ℕ
  pub candidate_id : ℕ
  pub last_log_index : ℕ
  pub last_log_term : ℕ

pub record VoteOkRes : Type 0 where
  pub msg_id : String
  pub term : ℕ
  pub vote_granted : Bool

pub record GetMetricsReq : Type 0 where
  pub msg_id : String

pub record GetMetricsOkRes : Type 0 where
  pub msg_id : String
  pub metrics : String

-- async_raft::raft::{ConflictOpt, AppendEntriesResponse, InstallSnapshotRequest,
-- InstallSnapshotResponse, VoteRequest, VoteResponse}, with the fields that the converters give.
pub record RaftConflictOpt : Type 0 where
  pub term : ℕ
  pub index : ℕ

pub record AppendEntriesResponse : Type 0 where
  pub term : ℕ
  pub success : Bool
  pub conflict_opt : Option RaftConflictOpt

pub record InstallSnapshotRequest : Type 0 where
  pub term : ℕ
  pub leader_id : ℕ
  pub last_included_index : ℕ
  pub last_included_term : ℕ
  pub offset : ℕ
  pub done : Bool
  pub bytes : List ℕ

pub record InstallSnapshotResponse : Type 0 where
  pub term : ℕ

pub record VoteRequest : Type 0 where
  pub term : ℕ
  pub candidate_id : ℕ
  pub last_log_index : ℕ
  pub last_log_term : ℕ

pub record VoteResponse : Type 0 where
  pub term : ℕ
  pub vote_granted : Bool
