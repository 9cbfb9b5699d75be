-- ===== src/Raft/Service.antt =====
-- wolf/src/system/algorithm/raft/raft_srv.rs: the five handlers of the grpc service `Srv`.
--
-- The `MemRaft` node of async_raft is the parameter `Node`, a state with its methods; a handler
-- returns the node's new state and what `Ok(Response::new(..))` or `Err(Status)` would hold. A
-- request's tonic wrapper is taken off by `into_inner`, so a handler takes the inner message.
pub mod Replies
pub mod Members
use Prim.Native.String.{◌++◌ as ◌<>◌}
use wolf_engine.Base.{
  ℕ, zero, suc, ◌+◌, Bool, true, false, ◌||◌, List, [], ◌∷◌, some, String, Result, ok, err, Outcome,
  returned, panicked, ◌==◌, if◌then◌else◌,
}
use wolf_engine.Raft.Messages.{
  ErrorCode, undefined_error, bootstrap_failed, append_entries_json_of_req_is_not_valid,
  append_entries_failed, install_snapshot_failed, vote_failed, get_metrics_failed, ErrorRes,
  Response, ok_res, error_res, Reply, BootstrapReq, BootstrapOkRes, AppendEntriesReq,
  AppendEntriesOkRes, InstallSnapshotReq, InstallSnapshotOkRes, VoteReq, VoteOkRes, GetMetricsReq,
  GetMetricsOkRes, AppendEntriesResponse, InstallSnapshotRequest, InstallSnapshotResponse,
  VoteRequest, VoteResponse,
}
use wolf_engine.Raft.Converter.{
  Json, append_entries_req_of_grpc, append_entries_res_to_grpc, install_snapshot_req_of_grpc,
  install_snapshot_res_to_grpc, vote_req_of_grpc, vote_res_to_grpc,
}

-- `describe` is the text that `{:?}` gives for an error.
pub record Node (j : Json) : Type 1 where
  pub State : Type 0
  pub RaftError : Type 0
  pub Status : Type 0
  pub describe : RaftError → String
  pub describe_json : j.JsonError → String
  pub initialize : State → List ℕ → State × Result RaftError (Unit {0})
  pub append_entries :
      State → j.AppendEntriesRequest → State × Result RaftError AppendEntriesResponse
  pub install_snapshot :
      State → InstallSnapshotRequest → State × Result RaftError InstallSnapshotResponse
  pub vote : State → VoteRequest → State × Result RaftError VoteResponse
  pub metrics_json : State → Result j.JsonError String

abbrev pub base_error_code_raft : ℕ
base_error_code_raft = 7000

-- `as i32` on a variant of `ErrorCode`
unfoldable pub error_code : ErrorCode → ℕ
error_code undefined_error = 0
error_code bootstrap_failed = 1
error_code append_entries_json_of_req_is_not_valid = 2
error_code append_entries_failed = 3
error_code install_snapshot_failed = 4
error_code vote_failed = 5
error_code get_metrics_failed = 6

-- The `RaftErrorRes` literal that every handler builds in its error arm.
unfoldable pub error_reply : {A : Type 0} → ErrorCode → String → String → Reply A
unfolding error_code
error_reply code msg_id msg = some (
    error_res
      (record { msg_id = msg_id; code = base_error_code_raft + error_code code; msg = msg }))

-- A `HashSet<u64>` as the list of its elements.
pub contains : ℕ → List ℕ → Bool
contains k [] = false
contains k (x ∷ xs) = k == x || contains k xs

pub insert : ℕ → List ℕ → List ℕ
insert k xs = if contains k xs then xs else k ∷ xs

-- `for i in 0..n`, from `i` with so many turns left
pub insert_range : ℕ → ℕ → List ℕ → List ℕ
insert_range zero i set = set
insert_range (suc turns) i set = insert_range turns (i + 1) (insert i set)

pub members : ℕ → List ℕ
members n = insert_range n 0 []

-- The two arms of a handler's `match` on the node's result.
unfoldable pub respond :
    {S St E A B : Type 0}
    → ErrorCode
    → String
    → (E → String)
    → (A → B)
    → S × Result E A
    → S × Result St (Reply B)
unfolding error_reply
respond code msg_id explain convert (s, ok a) = (s, ok (some (ok_res (convert a))))
respond code msg_id explain convert (s, err e) = (s, ok (error_reply code msg_id (explain e)))

module _ {j : Json} (node : Node j) where
  open node use {State, RaftError, Status, describe, describe_json}

  unfoldable pub bootstrap : State → BootstrapReq → State × Result Status (Reply BootstrapOkRes)
  unfolding respond members
  bootstrap s req =
      respond bootstrap_failed req.msg_id
        (λ e. "could not initialize raft node because " <> describe e)
        (λ _. record { msg_id = req.msg_id }) (node.initialize s (members req.number_of_nodes))

  -- The request is decoded first; one that is not valid JSON never reaches the node.
  append_decoded :
      State
      → AppendEntriesReq
      → Result j.JsonError j.AppendEntriesRequest
      → State × Result Status (Reply AppendEntriesOkRes)
  unfolding respond
  append_decoded s req (ok decoded) =
      respond append_entries_failed req.msg_id
        (λ e. "could not get response from raft::append_entries because " <> describe e)
        (append_entries_res_to_grpc req.msg_id) (node.append_entries s decoded)
  append_decoded s req (err e) = (
    s,
    ok (
        error_reply append_entries_json_of_req_is_not_valid req.msg_id
          ("could not deserialize append_entries request because " <> describe_json e)),
  )

  unfoldable pub append_entries :
      State → AppendEntriesReq → State × Result Status (Reply AppendEntriesOkRes)
  unfolding append_decoded
  append_entries s req = append_decoded s req (append_entries_req_of_grpc j req)

  unfoldable pub install_snapshot :
      State → InstallSnapshotReq → State × Result Status (Reply InstallSnapshotOkRes)
  unfolding respond
  install_snapshot s req =
      respond install_snapshot_failed req.msg_id
        (λ e. "could not get response from raft::install_snapshot because " <> describe e)
        (install_snapshot_res_to_grpc req.msg_id)
        (node.install_snapshot s (install_snapshot_req_of_grpc req))

  unfoldable pub vote : State → VoteReq → State × Result Status (Reply VoteOkRes)
  unfolding respond
  vote s req =
      respond vote_failed req.msg_id
        (λ e. "could not get response from raft::vote because " <> describe e)
        (vote_res_to_grpc req.msg_id) (node.vote s (vote_req_of_grpc req))

  unfoldable pub get_metrics : State → GetMetricsReq → State × Result Status (Reply GetMetricsOkRes)
  unfolding respond
  get_metrics s req =
      respond get_metrics_failed req.msg_id
        (λ e. "could not get json response from raft::metrics because " <> describe_json e)
        (λ json. record { msg_id = req.msg_id; metrics = json }) (s, node.metrics_json s)

-- `raft_imp::new`, `Srv::new`, `Srv::default` and `get_service`: a node is built from a validated
-- configuration, and an invalid one panics. `build`, `validate` and `start` are async_raft's, with
-- the `MemStore` and the `RaftRouter` of the node, which hold nothing else.
pub record Builder (State : Type 0) : Type 1 where
  pub Config : Type 0
  pub ConfigError : Type 0
  pub build : String → Config
  pub validate : Config → Result ConfigError Config
  pub start : ℕ → Config → State

module _ {State : Type 0} (b : Builder State) where
  start_or_panic : ℕ → Result b.ConfigError b.Config → Outcome State
  start_or_panic id (ok config) = returned (b.start id config)
  start_or_panic id (err e) = panicked

  unfoldable pub get_service : String → ℕ → Outcome State
  unfolding start_or_panic
  get_service cluster_name id = start_or_panic id (b.validate (b.build cluster_name))

  unfoldable pub default_service : Outcome State
  unfolding get_service
  default_service = get_service "wolf" 0
