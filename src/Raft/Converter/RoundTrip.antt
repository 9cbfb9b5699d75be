-- ===== src/Raft/Converter/RoundTrip.antt =====
-- A message that is converted to grpc and back is the message that was sent, under any id.
use wolf_engine.Base.{◌≡◌, refl, String, Option, none, some}
use wolf_engine.Raft.Messages.{
  AppendEntriesResponse, InstallSnapshotRequest, InstallSnapshotResponse, VoteRequest, VoteResponse,
  RaftConflictOpt,
}
use wolf_engine.Raft.Converter.{
  append_entries_res_to_grpc, append_entries_res_of_grpc, install_snapshot_req_to_grpc,
  install_snapshot_req_of_grpc, install_snapshot_res_to_grpc, install_snapshot_res_of_grpc,
  vote_req_to_grpc, vote_req_of_grpc, vote_res_to_grpc, vote_res_of_grpc, conflict_to_grpc,
  conflict_of_grpc,
}

conflict_round_trip : (c : Option RaftConflictOpt) → conflict_of_grpc (conflict_to_grpc c) ≡ c
unfolding conflict_to_grpc conflict_of_grpc
conflict_round_trip none = refl
conflict_round_trip (some c) = refl

append_entries_res_round_trip :
    (id : String) (r : AppendEntriesResponse)
    → append_entries_res_of_grpc (append_entries_res_to_grpc id r) ≡ r
unfolding append_entries_res_to_grpc append_entries_res_of_grpc
append_entries_res_round_trip id r = rw (conflict_round_trip r.conflict_opt)

install_snapshot_req_round_trip :
    (id : String) (r : InstallSnapshotRequest)
    → install_snapshot_req_of_grpc (install_snapshot_req_to_grpc id r) ≡ r
unfolding install_snapshot_req_to_grpc install_snapshot_req_of_grpc
install_snapshot_req_round_trip id r = refl

install_snapshot_res_round_trip :
    (id : String) (r : InstallSnapshotResponse)
    → install_snapshot_res_of_grpc (install_snapshot_res_to_grpc id r) ≡ r
unfolding install_snapshot_res_to_grpc install_snapshot_res_of_grpc
install_snapshot_res_round_trip id r = refl

vote_req_round_trip : (id : String) (r : VoteRequest) → vote_req_of_grpc (vote_req_to_grpc id r) ≡ r
unfolding vote_req_to_grpc vote_req_of_grpc
vote_req_round_trip id r = refl

vote_res_round_trip :
    (id : String) (r : VoteResponse) → vote_res_of_grpc (vote_res_to_grpc id r) ≡ r
unfolding vote_res_to_grpc vote_res_of_grpc
vote_res_round_trip id r = refl

-- A response to log entries with its conflict, a request and a response of a snapshot, and a request
-- and a response of a vote come back from their grpc messages as they went in, under any id.
pub converters_round_trip :
    (id : String) (a : AppendEntriesResponse) (i : InstallSnapshotRequest)
    (s : InstallSnapshotResponse) (v : VoteRequest) (w : VoteResponse)
    → (append_entries_res_of_grpc (append_entries_res_to_grpc id a) ≡ a)
      × (install_snapshot_req_of_grpc (install_snapshot_req_to_grpc id i) ≡ i)
      × (install_snapshot_res_of_grpc (install_snapshot_res_to_grpc id s) ≡ s)
      × (vote_req_of_grpc (vote_req_to_grpc id v) ≡ v)
      × (vote_res_of_grpc (vote_res_to_grpc id w) ≡ w)
converters_round_trip id a i s v w = (
  append_entries_res_round_trip id a,
  install_snapshot_req_round_trip id i,
  install_snapshot_res_round_trip id s,
  vote_req_round_trip id v,
  vote_res_round_trip id w,
)
