-- ===== src/Raft/Service/Replies.antt =====
-- What the replies of the five handlers have in common.
use wolf_engine.Base.{◌≡◌, ◌≢◌, ◌≤◌, none, some, Result, ok, err, arith}
use wolf_engine.Raft.Messages.{
  ErrorCode, ErrorRes, ok_res, error_res, Reply, BootstrapReq, AppendEntriesReq, InstallSnapshotReq,
  VoteReq, GetMetricsReq,
}
use wolf_engine.Raft.Converter.{
  Json, append_entries_res_to_grpc, install_snapshot_res_to_grpc, vote_res_to_grpc,
}
use wolf_engine.Raft.Service.{
  Node, error_code, bootstrap, append_entries, install_snapshot, vote, get_metrics,
}

code_bound : (c : ErrorCode) → error_code c ≤ 6
unfolding error_code
code_bound c = ground arith

-- A reply, never a `Status` and never an absent `oneof`, that satisfies one of the two predicates.
abbrev pub Replies :
    {St A : Type 0} → (A → Type 0) → (ErrorRes → Type 0) → Result St (Reply A) → Type 0
Replies P Q (err status) = ⊥
Replies P Q (ok none) = ⊥
Replies P Q (ok (some (ok_res a))) = P a
Replies P Q (ok (some (error_res e))) = Q e

module _ {j : Json} (node : Node j) where
  -- Whatever the node does, each of the five handlers answers with a message, not with a grpc
  -- status and not with an empty one, and the message carries the id of the request.
  pub echoes_request_id :
      (s : node.State) (b : BootstrapReq) (a : AppendEntriesReq) (i : InstallSnapshotReq)
      (v : VoteReq) (m : GetMetricsReq)
      → Replies (λ r. r.msg_id ≡ b.msg_id) (λ e. e.msg_id ≡ b.msg_id) (bootstrap node s b).1
        × Replies (λ r. r.msg_id ≡ a.msg_id) (λ e. e.msg_id ≡ a.msg_id) (append_entries node s a).1
        × Replies
            (λ r. r.msg_id ≡ i.msg_id)
            (λ e. e.msg_id ≡ i.msg_id)
            (install_snapshot node s i).1
        × Replies (λ r. r.msg_id ≡ v.msg_id) (λ e. e.msg_id ≡ v.msg_id) (vote node s v).1
        × Replies (λ r. r.msg_id ≡ m.msg_id) (λ e. e.msg_id ≡ m.msg_id) (get_metrics node s m).1
  unfolding bootstrap append_entries install_snapshot vote get_metrics append_entries_res_to_grpc
      install_snapshot_res_to_grpc vote_res_to_grpc
  echoes_request_id s b a i v m =
      (ground arith, ground arith, ground arith, ground arith, ground arith)

  -- No error reply of any handler has a `code` that `ErrorCode` declares: each is 7000 more.
  pub undeclared_code :
      (s : node.State) (b : BootstrapReq) (a : AppendEntriesReq) (i : InstallSnapshotReq)
      (v : VoteReq) (m : GetMetricsReq) (d : ErrorCode)
      → Replies (λ _. Unit {0}) (λ e. e.code ≢ error_code d) (bootstrap node s b).1
        × Replies (λ _. Unit {0}) (λ e. e.code ≢ error_code d) (append_entries node s a).1
        × Replies (λ _. Unit {0}) (λ e. e.code ≢ error_code d) (install_snapshot node s i).1
        × Replies (λ _. Unit {0}) (λ e. e.code ≢ error_code d) (vote node s v).1
        × Replies (λ _. Unit {0}) (λ e. e.code ≢ error_code d) (get_metrics node s m).1
  unfolding bootstrap append_entries install_snapshot vote get_metrics
  undeclared_code s b a i v m d = (
    ground (arith, code_bound d),
    ground (arith, code_bound d),
    ground (arith, code_bound d),
    ground (arith, code_bound d),
    ground (arith, code_bound d),
  )
