-- ===== src/Raft/Router.antt =====
-- wolf/src/system/algorithm/raft/raft_imp.rs: `RaftRouter`, which sends the calls of a node to the
-- other nodes over grpc.
--
-- `Rpc` is the part that is not in the repository: tonic's transport and the generated client, the
-- decimal text of a number and the uuid of a name. `log!` texts are left out, each `bail!` is a
-- constructor of `RouterError`. The arms for an unknown variant of a response cannot be reached,
-- since the `oneof` has two, and have no counterpart here.
use Prim.Native.String.{◌++◌ as ◌<>◌}
use wolf_engine.Base.{ℕ, ◌+◌, ◌^◌, ◌%◌, none, some, String, Result, ok, err}
use wolf_engine.Grpc.{Transport, ChannelError, create_channel}
use wolf_engine.Raft.Messages.{
  ErrorRes, ok_res, error_res, Reply, AppendEntriesReq, AppendEntriesOkRes, InstallSnapshotReq,
  InstallSnapshotOkRes, VoteReq, VoteOkRes, AppendEntriesResponse, InstallSnapshotRequest,
  InstallSnapshotResponse, VoteRequest, VoteResponse,
}
use wolf_engine.Raft.Converter.{
  Json, append_entries_req_to_grpc, append_entries_res_of_grpc, install_snapshot_req_to_grpc,
  install_snapshot_res_of_grpc, vote_req_to_grpc, vote_res_of_grpc,
}

pub record Rpc (World : Type 0) : Type 1 where
  pub transport : Transport World
  pub Status : Type 0
  pub decimal : ℕ → String
  pub uuid_v5 : String → String
  pub append_entries :
      World
      → transport.Channel
      → AppendEntriesReq
      → World × Result Status (Reply AppendEntriesOkRes)
  pub install_snapshot :
      World
      → transport.Channel
      → InstallSnapshotReq
      → World × Result Status (Reply InstallSnapshotOkRes)
  pub vote : World → transport.Channel → VoteReq → World × Result Status (Reply VoteOkRes)

abbrev pub base_port : ℕ
base_port = 7777

pub data RouterError (JsonError ChannelError Status : Type 0) : Type 0 where
  not_serialized : JsonError → RouterError JsonError ChannelError Status
  no_channel : ChannelError → RouterError JsonError ChannelError Status
  error_status : Status → RouterError JsonError ChannelError Status
  no_response : RouterError JsonError ChannelError Status
  error_response : ErrorRes → RouterError JsonError ChannelError Status

module _ (j : Json) {World : Type 0} (rpc : Rpc World) where
  open rpc use {transport, Status}

  abbrev Failure : Type 0
  Failure = RouterError j.JsonError (ChannelError transport) Status

  -- `BASE_PORT + p_target_node` is a sum of `u64`, which wraps where overflow is not checked; where it is,
  -- an id from 2 ^ 64 - 7777 on is a panic instead, which is left out.
  unfoldable pub uri : ℕ → String
  uri target = "http://localhost:" <> rpc.decimal ((base_port + target) % 2 ^ 64)

  -- The nested `match` on the client's result.
  unfoldable pub receive :
      {A B : Type 0} → (A → B) → World × Result Status (Reply A) → World × Result Failure B
  receive convert (w, ok (some (ok_res a))) = (w, ok (convert a))
  receive convert (w, ok (some (error_res e))) = (w, err (error_response e))
  receive convert (w, ok none) = (w, err no_response)
  receive convert (w, err e) = (w, err (error_status e))

  -- The outer `match`, on the channel.
  unfoldable pub with_channel :
      {B : Type 0}
      → (World → transport.Channel → World × Result Failure B)
      → World × Result (ChannelError transport) transport.Channel
      → World × Result Failure B
  with_channel call (w, ok channel) = call w channel
  with_channel call (w, err e) = (w, err (no_channel e))

  send_append_entries :
      World → ℕ → Result j.JsonError AppendEntriesReq → World × Result Failure AppendEntriesResponse
  unfolding with_channel receive uri
  send_append_entries w target (ok req) =
      with_channel
        (λ w' channel. receive append_entries_res_of_grpc (rpc.append_entries w' channel req))
        (create_channel transport w (uri target))
  send_append_entries w target (err e) = (w, err (not_serialized e))

  unfoldable pub append_entries :
      World → ℕ → j.AppendEntriesRequest → World × Result Failure AppendEntriesResponse
  unfolding send_append_entries
  append_entries w target req =
      send_append_entries w target
        (append_entries_req_to_grpc j (rpc.uuid_v5 "wolf_raft_append_entries") req)

  unfoldable pub install_snapshot :
      World → ℕ → InstallSnapshotRequest → World × Result Failure InstallSnapshotResponse
  unfolding with_channel receive uri
  install_snapshot w target req =
      with_channel
        (λ w' channel. receive install_snapshot_res_of_grpc (
          rpc.install_snapshot w' channel
            (install_snapshot_req_to_grpc (rpc.uuid_v5 "wolf_raft_install_snapshot") req)))
        (create_channel transport w (uri target))

  unfoldable pub vote : World → ℕ → VoteRequest → World × Result Failure VoteResponse
  unfolding with_channel receive uri
  vote w target req =
      with_channel
        (λ w' channel.
          receive vote_res_of_grpc
            (rpc.vote w' channel (vote_req_to_grpc (rpc.uuid_v5 "wolf_raft_vote") req)))
        (create_channel transport w (uri target))
