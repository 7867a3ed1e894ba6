-- ===== src/Procedure/TransferLeader/Tests.antt =====
-- Runs of transfer_leader.go over nodes in memory.
use ceresmeta.Storage.{ShardView, stable}
use ceresmeta.Procedure.{state_init}
use ceresmeta.Procedure.Fsm.{Run}
use ceresmeta.Procedure.Fsm.Memory.{fsm, fsm_laws, nodes, nodes_laws, stored}
use ceresmeta.Procedure.Fsm as Loop
use ceresmeta.Procedure.Fsm.Script.{rounds}
use ceresmeta.Procedure.Fsm.Outcome.{Ends}
use ceresmeta.Procedure.Fsm.Ends.{Runs, IsDone, start-Runs}
use ceresmeta.Procedure.TransferLeader.{FsmState, begin, Params, RawData, World, machine, start}
use ceresmeta.Procedure.TransferLeader.Laws.{
  path, path-IsPath, IsHeldByNew, HasOneLeader, start-HasOneLeader,
}
use ceresmeta.Common.{
  ◌==◌, nat_eq, Result, ok, ◌≡◌, refl, ◌&&◌, [], ◌∷◌, arith, Bytes, bytes_eq_sound, text_eq,
}

abbrev marshal : RawData → Result Bytes
marshal r = ok (r.id ∷ [])

abbrev params : Params
params = record {
  id = 7;
  topology = record {
    shard_views_mapping =
        (1, record { shard_id = 1; version = 4; table_ids = []; created_at = 0 }) ∷ [];
    cluster_view = record {
      cluster_id = 0;
      version = 2;
      state = stable;
      shard_nodes =
          record { id = 1; shard_role = ceresmeta.Storage.leader; node_name = 97 ∷ [] } ∷ [];
      created_at = 0;
    };
  };
  shard_id = 1;
  old_leader_node_name = 97 ∷ [];
  new_leader_node_name = 98 ∷ [];
}

abbrev first_run : Run FsmState (World nodes stored marshal)
first_run = record {
  current = begin;
  state = state_init;
  world = (λ b k. b == 97 ∷ [] && k == 1, []);
}

start-HasOneLeader_example :
    Ends
      (start nodes stored marshal fsm params first_run)
      (λ q. IsHeldByNew nodes stored marshal params q.world)
      (λ q. HasOneLeader nodes stored marshal params q.world)
start-HasOneLeader_example =
    start-HasOneLeader fsm fsm_laws nodes stored marshal params nodes_laws first_run refl
      (λ b h. (ground (arith, bytes_eq_sound b (97 ∷ [])), refl))

start-Runs_example :
    let m = machine nodes stored marshal params in
    let done = Loop.start fsm m (rounds path 2) first_run in
    Runs m path begin first_run.world done × (done.0 ≡ ok tt → IsDone m done.1)
start-Runs_example =
    start-Runs fsm fsm_laws (machine nodes stored marshal params) path 2 first_run
      (path-IsPath nodes stored marshal params)
