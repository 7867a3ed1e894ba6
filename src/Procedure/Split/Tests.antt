-- ===== src/Procedure/Split/Tests.antt =====
-- A run of split.go on a cluster in memory.
use ceresmeta.ClusterMetadata.Memory.{counter, s, before, shard, view}
use ceresmeta.Procedure.{state_init}
use ceresmeta.Procedure.Fsm.{Run}
use ceresmeta.Procedure.Fsm.Memory.{fsm, fsm_laws, nodes, nodes_laws, stored}
use ceresmeta.Procedure.Fsm.Outcome.{Ends}
use ceresmeta.Procedure.Split.{FsmState, begin, Params, RawData, Whole, start}
use ceresmeta.Procedure.Split.Laws.{IsOpen, HasOpened, split_start-HasOpened}
use ceresmeta.Common.{◌==◌, nat_eq, Result, ok, refl, [], ◌∷◌, Bytes}

abbrev marshal : RawData → Result Bytes
marshal r = ok (r.shard_id ∷ [])

abbrev params : Params
params = record {
  id = 1;
  topology = record { shard_views_mapping = (5, shard) ∷ []; cluster_view = view };
  shard_id = 5;
  new_shard_id = 6;
  schema_name = b'p' ∷ [];
  table_names = (b't' ∷ []) ∷ [];
  target_node_name = b'a' ∷ [];
}

abbrev first_run : Run FsmState (Whole s counter counter nodes stored marshal)
first_run = record { current = begin; state = state_init; world = ((before, λ a k. k == 5), []) }

split_start-HasOpened_example :
    Ends
      (start s counter counter nodes stored marshal 9 10 params fsm first_run)
      (λ q. IsOpen s counter counter nodes stored marshal 9 10 params first_run.world.0.1 q.world)
      (λ q.
        HasOpened s counter counter nodes stored marshal 9 10 params first_run.world.0.1 q.world)
split_start-HasOpened_example =
    split_start-HasOpened fsm fsm_laws s counter counter nodes nodes_laws stored marshal 9 10 params
      first_run refl
