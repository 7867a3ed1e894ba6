-- ===== src/Procedure/CreateTable/Tests.antt =====
-- Runs of create_table.go on a cluster in memory.
use ceresmeta.Storage.{Table, ShardNode, ShardView}
use ceresmeta.Storage.Memory.{memory_storage_laws}
use ceresmeta.TableManager.{get_table}
use ceresmeta.TableManager as Manager
use ceresmeta.Topology.{get_shard_nodes_by_id}
use ceresmeta.Topology.Update.{add_table}
use ceresmeta.ClusterMetadata.{create_table_metadata, add_table_topology}
use ceresmeta.ClusterMetadata.Memory.{counter, s, before, shard, view}
use ceresmeta.Procedure.{state_init, state_finished}
use ceresmeta.Procedure.Ddl.{
  Observer, build_create_table_request, create_table_on_shard, find_leader,
}
use ceresmeta.Procedure.Fsm.{Run}
use ceresmeta.Procedure.Fsm.Memory.{fsm, fsm_laws, nodes}
use ceresmeta.Procedure.CreateTable.{
  FsmState, begin, CreateTable, CreateTableResult, Whole, first_update, version_update,
  prepare_callback, success_callback, callbacks, create_table_events, send, start,
}
use ceresmeta.Procedure.CreateTable.Outcome.{start_ok}
use ceresmeta.Common.{
  nat_eq, elem, lookup, ok, ℕ, ◌≡◌, refl, true, false, none, some, List, [], ◌∷◌, text_eq,
}

-- What the observer has been told: the successes.
abbrev log : Observer CreateTableResult
log = record {
  State = List CreateTableResult;
  on_succeeded = λ r l. (ok tt, r ∷ l);
  on_failed = λ e l. (ok tt, l);
}

abbrev procedure : CreateTable
procedure = record {
  params = record {
    id = 1;
    topology = record { shard_views_mapping = (5, shard) ∷ []; cluster_view = view };
    shard_id = 5;
    source_req = record {
      schema_name = b'p' ∷ [];
      name = b't' ∷ [];
      encoded_schema = [];
      engine = [];
      create_if_not_exist = false;
      options = [];
      partition_table_info = none;
    };
  };
  related_version_info = record {
    cluster_id = 1;
    shard_with_version = (5, 7) ∷ [];
    cluster_version = 3;
  };
  state = state_init;
}

abbrev first_run : Run FsmState (Whole s counter counter nodes log)
first_run = record {
  current = begin;
  state = state_init;
  world = ((before, λ a k. true), ([], none));
}

runs : (start s counter counter nodes log 9 10 procedure fsm first_run).0 ≡ ok tt
unfolding start send callbacks prepare_callback success_callback create_table_events
    create_table_metadata add_table_topology Manager.create_table add_table create_table_on_shard
    build_create_table_request find_leader get_table lookup get_shard_nodes_by_id
runs = refl

start_ok_example :
    let q = (start s counter counter nodes log 9 10 procedure fsm first_run).1 in
    (q.state ≡ state_finished)
    × (get_table (b'p' ∷ []) (b't' ∷ []) before.0 ≡ ok none)
    × ((t : Table) × (v : ℕ) × (get_table (b'p' ∷ []) (b't' ∷ []) q.world.0.0.0 ≡ ok (some t))
        × ((ns : List ShardNode) × (l : ShardNode) × (get_shard_nodes_by_id 5 before.1.0 ≡ ok ns)
            × (find_leader ns ≡ some l)
            × ((nodes.create_table_on_shard l.node_name
                  (build_create_table_request t
                    (first_update procedure)
                    procedure.params.source_req)
                  (λ a k. true)).0
                ≡ ok v))
        × ((view : ShardView) × (s.shard_view q.world.0.0.1.1.0 1 5 ≡ some view)
            × (view.version ≡ v)
            × (elem t.id view.table_ids ≡ true))
        × (q.world.1.0 ≡ (log.on_succeeded (t, version_update procedure v) []).1))
start_ok_example =
    start_ok fsm fsm_laws s memory_storage_laws counter counter nodes log 9 10 procedure first_run
      tt refl refl runs
