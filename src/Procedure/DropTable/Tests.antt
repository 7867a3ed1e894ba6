-- ===== src/Procedure/DropTable/Tests.antt =====
-- Runs of drop_table.go on a cluster in memory, of a table that shard 5 has and of one that none has.
use ceresmeta.Storage.{ShardView, Table}
use ceresmeta.TableManager.{get_table, Tables, TableManagerImpl}
use ceresmeta.TableManager as Manager
use ceresmeta.Topology.{
  get_shard_nodes_by_id, get_shard_nodes_by_table_ids, GetShardNodesByTableIdsResult,
}
use ceresmeta.Topology.Update as Topo
use ceresmeta.ClusterMetadata.{World, drop_table}
use ceresmeta.ClusterMetadata.Memory.{counter, s, before, shard, view, manager, topology}
use ceresmeta.ClusterMetadata.Routes.{TableInfo}
use ceresmeta.Topology.Removal.{without}
use ceresmeta.Procedure.{state_init, state_finished}
use ceresmeta.Procedure.Ddl.{
  Observer, drop_table_on_shard, drop_on_nodes, build_shard_version_update, get_table_metadata,
  find_leader,
}
use ceresmeta.Procedure.Fsm.{Run}
use ceresmeta.Procedure.Fsm.Memory.{fsm, fsm_laws, nodes}
use ceresmeta.Procedure.DropTable.{
  FsmState, begin, DropTable, Whole, dropped, prepare_callback, success_callback, callbacks,
  drop_table_events, send, start, Params, new_drop_table_procedure,
}
use ceresmeta.Procedure.DropTable.Laws.{drop_start_ok}
use ceresmeta.Procedure.DropTable.Unassigned.{
  drop_start-no_leader, IsUnassigned, new_procedure-unassigned,
}
use ceresmeta.Common.{
  if◌then◌else◌, ◌==◌, nat_eq, lookup, insert, ok, err, ℕ, ◌≡◌, refl, true, none, some, List, [],
  ◌∷◌, shard_not_found, text_eq,
}

abbrev log : Observer TableInfo
log = record {
  State = List TableInfo;
  on_succeeded = λ r l. (ok tt, r ∷ l);
  on_failed = λ e l. (ok tt, l);
}

abbrev table : ℕ → Table
table id = record {
  id = id;
  name = b't' ∷ [];
  schema_id = 1;
  created_at = 9;
  partition_info = none;
}

abbrev cluster : ℕ → World s counter counter
cluster id = (
  record manager {
    schema_tables =
        (1, record { tables = (b't' ∷ [], table id) ∷ []; tables_by_id = (id, table id) ∷ [] })
        ∷ [];
  },
  before.1,
)

abbrev params : Params
params = record {
  id = 1;
  topology = record { shard_views_mapping = (5, shard) ∷ []; cluster_view = view };
  source_req = record { schema_name = b'p' ∷ []; name = b't' ∷ []; partition_table_info = none };
}

abbrev procedure : DropTable
procedure = record {
  params = params;
  shard_id = 5;
  related_version_info = record {
    cluster_id = 1;
    shard_with_version = (5, 7) ∷ [];
    cluster_version = 3;
  };
  state = state_init;
}

abbrev first_run : ℕ → Run FsmState (Whole s counter counter nodes log)
first_run id = record {
  current = begin;
  state = state_init;
  world = ((cluster id, λ a k. true), ([], none));
}

runs : (start s counter counter nodes log 9 procedure fsm (first_run 1)).0 ≡ ok tt
unfolding start send callbacks prepare_callback success_callback drop_table_events drop_table
    Manager.drop_table Topo.remove_table drop_table_on_shard drop_on_nodes
    build_shard_version_update get_table_metadata find_leader get_table lookup get_shard_nodes_by_id
    get_shard_nodes_by_table_ids Topo.compact Topo.kept_tables
runs = refl

drop_start_ok_example :
    let q = (start s counter counter nodes log 9 procedure fsm (first_run 1)).1 in
    (q.state ≡ state_finished)
    × (get_table (b'p' ∷ []) (b't' ∷ []) q.world.0.0.0 ≡ ok none)
    × ((t : Table) × (get_table (b'p' ∷ []) (b't' ∷ []) (cluster 1).0 ≡ ok (some t))
        × (q.world.1.0 ≡ (log.on_succeeded (dropped procedure t) []).1))
drop_start_ok_example =
    drop_start_ok fsm fsm_laws s counter counter nodes log 9 procedure (first_run 1) refl runs

-- Table 1 is in shard 5, whose node was dropped; shard 0 has another table and version 6.
abbrev shard_zero : ShardView
shard_zero = record { shard_id = 0; version = 6; table_ids = 8 ∷ []; created_at = 0 }

abbrev leaderless : World s counter counter
leaderless = (
  (cluster 1).0,
  (
    record topology {
      cluster_view = some (record view { shard_nodes = [] });
      shard_nodes_mapping = [];
      node_shards_mapping = [];
      shard_tables_mapping = (0, shard_zero) ∷ (5, shard) ∷ [];
    },
    before.1.1,
  ),
)

abbrev leaderless_run : Run FsmState (Whole s counter counter nodes log)
leaderless_run = record {
  current = begin;
  state = state_init;
  world = ((leaderless, λ a k. true), ([], none));
}

abbrev no_nodes : GetShardNodesByTableIdsResult
no_nodes = record { shard_nodes = (1, []) ∷ []; version = [] }

found_one : get_table (b'p' ∷ []) (b't' ∷ []) leaderless.0 ≡ ok (some (table 1))
unfolding get_table lookup
found_one = refl

one_nodes : get_shard_nodes_by_table_ids (1 ∷ []) leaderless.1.0 ≡ ok no_nodes
unfolding get_shard_nodes_by_table_ids lookup insert
one_nodes = refl

no_leader : find_leader (ceresmeta.Topology.or_nil (lookup 1 no_nodes.shard_nodes)) ≡ none
unfolding find_leader lookup
no_leader = refl

zero_there : lookup 0 leaderless.1.0.shard_tables_mapping ≡ some shard_zero
unfolding lookup
zero_there = refl

leaderless_runs : (start s counter counter nodes log 9 procedure fsm leaderless_run).0 ≡ ok tt
unfolding start send callbacks prepare_callback success_callback drop_table_events drop_table
    Manager.drop_table Topo.remove_table drop_table_on_shard drop_on_nodes
    build_shard_version_update get_table_metadata find_leader get_table lookup get_shard_nodes_by_id
    get_shard_nodes_by_table_ids Topo.compact Topo.kept_tables insert
leaderless_runs = refl

drop_start-no_leader_example :
    let r' = (start s counter counter nodes log 9 procedure fsm leaderless_run).1 in
    (r'.state ≡ state_finished)
    × (get_table (b'p' ∷ []) (b't' ∷ []) r'.world.0.0.0 ≡ ok none)
    × ((k : ℕ)
        → lookup k r'.world.0.0.1.0.shard_tables_mapping ≡ (
            if 0 == k
            then some (record shard_zero { version = 0; table_ids = without 1 (8 ∷ []) })
            else lookup k ((0, shard_zero) ∷ (5, shard) ∷ [])))
drop_start-no_leader_example =
    drop_start-no_leader s counter counter nodes log 9 procedure fsm fsm_laws leaderless_run
      (table 1) no_nodes shard_zero refl found_one one_nodes no_leader zero_there leaderless_runs

found_nine : get_table (b'p' ∷ []) (b't' ∷ []) (cluster 9).0 ≡ ok (some (table 9))
unfolding get_table lookup
found_nine = refl

nine-IsUnassigned : IsUnassigned 9 ((5, shard) ∷ [])
unfolding IsUnassigned
nine-IsUnassigned = (refl, tt)

new_procedure-unassigned_example :
    new_drop_table_procedure params (cluster 9).0 ≡ err shard_not_found
new_procedure-unassigned_example =
    new_procedure-unassigned params (cluster 9).0 (table 9) found_nine nine-IsUnassigned
