-- ===== src/Procedure/CreatePartitionTable/Tests.antt =====
-- Two sub tables of create_partition_table.go on one shard of a cluster in memory.
use ceresmeta.Storage.{Table}
use ceresmeta.TableManager.{get_table}
use ceresmeta.TableManager as Manager
use ceresmeta.Topology.{get_shard_nodes_by_id}
use ceresmeta.Topology.Update.{add_table}
use ceresmeta.ClusterMetadata.{ShardVersionUpdate, create_table_metadata, add_table_topology}
use ceresmeta.ClusterMetadata.Routes.{ShardNodeWithVersion}
use ceresmeta.ClusterMetadata.Memory.{counter, s, before, shard, view, node}
use ceresmeta.Procedure.{state_init}
use ceresmeta.Procedure.Ddl.{
  Observer, build_create_table_request, create_table_on_shard, find_leader,
}
use ceresmeta.Procedure.Fsm.Memory.{nodes, stored}
use ceresmeta.Procedure.CreatePartitionTable.{
  RawData, CreatePartitionTable, Whole, group_names, create_data_tables_callback,
}
use ceresmeta.Procedure.CreatePartitionTable.Tasks.{all_finished, step, run_tasks}
use ceresmeta.Procedure.CreatePartitionTable.SubTables.{create_data_tables_ok}
use ceresmeta.Common.{
  nat_eq, lookup, insert, Result, ok, ℕ, ◌+◌, ◌≡◌, refl, true, false, none, some, List, [], ◌∷◌,
  Bytes, text_eq,
}

abbrev log : Observer (Table × ShardVersionUpdate)
log = record { State = ℕ; on_succeeded = λ r n. (ok tt, n + 1); on_failed = λ e n. (ok tt, n) }

abbrev marshal : RawData → Result Bytes
marshal r = ok (r.id ∷ [])

abbrev on_five : ShardNodeWithVersion
on_five = record {
  shard_info = record {
    id = 5;
    role = ceresmeta.Storage.leader;
    version = 7;
    status = ceresmeta.Storage.ready;
  };
  shard_node = node;
}

abbrev procedure : CreatePartitionTable
procedure = record {
  params = record {
    id = 1;
    topology = record { shard_views_mapping = (5, shard) ∷ []; cluster_view = view };
    source_req = record {
      schema_name = b'p' ∷ [];
      name = b't' ∷ [];
      encoded_schema = [];
      engine = [];
      create_if_not_exist = false;
      options = [];
      partition_table_info =
          some (record { partition_info = none; sub_table_names = (b'x' ∷ []) ∷ (b'y' ∷ []) ∷ [] });
    };
    sub_tables_shards = on_five ∷ on_five ∷ [];
  };
  related_version_info = record {
    cluster_id = 1;
    shard_with_version = (5, 7) ∷ [];
    cluster_version = 3;
  };
  state = state_init;
}

abbrev schedule : List (ℕ × ℕ)
schedule = (0, 1) ∷ (0, 2) ∷ (1, 2) ∷ (0, 3) ∷ (0, 4) ∷ (0, 5) ∷ (0, 6) ∷ []

abbrev world : Whole s counter counter nodes log stored marshal
world = ((before, λ a k. true), ((0, none), []))

runs :
    (create_data_tables_callback s counter counter nodes log stored marshal 0 schedule procedure
      world).0
    ≡ ok tt
unfolding create_data_tables_callback group_names run_tasks step all_finished create_table_metadata
    add_table_topology Manager.create_table add_table create_table_on_shard
    build_create_table_request find_leader get_table lookup insert get_shard_nodes_by_id
runs = refl

create_data_tables_ok_example :
    let w' =
      (create_data_tables_callback s counter counter nodes log stored marshal 0 schedule procedure
        world).1 in
    (t : Table) × (get_table (b'p' ∷ []) (b'y' ∷ []) w'.0.0.0 ≡ ok (some t))
create_data_tables_ok_example =
    create_data_tables_ok s counter counter nodes log stored marshal 0 schedule procedure world
      (b'y' ∷ []) runs refl
