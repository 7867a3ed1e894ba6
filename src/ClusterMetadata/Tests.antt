-- ===== src/ClusterMetadata/Tests.antt =====
-- The properties of the cluster's operations on a storage in memory with one schema and one shard.
use ceresmeta.Storage.{leader, ready, Table, ShardView}
use ceresmeta.Storage.Memory.{memory_storage_laws}
use ceresmeta.Topology.Update.{add_table}
use ceresmeta.TableManager.{IdAllocator, TableManagerImpl, get_table}
use ceresmeta.TableManager as Manager
use ceresmeta.ClusterMetadata.{
  CreateTableRequest, ShardVersionUpdate, ShardInfo, create_table, sort_compare, simple_compare,
  same_ids,
}
use ceresmeta.ClusterMetadata.Tables.{cluster_create_table_ok, cluster_create_table_again}
use ceresmeta.ClusterMetadata.Compare.{simple_compare_iff}
use ceresmeta.ClusterMetadata.Memory.{counter, view, stored, topology, manager, s, before}
use ceresmeta.Common.{
  nat_eq, length, elem, lookup, ok, err, ℕ, ◌≡◌, refl, ◌↔◌, true, none, some, [], ◌∷◌,
  shard_not_found, table_already_exists, text_eq,
}

abbrev request : CreateTableRequest
request = record {
  shard_id = 5;
  latest_version = 8;
  schema_name = b'p' ∷ [];
  table_name = b't' ∷ [];
  partition_info = none;
}

abbrev table : Table
table = record { id = 3; name = b't' ∷ []; schema_id = 1; created_at = 9; partition_info = none }

abbrev update : ShardVersionUpdate
update = record { shard_id = 5; latest_version = 8 }

create_runs : (create_table s counter counter 9 request before).0 ≡ ok (table, update)
unfolding create_table Manager.create_table add_table get_table lookup
create_runs = refl

cluster_create_table_ok_example :
    let w' = (create_table s counter counter 9 request before).1 in
    (get_table (b'p' ∷ []) (b't' ∷ []) manager ≡ ok none)
    × (get_table (b'p' ∷ []) (b't' ∷ []) w'.0 ≡ ok (some table))
    × ((v : ShardView) × (s.shard_view w'.1.1.0 1 5 ≡ some v)
        × (v.version ≡ 8)
        × (elem 3 v.table_ids ≡ true))
cluster_create_table_ok_example =
    cluster_create_table_ok s counter counter memory_storage_laws 9 request before table update tt
      refl create_runs

abbrev elsewhere : CreateTableRequest
elsewhere = record request { shard_id = 6 }

made :
    (Manager.create_table s counter counter 9
      (b'p' ∷ [])
      (b't' ∷ [])
      none
      (manager, (stored, (2, 3)))).0
    ≡ ok table
unfolding Manager.create_table get_table lookup
made = refl

failed :
    (add_table s 9 6 8 (table ∷ []) (
      topology,
      (Manager.create_table s counter counter 9
          (b'p' ∷ [])
          (b't' ∷ [])
          none
          (manager, (stored, (2, 3)))).1.1.0,
    )).0
    ≡ err shard_not_found
unfolding Manager.create_table add_table get_table lookup
failed = refl

cluster_create_table_again_example :
    let w' = create_table s counter counter 9 elsewhere before in
    (w'.0 ≡ err shard_not_found)
    × ((create_table s counter counter 12 elsewhere w'.1).0 ≡ err table_already_exists)
cluster_create_table_again_example =
    cluster_create_table_again s counter counter 9 12 elsewhere before view table shard_not_found
      refl refl made failed

abbrev first : ShardInfo
first = record { id = 1; role = leader; version = 1; status = ready }

abbrev second : ShardInfo
second = record { id = 2; role = leader; version = 1; status = ready }

same : sort_compare (first ∷ second ∷ []) (second ∷ first ∷ []) ≡ true
unfolding sort_compare same_ids
same = refl

simple_compare_iff_example : (simple_compare (first ∷ first ∷ []) (first ∷ second ∷ []) ≡ true) ↔ (
    (length (first ∷ first ∷ []) ≡ length (first ∷ second ∷ []))
    × ((u : ℕ) → elem u (1 ∷ 1 ∷ []) ≡ true → elem u (1 ∷ 2 ∷ []) ≡ true))
simple_compare_iff_example = simple_compare_iff (first ∷ first ∷ []) (first ∷ second ∷ [])
