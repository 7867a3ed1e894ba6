-- ===== src/Topology/Tests.antt =====
-- The properties of the topology manager on a storage in memory with one cluster and one shard.
use ceresmeta.Storage.{
  stable, ShardNode, leader, ClusterView, Table, ShardView, Storage, HasClusterVersion,
  new_shard_view, new_cluster_view,
}
use ceresmeta.Storage.Memory.{Mem, memory_storage, memory_storage_laws}
use ceresmeta.Topology.{TopologyManagerImpl, or_nil}
use ceresmeta.Topology.Update.{
  add_table, remove_table, update_cluster_view, update_cluster_view_with_lock, load_cluster_view,
  drop_shard_nodes, contains,
}
use ceresmeta.Topology.Removal.{has_other}
use ceresmeta.Topology.Tables.{add_table_ok, remove_table_ok, remove_table_keeps}
use ceresmeta.Topology.Nodes.{update_cluster_view_ok, drop_shard_nodes_ok, nodes_of_shard}
use ceresmeta.Common.{
  if◌then◌else◌, u64, ◌==◌, nat_eq, elem, lookup, ok, err, ℕ, ◌+◌, ◌≡◌, refl, ◌&&◌, not, none, some,
  [], ◌∷◌, ◌++◌, shard_not_found, text_eq,
}

abbrev node_a : ShardNode
node_a = record { id = 5; shard_role = leader; node_name = b'a' ∷ [] }

abbrev node_b : ShardNode
node_b = record { id = 6; shard_role = leader; node_name = b'b' ∷ [] }

abbrev view : ClusterView
view = record {
  cluster_id = 1;
  version = 3;
  state = stable;
  shard_nodes = node_a ∷ node_b ∷ [];
  created_at = 0;
}

abbrev shard : ShardView
shard = record { shard_id = 5; version = 7; table_ids = 1 ∷ 2 ∷ []; created_at = 0 }

abbrev stored : Mem
stored = record { cluster = λ c. some view; shard = λ c k. some shard; shard_list = shard ∷ [] }

abbrev manager : TopologyManagerImpl
manager = record {
  cluster_id = 1;
  cluster_view = some view;
  shard_nodes_mapping = (5, node_a ∷ []) ∷ (6, node_b ∷ []) ∷ [];
  node_shards_mapping = (b'a' ∷ [], node_a ∷ []) ∷ (b'b' ∷ [], node_b ∷ []) ∷ [];
  shard_tables_mapping = (5, shard) ∷ [];
  table_shard_mapping = (1, 5 ∷ []) ∷ (2, 5 ∷ []) ∷ [];
  nodes = [];
}

abbrev table : Table
table = record { id = 3; name = b't' ∷ []; schema_id = 1; created_at = 0; partition_info = none }

abbrev s : Storage
s = memory_storage

add_table_runs : (add_table s 9 5 8 (table ∷ []) (manager, stored)).0 ≡ ok tt
unfolding add_table lookup
add_table_runs = refl

add_table_ok_example :
    (v : ShardView) × (lookup 5 manager.shard_tables_mapping ≡ some v)
    × (let v' = new_shard_view 9 5 8 (v.table_ids ++ 3 ∷ []) in
        let (m', t') = (add_table s 9 5 8 (table ∷ []) (manager, stored)).1 in
        (j : ℕ)
        → (lookup j m'.shard_tables_mapping
            ≡ (if 5 == j then some v' else lookup j manager.shard_tables_mapping))
          × (s.shard_view t' 1 j ≡ (if 5 == j then some v' else s.shard_view stored 1 j)))
add_table_ok_example =
    add_table_ok s memory_storage_laws 9 5 8 (table ∷ []) manager stored tt add_table_runs

add_table_fails : (add_table s 9 6 8 (table ∷ []) (manager, stored)).0 ≡ err shard_not_found
unfolding add_table lookup
add_table_fails = refl

shard_found : lookup 5 manager.shard_tables_mapping ≡ some shard
unfolding lookup
shard_found = refl

remove_table_ok_example :
    let w' = remove_table s 9 5 8 (2 ∷ []) (manager, stored) in
    let (m', t') = w'.1 in
    (w'.0 ≡ ok tt)
    × (lookup 5 m'.shard_tables_mapping ≡ some (record shard { version = 8; table_ids = 1 ∷ [] }))
    × (s.shard_view t' 1 5 ≡ some (new_shard_view 9 5 8 (1 ∷ [])))
    × (lookup 2 m'.table_shard_mapping ≡ none)
remove_table_ok_example =
    remove_table_ok s memory_storage_laws 9 5 8 2 manager stored shard shard_found refl tt refl

remove_table_keeps_example :
    (v' : ShardView) × (s.shard_view (remove_table s 9 5 8 (1 ∷ 2 ∷ []) (manager, stored)).1.1 1 5
      ≡ some v')
    × ((u : ℕ) → elem u v'.table_ids ≡ elem u shard.table_ids && has_other u (1 ∷ 2 ∷ []))
remove_table_keeps_example =
    remove_table_keeps s memory_storage_laws 9 5 8 (1 ∷ 2 ∷ []) manager stored shard shard_found
      refl tt refl

update_cluster_view_runs :
    (update_cluster_view s 9 stable (node_a ∷ []) (manager, stored)).0 ≡ ok tt
unfolding update_cluster_view update_cluster_view_with_lock load_cluster_view new_cluster_view
update_cluster_view_runs = refl

update_cluster_view_ok_example :
    (v : ClusterView) × (some view ≡ some v)
    × HasClusterVersion (some view) v.version
    × (let v' = new_cluster_view 9 1 (u64 (v.version + 1)) stable (node_a ∷ []) in
        let (m', t') = (update_cluster_view s 9 stable (node_a ∷ []) (manager, stored)).1 in
        (m'.cluster_view ≡ some v')
        × (s.cluster_view t' 1 ≡ some v')
        × ((k : ℕ) → or_nil (lookup k m'.shard_nodes_mapping) ≡ nodes_of_shard k (node_a ∷ [])))
update_cluster_view_ok_example =
    update_cluster_view_ok s memory_storage_laws 9 stable (node_a ∷ []) manager stored tt
      update_cluster_view_runs

drop_shard_nodes_runs : (drop_shard_nodes s 9 (node_b ∷ []) (manager, stored)).0 ≡ ok tt
unfolding drop_shard_nodes update_cluster_view_with_lock load_cluster_view new_cluster_view
drop_shard_nodes_runs = refl

drop_shard_nodes_ok_example :
    (v' : ClusterView) × (s.cluster_view
        (drop_shard_nodes s 9 (node_b ∷ []) (manager, stored)).1.1
        1
      ≡ some v')
    × (v'.state ≡ stable)
    × ((n : ShardNode)
        → contains v'.shard_nodes n
          ≡ (not (contains (node_b ∷ []) n) && contains (node_a ∷ node_b ∷ []) n))
drop_shard_nodes_ok_example =
    drop_shard_nodes_ok s memory_storage_laws 9 (node_b ∷ []) manager stored view tt refl
      drop_shard_nodes_runs
