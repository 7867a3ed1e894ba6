-- ===== src/Topology.antt =====
-- server/cluster/metadata/topology_manager.go: the mapping between shards, nodes and tables, kept in
-- memory beside the storage. Each method holds the lock from its first line to its last.
pub mod Update
pub mod Removal
pub mod Tables
pub mod Nodes
mod Tests
use ceresmeta.Storage.{
  ClusterState, empty, stable, prepare, ShardNode, ClusterView, new_cluster_view, Table, ShardView,
  new_shard_view, Node, Storage,
}
use ceresmeta.Common.{
  Eq, ◌==◌, nat_eq, length, Map, lookup, insert, Result, ok, err, ℕ, Bool, true, false, ◌&&◌,
  Option, none, some, List, [], ◌∷◌, ◌++◌, map, shard_not_found, Bytes, text_eq, panicked,
}

pub record ShardTableIds : Type 0 where
  pub table_ids : List ℕ
  pub version : ℕ

pub record CreateShardView : Type 0 where
  pub shard_id : ℕ
  pub tables : List ℕ

pub record Topology : Type 0 where
  pub shard_views_mapping : Map ℕ ShardView
  pub cluster_view : ClusterView

abbrev pub is_state_stable : ClusterState → Bool
is_state_stable stable = true
is_state_stable _ = false

abbrev is_state_prepare : ClusterState → Bool
is_state_prepare prepare = true
is_state_prepare _ = false

unfoldable pub is_stable : Topology → Bool
is_stable t =
    is_state_stable t.cluster_view.state
    && length t.cluster_view.shard_nodes == length t.shard_views_mapping

unfoldable pub is_prepare_finished : Topology → Bool
is_prepare_finished t =
    is_state_prepare t.cluster_view.state
    && length t.shard_views_mapping == length t.cluster_view.shard_nodes

-- The views are nil until they are loaded.
pub record TopologyManagerImpl : Type 0 where
  pub cluster_id : ℕ
  pub cluster_view : Option ClusterView
  pub shard_nodes_mapping : Map ℕ (List ShardNode)
  pub node_shards_mapping : Map Bytes (List ShardNode)
  pub shard_tables_mapping : Map ℕ ShardView
  pub table_shard_mapping : Map ℕ (List ℕ)
  pub nodes : Map Bytes Node

abbrev T : Type 0
T = TopologyManagerImpl

unfoldable pub new_topology_manager_impl : ℕ → T
new_topology_manager_impl id = record {
  cluster_id = id;
  cluster_view = none;
  shard_nodes_mapping = [];
  node_shards_mapping = [];
  shard_tables_mapping = [];
  table_shard_mapping = [];
  nodes = [];
}

abbrev pub or_nil {ℓ} : {A : Type ℓ} → Option (List A) → List A
or_nil none = []
or_nil (some l) = l

-- `m[k] = append(m[k], v)`
abbrev pub append_at {ℓ κ} :
    {K : Type ℓ} {V : Type κ} ⦃e : Eq K⦄ → K → V → Map K (List V) → Map K (List V)
append_at k v m = insert k (or_nil (lookup k m) ++ v ∷ []) m

-- The loop of `loadClusterView`.
pub map_shard_nodes : List ShardNode → T → T
unfolding lookup insert
map_shard_nodes [] m = m
map_shard_nodes (n ∷ ns) m = map_shard_nodes ns (record m {
  shard_nodes_mapping = append_at n.id n m.shard_nodes_mapping;
  node_shards_mapping = append_at n.node_name n m.node_shards_mapping;
})

-- The inner loop of `loadShardViews`, and that of `AddTable`.
pub map_tables : ℕ → List ℕ → Map ℕ (List ℕ) → Map ℕ (List ℕ)
unfolding lookup insert
map_tables shard [] m = m
map_tables shard (t ∷ ts) m = map_tables shard ts (append_at t shard m)

pub map_shard_views : List ShardView → T → T
unfolding insert map_tables
map_shard_views [] m = m
map_shard_views (v ∷ vs) m = map_shard_views vs (record m {
  shard_tables_mapping = insert v.shard_id v m.shard_tables_mapping;
  table_shard_mapping = map_tables v.shard_id v.table_ids m.table_shard_mapping;
})

pub map_nodes : List Node → Map Bytes Node → Map Bytes Node
unfolding insert
map_nodes [] m = m
map_nodes (n ∷ ns) m = map_nodes ns (insert n.name n m)

-- The memory after a load of the cluster view.
pub set_cluster_view : ClusterView → T → T
unfolding map_shard_nodes
set_cluster_view v m =
    record (map_shard_nodes v.shard_nodes
      (record m { shard_nodes_mapping = []; node_shards_mapping = [] })) { cluster_view = some v }

-- The memory after a load of the shard views.
pub set_shard_views : List ShardView → T → T
unfolding map_shard_views
set_shard_views vs m =
    map_shard_views vs (record m { shard_tables_mapping = []; table_shard_mapping = [] })

-- `GetShardNodesByID`
unfoldable pub get_shard_nodes_by_id : ℕ → T → Result (List ShardNode)
get_shard_nodes_by_id id m = elim (lookup id m.shard_nodes_mapping) [
  | none ↦ err shard_not_found
  | some ns ↦ ok ns
]

-- A shard that is not there is a nil dereference.
pub get_table_ids : List ℕ → T → Result (Map ℕ ShardTableIds)
get_table_ids [] m = ok []
get_table_ids (k ∷ ks) m = elim (lookup k m.shard_tables_mapping) [
  | none ↦ err panicked
  | some v ↦ elim (get_table_ids ks m) [
    | err e ↦ err e
    | ok rest ↦ ok (insert k (record { table_ids = v.table_ids; version = v.version }) rest)
  ]
]

unfoldable pub get_shards : T → List ℕ
get_shards m = map (λ e. e.1.shard_id) m.shard_tables_mapping

pub record GetShardNodesResult : Type 0 where
  pub shard_nodes : List ShardNode
  pub versions : Map ℕ ℕ

flatten_nodes : Map ℕ (List ShardNode) → List ShardNode
flatten_nodes [] = []
flatten_nodes ((k, ns) ∷ m) = ns ++ flatten_nodes m

pub get_shard_nodes : T → GetShardNodesResult
unfolding flatten_nodes
get_shard_nodes m = record {
  shard_nodes = flatten_nodes m.shard_nodes_mapping;
  versions = map (λ e. (e.0, e.1.version)) m.shard_tables_mapping;
}

pub record GetShardNodesByTableIdsResult : Type 0 where
  pub shard_nodes : Map ℕ (List ShardNode)
  pub version : Map ℕ ℕ

abbrev R : Type 0
R = GetShardNodesByTableIdsResult

-- The first version seen of a shard is kept.
add_version : ℕ → ShardView → Map ℕ ℕ → Map ℕ ℕ
add_version k v vs = elim (lookup k vs) [ none ↦ insert k v.version vs | some _ ↦ vs ]

-- The loop over the shards of a table; a shard without a view is a nil dereference.
nodes_of_shards : T → ℕ → List ℕ → R → Result R
unfolding add_version
nodes_of_shards m t [] r = ok r
nodes_of_shards m t (k ∷ ks) r = elim (lookup k m.shard_nodes_mapping) [
  | none ↦ nodes_of_shards m t ks (record r { shard_nodes = insert t [] r.shard_nodes })
  | some ns ↦ elim (lookup k m.shard_tables_mapping) [
    | none ↦ elim (lookup k r.version) [
      | none ↦ err panicked
      | some _ ↦ nodes_of_shards m t ks (record r {
        shard_nodes = insert t (or_nil (lookup t r.shard_nodes) ++ ns) r.shard_nodes;
      })
    ]
    | some v ↦ nodes_of_shards m t ks (record r {
      shard_nodes = insert t (or_nil (lookup t r.shard_nodes) ++ ns) r.shard_nodes;
      version = add_version k v r.version;
    })
  ]
]

nodes_of_tables : T → List ℕ → R → Result R
unfolding nodes_of_shards
nodes_of_tables m [] r = ok r
nodes_of_tables m (t ∷ ts) r = elim (lookup t m.table_shard_mapping) [
  | none ↦ nodes_of_tables m ts (record r { shard_nodes = insert t [] r.shard_nodes })
  | some ks ↦ elim (nodes_of_shards m t ks r) [ err e ↦ err e | ok r' ↦ nodes_of_tables m ts r' ]
]

unfoldable pub get_shard_nodes_by_table_ids : List ℕ → T → Result R
unfolding nodes_of_tables
get_shard_nodes_by_table_ids ts m = nodes_of_tables m ts (record { shard_nodes = []; version = [] })

-- The copy of the views; a cluster view that is not loaded is a nil dereference.
unfoldable pub get_topology : T → Result Topology
get_topology m = elim m.cluster_view [
  | none ↦ err panicked
  | some v ↦ ok (record { shard_views_mapping = m.shard_tables_mapping; cluster_view = v })
]
