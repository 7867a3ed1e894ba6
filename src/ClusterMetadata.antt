-- ===== src/ClusterMetadata.antt =====
-- server/cluster/metadata/cluster_metadata.go: the operations on tables that go through the table
-- manager and the topology manager of a cluster, and the comparison of a node's shards at a heartbeat.
-- server/cluster/metadata/types.go: the shards that a node registers.
pub mod Routes
pub mod Tables
pub mod Parts
pub mod Drops
pub mod Compare
pub mod Memory
pub mod Nodes
mod Tests
use ceresmeta.Storage.{stable, ClusterState, ShardRole, ShardStatus, Node, Table, Schema, Storage}
use ceresmeta.Topology.{TopologyManagerImpl, is_state_stable, get_topology}
use ceresmeta.Topology.Update as Topo
use ceresmeta.TableManager.{IdAllocator, TableManagerImpl, get_table}
use ceresmeta.TableManager as Manager
use ceresmeta.Common.{
  ltb, leb, if◌then◌else◌, ◌==◌, nat_eq, length, elem, sort, Map, lookup, ok, err, Exec, pure,
  ◌>>=◌, ◌>>◌, need, ℕ, ◌+◌, Bool, true, false, ◌&&◌, not, Option, none, some, List, [], ◌∷◌, map,
  table_not_found, table_already_exists, cluster_state_invalid, Bytes, text_eq, panicked,
}

pub record ShardInfo : Type 0 where
  pub id : ℕ
  pub role : ShardRole
  pub version : ℕ
  pub status : ShardStatus

pub record RegisteredNode : Type 0 where
  pub node : Node
  pub shard_infos : List ShardInfo

-- Times in milliseconds; the threshold is ten seconds.
unfoldable pub is_expired : ℕ → RegisteredNode → Bool
is_expired now n = ltb (n.node.last_touch_time + 10000) now

abbrev pub shard_ids : List ShardInfo → List ℕ
shard_ids infos = map (λ i. i.id) infos

-- The last loop of `sortCompare`; both slices have one length.
unfoldable pub same_ids : List ℕ → List ℕ → Bool
same_ids [] olds = true
same_ids (c ∷ cs) [] = true
same_ids (c ∷ cs) (o ∷ os) = (c == o) && same_ids cs os

unfoldable pub sort_compare : List ShardInfo → List ShardInfo → Bool
unfolding same_ids
sort_compare olds news =
    if length olds == length news
    then same_ids (sort (shard_ids news)) (sort (shard_ids olds))
    else false

-- The loops of `simpleCompare`.
unfoldable pub all_in : List ℕ → List ℕ → Bool
all_in [] news = true
all_in (o ∷ os) news = if elem o news then all_in os news else false

unfoldable pub simple_compare : List ShardInfo → List ShardInfo → Bool
unfolding all_in
simple_compare olds news =
    if length olds == length news then all_in (shard_ids olds) (shard_ids news) else false

unfoldable pub need_update : RegisteredNode → RegisteredNode → Bool
unfolding sort_compare simple_compare
need_update old node =
    if leb 50 (length old.shard_infos)
    then not (sort_compare old.shard_infos node.shard_infos)
    else not (simple_compare old.shard_infos node.shard_infos)

pub record DropTableRequest : Type 0 where
  pub schema_name : Bytes
  pub table_name : Bytes
  pub shard_id : ℕ
  pub latest_version : ℕ

pub record CreateTableRequest : Type 0 where
  pub shard_id : ℕ
  pub latest_version : ℕ
  pub schema_name : Bytes
  pub table_name : Bytes
  pub partition_info : Option Bytes

pub record ShardVersionUpdate : Type 0 where
  pub shard_id : ℕ
  pub latest_version : ℕ

pub record MigrateTableRequest : Type 0 where
  pub schema_name : Bytes
  pub table_names : List Bytes
  pub old_shard_id : ℕ
  pub latest_old_shard_version : ℕ
  pub new_shard_id : ℕ
  pub latest_new_shard_version : ℕ

abbrev is_absent : Option Table → Option (Unit {0})
is_absent none = some tt
is_absent (some t) = none

abbrev when_true : Bool → Option (Unit {0})
when_true true = some tt
when_true false = none

module _ (s : Storage) (schema_alloc table_alloc : IdAllocator) where
  -- The two managers share the storage.
  abbrev pub World : Type 0
  World =
      TableManagerImpl
      × (TopologyManagerImpl × (s.State × (schema_alloc.State × table_alloc.State)))

  abbrev pub Action : Type 0 → Type 0
  Action A = Exec World A

  abbrev pub on_tables : {A : Type 0} → Manager.Action s schema_alloc table_alloc A → Action A
  on_tables f (m, (p, w)) = let (r, (m', w')) = f (m, w) in (r, (m', (p, w')))

  abbrev pub on_topology : {A : Type 0} → Topo.Action s A → Action A
  on_topology f (m, (p, (t, x))) = let (r, (p', t')) = f (p, t) in (r, (m, (p', (t', x))))

  -- A cluster view that is not loaded is a nil dereference.
  abbrev pub ensure_cluster_stable : Action (Unit {0})
  ensure_cluster_stable (m, (p, w)) = elim p.cluster_view [
    | none ↦ (err panicked, (m, (p, w)))
    | some v ↦ need cluster_state_invalid (when_true (is_state_stable v.state)) (m, (p, w))
  ]

  abbrev pub find_table : Bytes → Bytes → Action (Option Table)
  find_table schema_name name (m, w) = (get_table schema_name name m, (m, w))

  unfoldable pub drop_table_metadata : Bytes → Bytes → Action Table
  drop_table_metadata schema_name name = do
    ensure_cluster_stable
    found ← find_table schema_name name
    t ← need table_not_found found
    on_tables (Manager.drop_table s schema_alloc table_alloc schema_name name)
    pure t

  unfoldable pub drop_table : ℕ → DropTableRequest → Action (Unit {0})
  drop_table now r = do
    ensure_cluster_stable
    found ← find_table r.schema_name r.table_name
    t ← need table_not_found found
    on_tables (Manager.drop_table s schema_alloc table_alloc r.schema_name r.table_name)
    on_topology (Topo.remove_table s now r.shard_id r.latest_version (t.id ∷ []))

  unfoldable pub create_table_metadata : ℕ → Bytes → Bytes → Option Bytes → Action Table
  create_table_metadata now schema_name name info = do
    ensure_cluster_stable
    found ← find_table schema_name name
    need table_already_exists (is_absent found)
    on_tables (Manager.create_table s schema_alloc table_alloc now schema_name name info)

  unfoldable pub add_table_topology : ℕ → ShardVersionUpdate → Table → Action (Unit {0})
  add_table_topology now u t = do
    ensure_cluster_stable
    on_topology (Topo.add_table s now u.shard_id u.latest_version (t ∷ []))

  unfoldable pub create_table : ℕ → CreateTableRequest → Action (Table × ShardVersionUpdate)
  create_table now r = do
    ensure_cluster_stable
    found ← find_table r.schema_name r.table_name
    need table_already_exists (is_absent found)
    t ← on_tables (
        Manager.create_table s schema_alloc table_alloc now r.schema_name r.table_name
          r.partition_info)
    on_topology (Topo.add_table s now r.shard_id r.latest_version (t ∷ []))
    pure (t, record { shard_id = r.shard_id; latest_version = r.latest_version })

  -- The loop of `MigrateTable` over the names.
  unfoldable pub find_tables : Bytes → List Bytes → Action (List Table)
  find_tables schema_name [] = pure []
  find_tables schema_name (n ∷ ns) = do
    found ← find_table schema_name n
    t ← need table_not_found found
    ts ← find_tables schema_name ns
    pure (t ∷ ts)

  unfoldable pub migrate_table : ℕ → MigrateTableRequest → Action (Unit {0})
  unfolding find_tables
  migrate_table now r = do
    ensure_cluster_stable
    ts ← find_tables r.schema_name r.table_names
    on_topology
        (Topo.remove_table s now r.old_shard_id r.latest_old_shard_version (map (λ t. t.id) ts))
    on_topology (Topo.add_table s now r.new_shard_id r.latest_new_shard_version ts)

  -- The loop of `maybeCorrectShardVersion`, over the views read at its start: an error of an update is
  -- logged only.
  unfoldable pub correct_versions : ℕ → Map ℕ ℕ → List ShardInfo → Action (Unit {0})
  unfolding lookup
  correct_versions now versions [] = pure tt
  correct_versions now versions (i ∷ is) = elim (lookup i.id versions) [
    | none ↦ pure tt
    | some old ↦
        if ltb old i.version
        then (λ w.
            correct_versions now versions is
              (on_topology (Topo.update_shard_version_with_expect s now i.id i.version old) w).1)
        else correct_versions now versions is
  ]

  unfoldable pub maybe_correct_shard_version : ℕ → RegisteredNode → Action (Unit {0})
  unfolding correct_versions get_topology
  maybe_correct_shard_version now n (m, (p, w)) = elim (get_topology p) [
    | err e ↦ (err e, (m, (p, w)))
    | ok t ↦
        correct_versions now (map (λ e. (e.0, e.1.version)) t.shard_views_mapping) n.shard_infos
          (m, (p, w))
  ]
