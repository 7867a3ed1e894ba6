-- ===== src/Procedure/Ddl.antt =====
-- server/coordinator/procedure/ddl/common_util.go: what the procedures on tables share.
-- The requests are messages of horaedbproto: of each, the fields that are read.
use ceresmeta.Storage.{leader, follower, status_unknown, ShardRole, ShardNode, Table, Storage}
use ceresmeta.Topology.{Topology, or_nil, get_shard_nodes_by_id, get_shard_nodes_by_table_ids}
use ceresmeta.TableManager.{IdAllocator}
use ceresmeta.ClusterMetadata.{ShardInfo, ShardVersionUpdate, World, find_table}
use ceresmeta.Procedure.{RelatedVersionInfo}
use ceresmeta.Procedure.Calls.{Dispatch, CreateTableOnShardRequest, DropTableOnShardRequest}
use ceresmeta.Common.{
  if◌then◌else◌, nat_eq, Map, lookup, Error, Result, ok, err, Exec, pure, ◌>>=◌, need, ℕ, Bool,
  true, false, Option, none, some, List, [], ◌∷◌, shard_not_found, Bytes, text_eq,
  shard_leader_not_found, table_not_exists,
}

pub record PartitionTableInfo : Type 0 where
  pub partition_info : Option Bytes
  pub sub_table_names : List Bytes

pub record CreateTableReq : Type 0 where
  pub schema_name : Bytes
  pub name : Bytes
  pub encoded_schema : Bytes
  pub engine : Bytes
  pub create_if_not_exist : Bool
  pub options : Map Bytes Bytes
  pub partition_table_info : Option PartitionTableInfo

pub record DropTableReq : Type 0 where
  pub schema_name : Bytes
  pub name : Bytes
  pub partition_table_info : Option PartitionTableInfo

-- The getters of a message that may be nil.
abbrev pub get_partition_info : Option PartitionTableInfo → Option Bytes
get_partition_info none = none
get_partition_info (some i) = i.partition_info

abbrev pub get_sub_table_names : Option PartitionTableInfo → List Bytes
get_sub_table_names none = []
get_sub_table_names (some i) = i.sub_table_names

-- What the one who submits a procedure is told.
pub record Observer (A : Type 0) : Type 1 where
  pub State : Type 0
  pub on_succeeded : A → State → Result (Unit {0}) × State
  pub on_failed : Option Error → State → Result (Unit {0}) × State

abbrev pub is_leader : ShardRole → Bool
is_leader leader = true
is_leader follower = false

-- The loops that look for the leader of a shard.
unfoldable pub find_leader : List ShardNode → Option ShardNode
find_leader [] = none
find_leader (n ∷ ns) = let rest = find_leader ns in if is_leader n.shard_role then some n else rest

abbrev pub leader_info : ShardVersionUpdate → ShardInfo
leader_info u = record {
  id = u.shard_id;
  role = leader;
  version = u.latest_version;
  status = status_unknown;
}

unfoldable pub build_create_table_request :
    Table → ShardVersionUpdate → CreateTableReq → CreateTableOnShardRequest
build_create_table_request t u r = record {
  curr_shard_info = leader_info u;
  table_info = record {
    id = t.id;
    name = t.name;
    schema_id = t.schema_id;
    schema_name = r.schema_name;
    partition_info = t.partition_info;
    created_at = t.created_at;
  };
  encoded_schema = r.encoded_schema;
  engine = r.engine;
  create_if_not_exist = r.create_if_not_exist;
  options = r.options;
}

-- `buildRelatedVersionInfo` of one shard.
unfoldable pub build_related_version_info : Topology → ℕ → Result RelatedVersionInfo
build_related_version_info t k = elim (lookup k t.shard_views_mapping) [
  | none ↦ err shard_not_found
  | some v ↦ ok (record {
    cluster_id = t.cluster_view.cluster_id;
    shard_with_version = (k, v.version) ∷ [];
    cluster_version = t.cluster_view.version;
  })
]

-- `m[k]` of a map to numbers.
abbrev pub or_zero : Option ℕ → ℕ
or_zero none = 0
or_zero (some v) = v

abbrev pub zero_update : ShardVersionUpdate
zero_update = record { shard_id = 0; latest_version = 0 }

module _ (s : Storage) (sa ta : IdAllocator) (d : Dispatch) where
  -- The metadata of the cluster and the nodes.
  abbrev pub Both : Type 0
  Both = World s sa ta × d.State

  abbrev pub on_cluster : {A : Type 0} → Exec (World s sa ta) A → Exec Both A
  on_cluster f (w, n) = let (r, w') = f w in (r, (w', n))

  abbrev pub on_nodes : {A : Type 0} → Exec d.State A → Exec Both A
  on_nodes f (w, n) = let (r, n') = f n in (r, (w, n'))

  abbrev pub shard_nodes_of : ℕ → Exec Both (List ShardNode)
  shard_nodes_of k (w, n) = (get_shard_nodes_by_id k w.1.0, (w, n))

  unfoldable pub create_table_on_shard : ℕ → CreateTableOnShardRequest → Exec Both ℕ
  create_table_on_shard k r = do
    ns ← shard_nodes_of k
    n ← need shard_leader_not_found (find_leader ns)
    on_nodes (d.create_table_on_shard n.node_name r)

  unfoldable pub get_table_metadata : Bytes → Bytes → Exec Both Table
  get_table_metadata schema_name name = do
    found ← on_cluster (find_table s sa ta schema_name name)
    need table_not_exists found

  -- The mark tells whether the table has a shard with a leader.
  unfoldable pub build_shard_version_update :
      Table → Map ℕ ℕ → Exec Both (ShardVersionUpdate × Bool)
  build_shard_version_update t versions (w, n) =
      elim (get_shard_nodes_by_table_ids (t.id ∷ []) w.1.0) [
        | err x ↦ (err x, (w, n))
        | ok r ↦ elim (find_leader (or_nil (lookup t.id r.shard_nodes))) [
          | none ↦ (ok (zero_update, false), (w, n))
          | some l ↦ elim (lookup l.id versions) [
            | none ↦ (err shard_not_found, (w, n))
            | some v ↦ (ok (record { shard_id = l.id; latest_version = v }, true), (w, n))
          ]
        ]
      ]

  -- The loop over the nodes of the shard.
  unfoldable pub drop_on_nodes : DropTableOnShardRequest → List ShardNode → ℕ → Exec Both ℕ
  drop_on_nodes r [] latest = pure latest
  drop_on_nodes r (n ∷ ns) latest = do
    v ← on_nodes (d.drop_table_on_shard n.node_name r)
    drop_on_nodes r ns v

  unfoldable pub drop_table_on_shard : Bytes → Table → ShardVersionUpdate → Exec Both ℕ
  unfolding drop_on_nodes
  drop_table_on_shard schema_name t u = do
    ns ← shard_nodes_of u.shard_id
    drop_on_nodes
        (record {
          curr_shard_info = leader_info u;
          table_info = record {
            id = t.id;
            name = t.name;
            schema_id = t.schema_id;
            schema_name = schema_name;
            partition_info = none;
            created_at = 0;
          };
        })
        ns 0
