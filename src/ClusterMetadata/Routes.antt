-- ===== src/ClusterMetadata/Routes.antt =====
-- server/cluster/metadata/cluster_metadata.go: the answers about shards, tables and nodes together.
use ceresmeta.Storage.{leader, status_unknown, ShardNode, Schema, Table, is_partitioned}
use ceresmeta.Topology.{
  TopologyManagerImpl, ShardTableIds, get_table_ids, get_shard_nodes, get_shard_nodes_by_table_ids,
}
use ceresmeta.TableManager.{TableManagerImpl, get_table, get_tables_by_ids, get_schemas}
use ceresmeta.ClusterMetadata.{ShardInfo}
use ceresmeta.Common.{
  ltb, if◌then◌else◌, nat_eq, length, get_elem?, Map, lookup, insert, Result, ok, err, ℕ, Option,
  none, some, List, [], ◌∷◌, ◌++◌, map, Bytes, text_eq, panicked,
}

pub record TableInfo : Type 0 where
  pub id : ℕ
  pub name : Bytes
  pub schema_id : ℕ
  pub schema_name : Bytes
  pub partition_info : Option Bytes
  pub created_at : ℕ

pub record ShardTables : Type 0 where
  pub shard : ShardInfo
  pub tables : List TableInfo

pub record ShardNodeWithVersion : Type 0 where
  pub shard_info : ShardInfo
  pub shard_node : ShardNode

pub record RouteEntry : Type 0 where
  pub table : TableInfo
  pub node_shards : List ShardNodeWithVersion

pub record RouteTablesResult : Type 0 where
  pub cluster_view_version : ℕ
  pub route_entries : Map Bytes RouteEntry

pub record GetNodeShardsResult : Type 0 where
  pub cluster_topology_version : ℕ
  pub node_shards : List ShardNodeWithVersion

unfoldable pub table_info : Bytes → Table → TableInfo
table_info schema_name t = record {
  id = t.id;
  name = t.name;
  schema_id = t.schema_id;
  schema_name = schema_name;
  partition_info = t.partition_info;
  created_at = t.created_at;
}

-- A reading of a Go map without the key is zero.
abbrev version_of : ℕ → Map ℕ ℕ → ℕ
unfolding lookup
version_of k versions = elim (lookup k versions) [ none ↦ 0 | some n ↦ n ]

unfoldable pub with_version : Map ℕ ℕ → ShardNode → ShardNodeWithVersion
unfolding lookup
with_version versions n = record {
  shard_info = record {
    id = n.id;
    role = n.shard_role;
    version = version_of n.id versions;
    status = status_unknown;
  };
  shard_node = n;
}

-- The version of a cluster view that is not loaded is a nil dereference.
unfoldable pub view_version : TopologyManagerImpl → Result ℕ
view_version m = elim m.cluster_view [ none ↦ err panicked | some v ↦ ok v.version ]

unfoldable pub schemas_by_id : List Schema → Map ℕ Schema → Map ℕ Schema
unfolding insert
schemas_by_id [] m = m
schemas_by_id (s ∷ ss) m = schemas_by_id ss (insert s.id s m)

abbrev schema_name_of : ℕ → Map ℕ Schema → Bytes
unfolding lookup
schema_name_of k m = elim (lookup k m) [ none ↦ [] | some s ↦ s.name ]

unfoldable pub shard_tables_of : TableManagerImpl → Map ℕ Schema → ℕ → ShardTableIds → ShardTables
unfolding table_info lookup
shard_tables_of tm schemas k found = record {
  shard = record { id = k; role = leader; version = found.version; status = status_unknown };
  tables =
      map (λ t. table_info (schema_name_of t.schema_id schemas) t)
        (get_tables_by_ids found.table_ids tm);
}

-- The loop over the shards without an entry.
unfoldable pub add_missing : List ℕ → Map ℕ ShardTables → Map ℕ ShardTables
unfolding lookup insert
add_missing [] m = m
add_missing (k ∷ ks) m =
    let none_found : ShardTables = record {
      shard = record { id = k; role = leader; version = 0; status = status_unknown };
      tables = [];
    } in
    elim (lookup k m) [ some _ ↦ add_missing ks m | none ↦ add_missing ks (insert k none_found m) ]

unfoldable pub get_shard_tables :
    List ℕ → TopologyManagerImpl → TableManagerImpl → Result (Map ℕ ShardTables)
unfolding schemas_by_id shard_tables_of add_missing
get_shard_tables ks m tm =
    let schemas = schemas_by_id (get_schemas tm) [] in
    elim (get_table_ids ks m) [
      | err e ↦ err e
      | ok found ↦ ok (add_missing ks (map (λ e. (e.0, shard_tables_of tm schemas e.0 e.1)) found))
    ]

-- The first loop of `RouteTables`: the entries of the partitioned tables, and the other tables.
pub record Split : Type 0 where
  pub entries : Map Bytes RouteEntry
  pub tables : Map ℕ Table
  pub table_ids : List ℕ

unfoldable pub split_tables : Bytes → TableManagerImpl → List Bytes → Split → Result Split
unfolding table_info insert
split_tables schema_name tm [] s = ok s
split_tables schema_name tm (name ∷ names) s = elim (get_table schema_name name tm) [
  | err e ↦ err e
  | ok none ↦ split_tables schema_name tm names s
  | ok (some t) ↦
      let partitioned = split_tables schema_name tm names (record s {
        entries =
            insert t.name (record { table = table_info schema_name t; node_shards = [] }) s.entries;
      }) in
      let plain =
        split_tables schema_name tm names
          (record s { tables = insert t.id t s.tables; table_ids = s.table_ids ++ t.id ∷ [] }) in
      if is_partitioned t then partitioned else plain
]

abbrev zero_table : Table
zero_table = record { id = 0; name = []; schema_id = 0; created_at = 0; partition_info = none }

abbrev table_of : ℕ → Map ℕ Table → Table
unfolding lookup
table_of k tables = elim (lookup k tables) [ none ↦ zero_table | some t ↦ t ]

-- The random index below a number, for a table, from the reader of random bytes.
module _ (random : ℕ → ℕ → Result ℕ) where
  unfoldable pub select_node : ℕ → List ShardNodeWithVersion → Result (List ShardNodeWithVersion)
  select_node k nodes =
      let one : Result (List ShardNodeWithVersion) = elim (random k (length nodes)) [
        | err e ↦ err e
        | ok i ↦ elim (get_elem? nodes i) [ none ↦ err panicked | some n ↦ ok (n ∷ []) ]
      ] in
      if ltb 1 (length nodes) then one else ok nodes

  unfoldable pub route_loop :
      Bytes
      → Map ℕ Table
      → Map ℕ ℕ
      → List (ℕ × List ShardNode)
      → Map Bytes RouteEntry
      → Result (Map Bytes RouteEntry)
  unfolding with_version select_node table_info insert lookup
  route_loop schema_name tables versions [] entries = ok entries
  route_loop schema_name tables versions ((k, nodes) ∷ rest) entries =
      let t = table_of k tables in
      elim (select_node k (map (with_version versions) nodes)) [
        | err e ↦ err e
        | ok chosen ↦ route_loop schema_name tables versions rest (
            insert t.name (record { table = table_info schema_name t; node_shards = chosen })
              entries)
      ]

  unfoldable pub route_tables :
      Bytes → List Bytes → TopologyManagerImpl → TableManagerImpl → Result RouteTablesResult
  unfolding split_tables route_loop view_version
  route_tables schema_name names m tm =
      elim (split_tables schema_name tm names
        (record { entries = []; tables = []; table_ids = [] })) [
          | err e ↦ err e
          | ok s ↦ elim (get_shard_nodes_by_table_ids s.table_ids m) [
            | err e ↦ err e
            | ok found ↦
                elim (route_loop schema_name s.tables found.version found.shard_nodes s.entries) [
                  | err e ↦ err e
                  | ok entries ↦ elim (view_version m) [
                    | err e ↦ err e
                    | ok n ↦ ok (record { cluster_view_version = n; route_entries = entries })
                  ]
                ]
          ]
        ]

unfoldable pub get_node_shards : TopologyManagerImpl → Result GetNodeShardsResult
unfolding with_version view_version
get_node_shards m =
    let found = get_shard_nodes m in
    elim (view_version m) [
      | err e ↦ err e
      | ok n ↦ ok (record {
        cluster_topology_version = n;
        node_shards = map (with_version found.versions) found.shard_nodes;
      })
    ]
