-- ===== src/Storage/Impl.antt =====
-- server/storage/storage_impl.go: the storage over etcd. A message is converted and marshalled by a
-- codec, whose `none` is the error of the protobuf library.
pub mod Views
pub mod ClusterViews
pub mod Reads
pub mod Refine
pub mod Laws
pub mod Runs
pub mod Batches
mod Tests
use ceresmeta.Etcd.{Etcd, Cmp, key_missing, key_exists, value_equals, Op, put, del}
use ceresmeta.EtcdUtil.{get_value, list_keys, scan}
use ceresmeta.Storage.{Cluster, ClusterView, Schema, Table, ShardView, Node}
use ceresmeta.Storage.KeyPath.{
  fmt_id, latest_version, make_schema_key, make_cluster_key, make_cluster_view_latest_version_key,
  make_cluster_view_key, make_shard_view_version_key, make_shard_view_latest_version_key,
  decode_shard_view_version_key, make_shard_view_key, make_node_key, make_table_key,
  make_name_to_id_key,
}
use ceresmeta.Common.{
  ltb, leb, if◌then◌else◌, ◌==◌, nat_eq, length, take, drop, Error, Result, ok, err, Exec, pure,
  raise, continue, ◌>>=◌, ◌>>◌, need, ℕ, zero, suc, ◌+◌, ◌-◌, ◌*◌, ◌^◌, Bool, ◌&&◌, Option, none,
  some, List, [], ◌∷◌, ◌++◌, view_conflict, already_exists, storage_not_found, Bytes, text_eq,
  panicked, encode_failed, decode_failed, parse_failed, delete_again, update_cluster_failed,
  out_of_fuel,
}

pub record Codec (A : Type 0) : Type 0 where
  pub marshal : A → Option Bytes
  pub unmarshal : Bytes → Option A

-- The parts of `metaStorageImpl`: the codecs, `rootPath`, and the options. The rounds are those of a
-- scan after its first batch.
pub record MetaStorageImpl : Type 0 where
  pub cluster : Codec Cluster
  pub cluster_view : Codec ClusterView
  pub schema : Codec Schema
  pub table : Codec Table
  pub shard_view : Codec ShardView
  pub node : Codec Node
  pub root_path : Bytes
  pub max_scan_limit : ℕ
  pub max_ops_per_txn : ℕ
  pub scan_rounds : ℕ

-- `strconv.ParseUint(value, 10, bits)`
abbrev pub parse_digits : ℕ → ℕ → Bytes → Option ℕ
parse_digits limit n [] = some n
parse_digits limit n (c ∷ cs) =
    let rest = parse_digits limit (n * 10 + (c - b'0')) cs in
    if leb b'0' c && leb c b'9' && ltb (n * 10 + (c - b'0')) limit then rest else none

unfoldable pub parse_uint : ℕ → Bytes → Option ℕ
parse_uint limit [] = none
parse_uint limit (c ∷ cs) = parse_digits limit 0 (c ∷ cs)

abbrev has_suffix : Bytes → Bytes → Bool
has_suffix s t = leb (length t) (length s) && drop (length s - length t) s == t

-- The highest ids of 32 and 64 bits.
abbrev max_u32 : ℕ
max_u32 = 2 ^ 32 - 1

abbrev max_u64 : ℕ
max_u64 = 2 ^ 64 - 1

module _ (e : Etcd) (m : MetaStorageImpl) where
  abbrev pub Action : Type 0 → Type 0
  Action A = Exec e.State A

  -- A transaction, and the error when its conditions do not hold.
  abbrev pub commit : Error → List Cmp → List Op → Action (Unit {0})
  commit x cs os = do done ← e.txn cs os; if done then pure tt else raise x

  abbrev scan_all : {A : Type 0} → Codec A → Bytes → Bytes → Action (List A)
  scan_all c start_key end_key =
      scan e.get_range (λ k v. c.unmarshal v) end_key m.max_scan_limit m.scan_rounds start_key

  unfoldable pub get_cluster : ℕ → Action Cluster
  unfolding get_value
  get_cluster c = do
    v ← get_value e (make_cluster_key m.root_path c)
    need decode_failed (m.cluster.unmarshal v)

  unfoldable pub list_clusters : Action (List Cluster)
  unfolding scan
  list_clusters =
      scan_all m.cluster (make_cluster_key m.root_path 0) (make_cluster_key m.root_path max_u32)

  unfoldable pub create_cluster : Cluster → Action (Unit {0})
  create_cluster c = do
    v ← need encode_failed (m.cluster.marshal c)
    let key = make_cluster_key m.root_path c.id
    commit already_exists (key_missing key ∷ []) (put key v ∷ [])

  unfoldable pub update_cluster : Cluster → Action (Unit {0})
  update_cluster c = do
    v ← need encode_failed (m.cluster.marshal c)
    let key = make_cluster_key m.root_path c.id
    commit update_cluster_failed (key_exists key ∷ []) (put key v ∷ [])

  unfoldable pub create_cluster_view : ClusterView → Action (Unit {0})
  create_cluster_view view = do
    v ← need encode_failed (m.cluster_view.marshal view)
    let key = make_cluster_view_key m.root_path view.cluster_id (fmt_id view.version)
    let latest = make_cluster_view_latest_version_key m.root_path view.cluster_id
    commit already_exists (key_missing latest ∷ key_missing key ∷ [])
        (put key v ∷ put latest (fmt_id view.version) ∷ [])

  unfoldable pub get_cluster_view : ℕ → Action ClusterView
  unfolding get_value
  get_cluster_view c = do
    version ← get_value e (make_cluster_view_latest_version_key m.root_path c)
    v ← get_value e (make_cluster_view_key m.root_path c version)
    need decode_failed (m.cluster_view.unmarshal v)

  unfoldable pub update_cluster_view : ℕ → ClusterView → ℕ → Action (Unit {0})
  update_cluster_view c view previous = do
    v ← need encode_failed (m.cluster_view.marshal view)
    let key = make_cluster_view_key m.root_path c (fmt_id view.version)
    let latest = make_cluster_view_latest_version_key m.root_path c
    commit view_conflict (value_equals latest (fmt_id previous) ∷ [])
        (put key v ∷ put latest (fmt_id view.version) ∷ [])

  unfoldable pub list_schemas : ℕ → Action (List Schema)
  unfolding scan
  list_schemas c =
      scan_all m.schema (make_schema_key m.root_path c 0) (make_schema_key m.root_path c max_u32)

  unfoldable pub create_schema : ℕ → Schema → Action (Unit {0})
  create_schema c schema = do
    v ← need decode_failed (m.schema.marshal schema)
    let key = make_schema_key m.root_path c schema.id
    commit already_exists (key_missing key ∷ []) (put key v ∷ [])

  unfoldable pub create_table : ℕ → ℕ → Table → Action (Unit {0})
  create_table c s table = do
    v ← need encode_failed (m.table.marshal table)
    let key = make_table_key m.root_path c s table.id
    let name_key = make_name_to_id_key m.root_path c s table.name
    commit already_exists (key_missing name_key ∷ key_missing key ∷ [])
        (put key v ∷ put name_key (fmt_id table.id) ∷ [])

  -- A name that is not found is no error.
  abbrev or_absent : Result Bytes → Result (Option Bytes)
  or_absent (ok v) = ok (some v)
  or_absent (err storage_not_found) = ok none
  or_absent (err x) = err x

  abbrev table_by_id : ℕ → ℕ → Option Bytes → Action (Option Table)
  table_by_id c s none t = (ok none, t)
  table_by_id c s (some v) t =
      (do
        id ← need parse_failed (parse_uint (2 ^ 64) v)
        value ← get_value e (make_table_key m.root_path c s id)
        table ← need decode_failed (m.table.unmarshal value)
        pure (some table))
        t

  unfoldable pub get_table : ℕ → ℕ → Bytes → Action (Option Table)
  unfolding get_value parse_uint
  get_table c s name t =
      let (r, t') = get_value e (make_name_to_id_key m.root_path c s name) t in
      continue (or_absent r) (table_by_id c s) t'

  unfoldable pub list_tables : ℕ → ℕ → Action (List Table)
  unfolding scan
  list_tables c s =
      scan_all m.table (make_table_key m.root_path c s 0) (make_table_key m.root_path c s max_u64)

  unfoldable pub delete_table : ℕ → ℕ → Bytes → Action (Unit {0})
  unfolding get_value parse_uint
  delete_table c s name = do
    let name_key = make_name_to_id_key m.root_path c s name
    v ← get_value e name_key
    id ← need parse_failed (parse_uint (2 ^ 64) v)
    let key = make_table_key m.root_path c s id
    commit delete_again (key_exists name_key ∷ key_exists key ∷ []) (del name_key ∷ del key ∷ [])

  -- The loop of `createNShardViews`: the conditions and the operations.
  unfoldable pub shard_view_ops : ℕ → List ShardView → Option (List Cmp × List Op)
  shard_view_ops c [] = some ([], [])
  shard_view_ops c (view ∷ views) = elim (m.shard_view.marshal view) [
    | none ↦ none
    | some v ↦ elim (shard_view_ops c views) [
      | none ↦ none
      | some (cs, os) ↦
          let key = make_shard_view_key m.root_path c view.shard_id (fmt_id view.version) in
          let latest = make_shard_view_latest_version_key m.root_path c view.shard_id in
          some (
            key_missing key ∷ key_missing latest ∷ cs,
            put key v ∷ put latest (fmt_id view.version) ∷ os,
          )
    ]
  ]

  unfoldable pub create_n_shard_views : ℕ → List ShardView → Action (Unit {0})
  unfolding shard_view_ops
  create_n_shard_views c views = do
    ops ← need encode_failed (shard_view_ops c views)
    commit already_exists ops.0 ops.1

  -- The loop over the batches, with as many rounds as there are views.
  unfoldable pub create_batches : ℕ → ℕ → List ShardView → Action (Unit {0})
  unfolding create_n_shard_views
  create_batches rounds c [] = pure tt
  create_batches zero c (view ∷ views) = raise out_of_fuel
  create_batches (suc rounds) c (view ∷ views) = do
    create_n_shard_views c (take m.max_ops_per_txn (view ∷ views))
    create_batches rounds c (drop m.max_ops_per_txn (view ∷ views))

  unfoldable pub create_shard_views : ℕ → List ShardView → Action (Unit {0})
  unfolding create_batches
  create_shard_views c views = create_batches (length views) c views

  unfoldable pub read_shard_view : ℕ → Bytes → Action ShardView
  unfolding get_value parse_uint
  read_shard_view c key = do
    name ← need panicked (decode_shard_view_version_key key)
    k ← need parse_failed (parse_uint (2 ^ 32) name)
    version ← get_value e key
    v ← get_value e (make_shard_view_key m.root_path c k version)
    need decode_failed (m.shard_view.unmarshal v)

  unfoldable pub read_shard_views : ℕ → List Bytes → List ShardView → Action (List ShardView)
  unfolding read_shard_view
  read_shard_views c [] views = pure views
  read_shard_views c (key ∷ keys) views =
      let skipped = read_shard_views c keys views in
      let found : Action (List ShardView) = do
        view ← read_shard_view c key
        read_shard_views c keys (views ++ view ∷ [])
      in if has_suffix key latest_version then found else skipped

  unfoldable pub list_shard_views : ℕ → Action (List ShardView)
  unfolding list_keys read_shard_views
  list_shard_views c = do
    keys ← list_keys e (make_shard_view_version_key m.root_path c)
    read_shard_views c keys []

  -- The removal of the view before, whose error is logged only.
  abbrev pub remove_expired : ℕ → ShardView → ℕ → Action (Unit {0})
  remove_expired c view previous t = if previous == view.version then (ok tt, t) else (
    ok tt,
    (e.exec (del (make_shard_view_key m.root_path c view.shard_id (fmt_id previous))) t).1,
  )

  -- The transaction has no condition.
  unfoldable pub update_shard_view : ℕ → ShardView → ℕ → Action (Unit {0})
  update_shard_view c view previous = do
    v ← need encode_failed (m.shard_view.marshal view)
    let key = make_shard_view_key m.root_path c view.shard_id (fmt_id view.version)
    let latest = make_shard_view_latest_version_key m.root_path c view.shard_id
    commit view_conflict [] (put latest (fmt_id view.version) ∷ put key v ∷ [])
    remove_expired c view previous

  unfoldable pub list_nodes : ℕ → Action (List Node)
  unfolding scan
  list_nodes c =
      scan_all m.node (make_node_key m.root_path c (0 ∷ []))
        (make_node_key m.root_path c (255 ∷ []))

  unfoldable pub create_or_update_node : ℕ → Node → Action (Unit {0})
  create_or_update_node c node = do
    v ← need encode_failed (m.node.marshal node)
    e.exec (put (make_node_key m.root_path c node.name) v)
