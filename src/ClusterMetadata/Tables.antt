-- ===== src/ClusterMetadata/Tables.antt =====
-- What the operations on tables of server/cluster/metadata/cluster_metadata.go promise of both managers.
use ceresmeta.Storage.{ClusterView, stable, Table, ShardView, Storage, StorageLaws, new_shard_view}
use ceresmeta.Storage.Paths.{is_name}
use ceresmeta.Topology.{TopologyManagerImpl}
use ceresmeta.Topology.Update as Topo
use ceresmeta.Topology.Tables.{add_table_ok}
use ceresmeta.Topology.Removal.{elem-append}
use ceresmeta.TableManager.{IdAllocator, TableManagerImpl, get_table}
use ceresmeta.TableManager as Manager
use ceresmeta.TableManager.Laws.{create_table_ok, create_table_inv}
use ceresmeta.ClusterMetadata.{CreateTableRequest, ShardVersionUpdate, World, create_table}
use ceresmeta.Common.{
  nat_eq, elem, Error, ok, err, ℕ, ◌≡◌, refl, true, Option, none, some, List, [], ◌∷◌, ◌++◌, arith,
  table_already_exists, Bytes, text_eq,
}

add_table_err :
    (s : Storage) (now k latest : ℕ) (ts : List Table) (p : TopologyManagerImpl) (t : s.State)
    (e : Error)
    → (Topo.add_table s now k latest ts (p, t)).0 ≡ err e
    → (Topo.add_table s now k latest ts (p, t)).1.0 ≡ p
unfolding Topo.add_table
add_table_err s now k latest ts p t e h = ground arith

module _ (s : Storage) (sa ta : IdAllocator) where
  -- The parts of a creation that succeeds.
  create_table_parts :
      (now : ℕ) (r : CreateTableRequest) (w : World s sa ta) (tb : Table) (u : ShardVersionUpdate)
      → (create_table s sa ta now r w).0 ≡ ok (tb, u)
      → let made =
          Manager.create_table s sa ta now r.schema_name r.table_name r.partition_info
            (w.0, (w.1.1.0, w.1.1.1)) in
        let added =
          Topo.add_table s now r.shard_id r.latest_version (tb ∷ []) (w.1.0, made.1.1.0) in
        (made.0 ≡ ok tb)
        × (added.0 ≡ ok tt)
        × ((create_table s sa ta now r w).1.0 ≡ made.1.0)
        × ((create_table s sa ta now r w).1.1.1.0 ≡ added.1.1)
  unfolding create_table
  create_table_parts now r w tb u h = ground arith

  pub create_table_storage :
      (now : ℕ) (sn n : Bytes) (info : Option Bytes) (w : Manager.World s sa ta) (tb : Table)
      → (Manager.create_table s sa ta now sn n info w).0 ≡ ok tb
      → (Manager.create_table s sa ta now sn n info w).1.1.0
        ≡ (s.create_table w.0.cluster_id tb.schema_id tb w.1.0).1
  unfolding Manager.create_table
  create_table_storage now sn n info w tb h = ground arith

  -- A CreateTable of a name of one part that succeeds on a valid storage leaves the table in the table manager under its name, where none was
  -- before, and its id in the view that the storage holds of the shard of the request, with the
  -- version of the request.
  pub cluster_create_table_ok :
      (laws : StorageLaws s) (now : ℕ) (r : CreateTableRequest) (w : World s sa ta) (tb : Table)
      (u : ShardVersionUpdate)
      → s.IsValid w.1.1.0
      → is_name r.table_name ≡ true
      → (create_table s sa ta now r w).0 ≡ ok (tb, u)
      → let w' = (create_table s sa ta now r w).1 in
        (get_table r.schema_name r.table_name w.0 ≡ ok none)
        × (get_table r.schema_name r.table_name w'.0 ≡ ok (some tb))
        × ((v : ShardView) × (s.shard_view w'.1.1.0 w.1.0.cluster_id r.shard_id ≡ some v)
            × (v.version ≡ r.latest_version)
            × (elem tb.id v.table_ids ≡ true))
  unfolding new_shard_view
  cluster_create_table_ok laws now r w tb u valid named h =
      let (made, added, in_tables, in_storage) = create_table_parts now r w tb u h in
      let (absent, _, found, _) =
        create_table_ok s sa ta now r.schema_name r.table_name r.partition_info
          (w.0, (w.1.1.0, w.1.1.1)) tb made in
      let t =
        (Manager.create_table s sa ta now r.schema_name r.table_name r.partition_info
          (w.0, (w.1.1.0, w.1.1.1))).1.1.0 in
      let w0 : Manager.World s sa ta = (w.0, (w.1.1.0, w.1.1.1)) in
      let (_, _, _, name, _) =
        create_table_inv s sa ta now r.schema_name r.table_name r.partition_info w0 tb made in
      let valid' : s.IsValid t =
        rw (create_table_storage now r.schema_name r.table_name r.partition_info w0 tb made) (
          laws.create_table-IsValid w.0.cluster_id tb.schema_id tb w.1.1.0 (rw name named) valid) in
      let (v, _, stored) =
        add_table_ok s laws now r.shard_id r.latest_version (tb ∷ []) w.1.0 t valid' added in
      (
        absent,
        rw in_tables found,
        (
          new_shard_view now r.shard_id r.latest_version (v.table_ids ++ tb.id ∷ []),
          rw in_storage (ground (arith, (stored r.shard_id).1)),
          refl,
          ground (arith, elem-append tb.id v.table_ids (tb.id ∷ [])),
        ),
      )

  -- A CreateTable whose table is made but whose shard cannot be updated returns the error of the
  -- update and leaves the table without a shard: the same request again finds that it exists.
  pub cluster_create_table_again :
      (now later : ℕ) (r : CreateTableRequest) (w : World s sa ta) (v : ClusterView) (tb : Table)
      (e : Error)
      → w.1.0.cluster_view ≡ some v
      → v.state ≡ stable
      → let made =
          Manager.create_table s sa ta now r.schema_name r.table_name r.partition_info
            (w.0, (w.1.1.0, w.1.1.1)) in
        made.0 ≡ ok tb
        → (Topo.add_table s now r.shard_id r.latest_version (tb ∷ []) (w.1.0, made.1.1.0)).0 ≡ err e
        → let w' = create_table s sa ta now r w in
          (w'.0 ≡ err e) × ((create_table s sa ta later r w'.1).0 ≡ err table_already_exists)
  unfolding create_table
  cluster_create_table_again now later r w v tb e view st made failed =
      let (absent, _, found, _) =
        create_table_ok s sa ta now r.schema_name r.table_name r.partition_info
          (w.0, (w.1.1.0, w.1.1.1)) tb made in
      let t =
        (Manager.create_table s sa ta now r.schema_name r.table_name r.partition_info
          (w.0, (w.1.1.0, w.1.1.1))).1.1.0 in
      let kept = add_table_err s now r.shard_id r.latest_version (tb ∷ []) w.1.0 t e failed in
      ground (arith, absent, found, kept) steps 16000000
