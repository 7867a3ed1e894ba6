-- ===== src/ClusterMetadata/Parts.antt =====
-- CreateTableMetadata and AddTableTopology of server/cluster/metadata/cluster_metadata.go, one after the
-- other.
use ceresmeta.Storage.{Table, ShardView, Storage, StorageLaws, new_shard_view}
use ceresmeta.Storage.Paths.{is_name}
use ceresmeta.Topology.Update as Topo
use ceresmeta.Topology.Tables.{add_table_ok}
use ceresmeta.Topology.Removal.{elem-append}
use ceresmeta.TableManager.{IdAllocator, get_table}
use ceresmeta.TableManager as Manager
use ceresmeta.TableManager.Laws.{create_table_ok, create_table_inv}
use ceresmeta.ClusterMetadata.{ShardVersionUpdate, World, create_table_metadata, add_table_topology}
use ceresmeta.ClusterMetadata.Tables.{create_table_storage}
use ceresmeta.Common.{
  nat_eq, elem, ok, ℕ, ◌≡◌, refl, true, Option, none, some, [], ◌∷◌, ◌++◌, arith, Bytes, text_eq,
}

module _ (s : Storage) (sa ta : IdAllocator) where
  pub create_table_metadata_inv :
      (now : ℕ) (sn n : Bytes) (info : Option Bytes) (w : World s sa ta) (tb : Table)
      → (create_table_metadata s sa ta now sn n info w).0 ≡ ok tb
      → let made = Manager.create_table s sa ta now sn n info (w.0, (w.1.1.0, w.1.1.1)) in
        (made.0 ≡ ok tb)
        × ((create_table_metadata s sa ta now sn n info w).1 ≡ (made.1.0, (w.1.0, made.1.1)))
  unfolding create_table_metadata
  create_table_metadata_inv now sn n info w tb h = ground arith

  pub add_table_topology_inv :
      (now : ℕ) (u : ShardVersionUpdate) (tb : Table) (w : World s sa ta)
      → (add_table_topology s sa ta now u tb w).0 ≡ ok tt
      → let added = Topo.add_table s now u.shard_id u.latest_version (tb ∷ []) (w.1.0, w.1.1.0) in
        (added.0 ≡ ok tt)
        × ((add_table_topology s sa ta now u tb w).1 ≡ (w.0, (added.1.0, (added.1.1, w.1.1.1))))
  unfolding add_table_topology
  add_table_topology_inv now u tb w h = ground arith

  -- A table whose metadata is created on a valid storage, and then added to a shard with success, is
  -- in the table manager under its name, where none was before, and its id is in the view that the
  -- storage holds of the shard, with the version given.
  pub create_then_add_ok :
      (laws : StorageLaws s) (now later : ℕ) (sn n : Bytes) (info : Option Bytes)
      (u : ShardVersionUpdate) (w : World s sa ta) (tb : Table)
      → s.IsValid w.1.1.0
      → is_name n ≡ true
      → (create_table_metadata s sa ta now sn n info w).0 ≡ ok tb
      → let w1 = (create_table_metadata s sa ta now sn n info w).1 in
        (add_table_topology s sa ta later u tb w1).0 ≡ ok tt
        → let w2 = (add_table_topology s sa ta later u tb w1).1 in
          (get_table sn n w.0 ≡ ok none)
          × (get_table sn n w2.0 ≡ ok (some tb))
          × ((v : ShardView) × (s.shard_view w2.1.1.0 w.1.0.cluster_id u.shard_id ≡ some v)
              × (v.version ≡ u.latest_version)
              × (elem tb.id v.table_ids ≡ true))
  unfolding new_shard_view
  create_then_add_ok laws now later sn n info u w tb valid named h k =
      let w0 : Manager.World s sa ta = (w.0, (w.1.1.0, w.1.1.1)) in
      let (made, after) = create_table_metadata_inv now sn n info w tb h in
      let (absent, _, found, _) = create_table_ok s sa ta now sn n info w0 tb made in
      let (_, _, _, name, _) = create_table_inv s sa ta now sn n info w0 tb made in
      let t = (Manager.create_table s sa ta now sn n info w0).1.1.0 in
      let valid' : s.IsValid t =
        rw (create_table_storage s sa ta now sn n info w0 tb made) (
          laws.create_table-IsValid w.0.cluster_id tb.schema_id tb w.1.1.0 (rw name named) valid) in
      let w1 = (create_table_metadata s sa ta now sn n info w).1 in
      let (added, then) = add_table_topology_inv later u tb w1 k in
      let (v, _, stored) =
        add_table_ok s laws later u.shard_id u.latest_version (tb ∷ []) w.1.0 t valid'
          (rw after at added) in
      (
        absent,
        rw (then, after) found,
        (
          new_shard_view later u.shard_id u.latest_version (v.table_ids ++ tb.id ∷ []),
          rw (then, after) (ground (arith, (stored u.shard_id).1)),
          refl,
          ground (arith, elem-append tb.id v.table_ids (tb.id ∷ [])),
        ),
      )
