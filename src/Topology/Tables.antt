-- ===== src/Topology/Tables.antt =====
-- What AddTable and RemoveTable of server/cluster/metadata/topology_manager.go promise.
use ceresmeta.Storage.{Table, ShardView, new_shard_view, Storage, StorageLaws}
use ceresmeta.Topology.{TopologyManagerImpl}
use ceresmeta.Topology.Update.{
  kept_tables, compact, delete_tables, add_table, removed, remove_table,
}
use ceresmeta.Topology.Removal.{without, kept_tables-one, compact-one, elem-kept_tables, has_other}
use ceresmeta.Common.{
  if◌then◌else◌, ◌==◌, nat_eq, Option-cases, elem, lookup, lookup-insert, Error, ok, err, ℕ, ◌≡◌,
  refl, inl, inr, false, ◌&&◌, none, some, List, [], ◌∷◌, ◌++◌, map, arith, Result-cases,
  lookup-insert_same, lookup-delete_same,
}

-- The ids of tables.
abbrev ids : List Table → List ℕ
ids ts = map (λ t. t.id) ts

-- The memory after a RemoveTable of one id that succeeds.
pub remove_table_memory :
    (s : Storage) (now k latest d : ℕ) (m : TopologyManagerImpl) (t : s.State) (v : ShardView)
    → lookup k m.shard_tables_mapping ≡ some v
    → (remove_table s now k latest (d ∷ []) (m, t)).0 ≡ ok tt
    → (remove_table s now k latest (d ∷ []) (m, t)).1.0
      ≡ removed s k latest v (d ∷ []) (without d v.table_ids) m
unfolding remove_table new_shard_view delete_tables
remove_table_memory s now k latest d m t v found h =
    let keeps = without d v.table_ids in
    let v' = new_shard_view now v.shard_id latest keeps in
    let fits = rw (kept_tables-one d v.table_ids) at (compact-one d v.table_ids) in
    elim (Result-cases (s.update_shard_view m.cluster_id v' v.version t).0) [
      | inl (u, e) ↦ rw (found, kept_tables-one d v.table_ids, e, fits) refl
      | inr (x, e) ↦ absurd (cc (rw (found, kept_tables-one d v.table_ids, e) at h))
    ]

module _ (s : Storage) (laws : StorageLaws s) where
  -- After an AddTable that succeeds on a valid storage, the memory and the storage hold the same new
  -- view of the shard: the one that the memory had, with the version asked for and the table ids
  -- appended, whatever version the storage had. The views of other shards are as before.
  pub add_table_ok :
      (now k latest : ℕ) (ts : List Table) (m : TopologyManagerImpl) (t : s.State)
      → s.IsValid t
      → (add_table s now k latest ts (m, t)).0 ≡ ok tt
      → (v : ShardView) × (lookup k m.shard_tables_mapping ≡ some v)
        × (let v' = new_shard_view now k latest (v.table_ids ++ ids ts) in
            let (m', t') = (add_table s now k latest ts (m, t)).1 in
            (j : ℕ)
            → (lookup j m'.shard_tables_mapping
                ≡ (if k == j then some v' else lookup j m.shard_tables_mapping))
              × (s.shard_view t' m.cluster_id j
                  ≡ (if k == j then some v' else s.shard_view t m.cluster_id j)))
  unfolding add_table new_shard_view
  add_table_ok now k latest ts m t valid h = elim (Option-cases (lookup k m.shard_tables_mapping)) [
    | inl e ↦ absurd (cc (rw e at h))
    | inr (v, e) ↦
        let v' = new_shard_view now k latest (v.table_ids ++ ids ts) in
        let h' : (s.update_shard_view m.cluster_id v' v.version t).0 ≡ ok tt = ground arith in
        let q = laws.update_shard_view_ok m.cluster_id v' v.version t valid h' in
        (v, e, λ j. (rw (e, h') (lookup-insert k j v' m.shard_tables_mapping), rw (e, h') (q j)))
  ]

  -- An AddTable that fails leaves the memory as it was, and in a valid storage the views of the other
  -- shards.
  pub add_table_err :
      (now k latest : ℕ) (ts : List Table) (m : TopologyManagerImpl) (t : s.State) (x : Error)
      → s.IsValid t
      → (add_table s now k latest ts (m, t)).0 ≡ err x
      → ((add_table s now k latest ts (m, t)).1.0 ≡ m)
        × ((j : ℕ)
            → (k == j) ≡ false
            → s.shard_view (add_table s now k latest ts (m, t)).1.1 m.cluster_id j
              ≡ s.shard_view t m.cluster_id j)
  unfolding add_table new_shard_view
  add_table_err now k latest ts m t x valid h =
      elim (Option-cases (lookup k m.shard_tables_mapping)) [
        | inl e ↦ rw e (refl, λ j d. refl)
        | inr (v, e) ↦
            let v' = new_shard_view now k latest (v.table_ids ++ ids ts) in
            elim (Result-cases (s.update_shard_view m.cluster_id v' v.version t).0) [
              | inl (u, f) ↦ absurd (ground arith)
              | inr (y, f) ↦ (
                rw (e, f) refl,
                λ j d.
                    rw (e, f) (laws.update_shard_view_other m.cluster_id v' v.version t j valid d),
              )
            ]
      ]

  -- A RemoveTable of one id whose update of a valid storage succeeds does not panic. The memory and the
  -- storage then hold the version asked for with exactly the other ids of the memory's view, and the
  -- table is mapped to no shard any more.
  pub remove_table_ok :
      (now k latest d : ℕ) (m : TopologyManagerImpl) (t : s.State) (v : ShardView)
      → lookup k m.shard_tables_mapping ≡ some v
      → v.shard_id ≡ k
      → s.IsValid t
      → (s.update_shard_view m.cluster_id
          (new_shard_view now k latest (without d v.table_ids))
          v.version
          t).0
        ≡ ok tt
      → let w' = remove_table s now k latest (d ∷ []) (m, t) in
        let (m', t') = w'.1 in
        (w'.0 ≡ ok tt)
        × (lookup k m'.shard_tables_mapping
            ≡ some (record v { version = latest; table_ids = without d v.table_ids }))
        × (s.shard_view t' m.cluster_id k
            ≡ some (new_shard_view now k latest (without d v.table_ids)))
        × (lookup d m'.table_shard_mapping ≡ none)
  unfolding remove_table new_shard_view delete_tables
  remove_table_ok now k latest d m t v found same valid h =
      let keeps = without d v.table_ids in
      let v' = new_shard_view now k latest keeps in
      let q = laws.update_shard_view_ok m.cluster_id v' v.version t valid h in
      let fits = rw (kept_tables-one d v.table_ids) at (compact-one d v.table_ids) in
      rw (found, same, kept_tables-one d v.table_ids, h, fits)
        (
          refl,
          lookup-insert_same k
              (record {
                shard_id = k;
                version = latest;
                table_ids = keeps;
                created_at = v.created_at;
              })
              m.shard_tables_mapping,
          ground (arith, q k),
          lookup-delete_same d m.table_shard_mapping,
        )

  -- After a RemoveTable whose update of a valid storage succeeds, a table id is in the view of the storage
  -- exactly when it was in the view of the memory and some id to remove is another one: two ids that
  -- differ remove no table.
  pub remove_table_keeps :
      (now k latest : ℕ) (ds : List ℕ) (m : TopologyManagerImpl) (t : s.State) (v : ShardView)
      → lookup k m.shard_tables_mapping ≡ some v
      → v.shard_id ≡ k
      → s.IsValid t
      → (s.update_shard_view m.cluster_id
          (new_shard_view now k latest (kept_tables v.table_ids ds))
          v.version
          t).0
        ≡ ok tt
      → (v' : ShardView) × (s.shard_view (remove_table s now k latest ds (m, t)).1.1 m.cluster_id k
          ≡ some v')
        × ((u : ℕ) → elem u v'.table_ids ≡ elem u v.table_ids && has_other u ds)
  unfolding remove_table new_shard_view
  remove_table_keeps now k latest ds m t v found same valid h =
      let v' = new_shard_view now k latest (kept_tables v.table_ids ds) in
      let q = laws.update_shard_view_ok m.cluster_id v' v.version t valid h in
      let stored : s.shard_view (s.update_shard_view m.cluster_id v' v.version t).1 m.cluster_id k
          ≡ some v' =
        ground (arith, q k) in
      (
        v',
        elim (Option-cases (compact ds (kept_tables v.table_ids ds))) [
          | inl e ↦ rw (found, same, h, e) stored
          | inr (a, e) ↦ rw (found, same, h, e) stored
        ],
        λ u. elem-kept_tables u v.table_ids ds,
      )
