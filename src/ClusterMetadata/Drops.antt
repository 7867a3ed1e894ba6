-- ===== src/ClusterMetadata/Drops.antt =====
-- DropTable of server/cluster/metadata/cluster_metadata.go.
use ceresmeta.Storage.{Table, ShardView, Storage}
use ceresmeta.Topology.Removal.{without}
use ceresmeta.Topology.Update.{removed}
use ceresmeta.Topology.Tables.{remove_table_memory}
use ceresmeta.Topology.Update as Topo
use ceresmeta.TableManager.{IdAllocator, get_table}
use ceresmeta.TableManager as Manager
use ceresmeta.TableManager.Laws.{drop_table_ok}
use ceresmeta.ClusterMetadata.{DropTableRequest, World, drop_table, drop_table_metadata}
use ceresmeta.Common.{
  nat_eq, Option-cases, lookup, Result, ok, ℕ, ◌≡◌, ◌∙◌, inl, inr, none, some, [], ◌∷◌, arith,
  Bytes, text_eq, Result-cases,
}

module _ (s : Storage) (sa ta : IdAllocator) (now : ℕ) (r : DropTableRequest)
    (w : World s sa ta) where
  abbrev made : (Result (Unit {0})) × Manager.World s sa ta
  made = Manager.drop_table s sa ta r.schema_name r.table_name (w.0, (w.1.1.0, w.1.1.1))

  drop_parts :
      (drop_table s sa ta now r w).0 ≡ ok tt
      → (t : Table) × (get_table r.schema_name r.table_name w.0 ≡ ok (some t))
        × ((made.0 ≡ ok tt) × ((drop_table s sa ta now r w).1.0 ≡ made.1.0))
  unfolding drop_table
  drop_parts h = elim (Result-cases (get_table r.schema_name r.table_name w.0)) [
    | inr (x, e) ↦ absurd (ground (arith, e))
    | inl (found, e) ↦ elim (Option-cases found) [
      | inl f ↦ absurd (ground (arith, e, f))
      | inr (t, f) ↦ elim (Result-cases made.0) [
        | inr (x, g) ↦ absurd (ground (arith, e, f, g))
        | inl (u, g) ↦ (t, rw f at e, (g, ground (arith, e, f, g)))
      ]
    ]
  ]

  -- A DropTable that succeeds found the table, which is then found no more.
  pub cluster_drop_table_ok :
      (drop_table s sa ta now r w).0 ≡ ok tt
      → ((t : Table) × (get_table r.schema_name r.table_name w.0 ≡ ok (some t)))
        × (get_table r.schema_name r.table_name (drop_table s sa ta now r w).1.0 ≡ ok none)
  cluster_drop_table_ok h =
      let (t, found, (ok_made, after)) = drop_parts h in
      let gone =
        drop_table_ok s sa ta r.schema_name r.table_name (w.0, (w.1.1.0, w.1.1.1)) t found
          ok_made in
      ((t, found), rw after gone.0)

  -- A DropTable that succeeds has written the view of the shard it was given, and no other.
  pub cluster_drop_table_memory :
      (t : Table) (v : ShardView)
      → get_table r.schema_name r.table_name w.0 ≡ ok (some t)
      → lookup r.shard_id w.1.0.shard_tables_mapping ≡ some v
      → (drop_table s sa ta now r w).0 ≡ ok tt
      → (drop_table s sa ta now r w).1.1.0
        ≡ removed s r.shard_id r.latest_version v (t.id ∷ []) (without t.id v.table_ids) w.1.0
  unfolding drop_table
  cluster_drop_table_memory t v found there h =
      let run =
        Topo.remove_table s now r.shard_id r.latest_version (t.id ∷ []) (w.1.0, made.1.1.0) in
      elim (Result-cases made.0) [
        | inr (x, g) ↦ absurd (ground (arith, found, g))
        | inl (u, g) ↦
            let done : run.0 ≡ ok tt = ground (arith, found, g) in
            let kept : (drop_table s sa ta now r w).1.1.0 ≡ run.1.0 = ground (arith, found, g) in
            kept
            ∙ remove_table_memory s now r.shard_id r.latest_version t.id w.1.0 made.1.1.0 v there
                done
      ]

-- A DropTableMetadata that succeeds found the table, which is then found no more.
pub drop_table_metadata_ok :
    (s : Storage) (sa ta : IdAllocator) (sn n : Bytes) (w : World s sa ta) (t : Table)
    → (drop_table_metadata s sa ta sn n w).0 ≡ ok t
    → (get_table sn n w.0 ≡ ok (some t))
      × (get_table sn n (drop_table_metadata s sa ta sn n w).1.0 ≡ ok none)
unfolding drop_table_metadata
drop_table_metadata_ok s sa ta sn n w t h =
    let made = Manager.drop_table s sa ta sn n (w.0, (w.1.1.0, w.1.1.1)) in
    let found : get_table sn n w.0 ≡ ok (some t) = ground arith in
    let same : made.0 ≡ ok tt = ground (arith, found) in
    let gone = drop_table_ok s sa ta sn n (w.0, (w.1.1.0, w.1.1.1)) t found same in
    (found, ground (arith, found, same, gone.0))
