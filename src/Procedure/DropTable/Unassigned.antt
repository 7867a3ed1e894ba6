-- ===== src/Procedure/DropTable/Unassigned.antt =====
-- drop_table.go for a table that no shard with a leader has.
use ceresmeta.Storage.{Table, ShardView, Storage}
use ceresmeta.Topology.{or_nil, get_shard_nodes_by_table_ids, GetShardNodesByTableIdsResult}
use ceresmeta.TableManager.{IdAllocator, TableManagerImpl, get_table}
use ceresmeta.Topology.Removal.{without}
use ceresmeta.ClusterMetadata.{drop_table}
use ceresmeta.ClusterMetadata.Drops.{cluster_drop_table_ok, cluster_drop_table_memory}
use ceresmeta.ClusterMetadata.Routes.{TableInfo}
use ceresmeta.Procedure.{state_finished}
use ceresmeta.Procedure.Calls.{Dispatch}
use ceresmeta.Procedure.Ddl.{
  Observer, find_leader, get_table_metadata, build_shard_version_update, zero_update,
}
use ceresmeta.Procedure.Fsm.{Fsm, FsmLaws, Run}
use ceresmeta.Procedure.DropTable.{
  FsmState, begin, DropTable, Params, Whole, dropped, prepare_callback, drop_at, find_shard_id,
  new_drop_table_procedure, start,
}
use ceresmeta.Procedure.DropTable.Laws.{request, prepare, start-prepared, start_succeeded}
use ceresmeta.Common.{
  if◌then◌else◌, ◌==◌, nat_eq, elem, lookup, lookup-insert, ok, err, ℕ, ◌≡◌, refl, false, none,
  some, List, [], ◌∷◌, arith, shard_not_found, text_eq,
}

-- No view has the table.
unfoldable pub IsUnassigned : ℕ → List (ℕ × ShardView) → Type 0
IsUnassigned t [] = Unit {0}
IsUnassigned t ((k, v) ∷ vs) = (elem t v.table_ids ≡ false) × IsUnassigned t vs

find_shard_id_none :
    (t : ℕ) (vs : List (ℕ × ShardView))
    → IsUnassigned t vs
    → find_shard_id t vs ≡ err shard_not_found
unfolding find_shard_id IsUnassigned
find_shard_id_none t [] h = refl
find_shard_id_none t ((k, v) ∷ vs) h = ground (arith, h.0, find_shard_id_none t vs h.1)

-- No procedure drops a table that is in no view of the snapshot.
pub new_procedure-unassigned :
    (p : Params) (m : TableManagerImpl) (t : Table)
    → get_table p.source_req.schema_name p.source_req.name m ≡ ok (some t)
    → IsUnassigned t.id p.topology.shard_views_mapping
    → new_drop_table_procedure p m ≡ err shard_not_found
unfolding new_drop_table_procedure
new_procedure-unassigned p m t found h =
    ground (arith, found, find_shard_id_none t.id p.topology.shard_views_mapping h)

module _ (s : Storage) (sa ta : IdAllocator) (d : Dispatch) (o : Observer TableInfo) (now : ℕ)
    (p : DropTable) where
  prepare-no_leader :
      (w : Whole s sa ta d o) (t : Table) (q : GetShardNodesByTableIdsResult)
      → get_table p.params.source_req.schema_name p.params.source_req.name w.0.0.0 ≡ ok (some t)
      → get_shard_nodes_by_table_ids (t.id ∷ []) w.0.0.1.0 ≡ ok q
      → find_leader (or_nil (lookup t.id q.shard_nodes)) ≡ none
      → prepare s sa ta d o now p w
        ≡ drop_at s sa ta d o now p zero_update (w.0, (w.1.0, some (dropped p t)))
  unfolding prepare_callback get_table_metadata build_shard_version_update
  prepare-no_leader w t q found e l = rw found (rw (e, build_shard_version_update) (rw l refl))

  -- A procedure that drops a table which no shard with a leader has, started at its first state in a
  -- cluster with a shard 0, that succeeds is finished and the table is found no more. In the memory of the
  -- topology manager it has set the version of shard 0 to 0 and taken the table from shard 0's view; the
  -- view of every other shard, also the one that has the table, is as it was.
  pub drop_start-no_leader :
      (f : Fsm) (fl : FsmLaws f) (r : Run FsmState (Whole s sa ta d o)) (t : Table)
      (q : GetShardNodesByTableIdsResult) (v : ShardView)
      → r.current ≡ begin
      → get_table p.params.source_req.schema_name p.params.source_req.name r.world.0.0.0
        ≡ ok (some t)
      → get_shard_nodes_by_table_ids (t.id ∷ []) r.world.0.0.1.0 ≡ ok q
      → find_leader (or_nil (lookup t.id q.shard_nodes)) ≡ none
      → lookup 0 r.world.0.0.1.0.shard_tables_mapping ≡ some v
      → (start s sa ta d o now p f r).0 ≡ ok tt
      → let r' = (start s sa ta d o now p f r).1 in
        (r'.state ≡ state_finished)
        × (get_table p.params.source_req.schema_name p.params.source_req.name r'.world.0.0.0
            ≡ ok none)
        × ((k : ℕ)
            → lookup k r'.world.0.0.1.0.shard_tables_mapping ≡ (
                if 0 == k
                then some (record v { version = 0; table_ids = without t.id v.table_ids })
                else lookup k r.world.0.0.1.0.shard_tables_mapping))
  drop_start-no_leader f fl r t q v c found e l zero_there h =
      let ready = start-prepared f fl s sa ta d o now p r c h in
      let same = prepare-no_leader r.world t q found e l in
      let asked = request s sa ta d o now p zero_update in
      let done : (drop_table s sa ta now asked r.world.0.0).0 ≡ ok tt = rw same at ready in
      let memory =
        cluster_drop_table_memory s sa ta now asked r.world.0.0 t v found zero_there done in
      let gone = (cluster_drop_table_ok s sa ta now asked r.world.0.0 done).1 in
      let run = start_succeeded f fl s sa ta d o now p r (dropped p t) c ready (rw same refl) in
      rw run (refl, rw same gone, λ k. rw (same, memory) (lookup-insert 0 k _ _))
