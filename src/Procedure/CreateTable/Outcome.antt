-- ===== src/Procedure/CreateTable/Outcome.antt =====
-- What a run of create_table.go that succeeds leaves in the cluster, and tells.
use ceresmeta.Topology.{get_shard_nodes_by_id}
use ceresmeta.ClusterMetadata.{World}
use ceresmeta.Storage.{Table, ShardNode, ShardView, Storage, StorageLaws}
use ceresmeta.Storage.Paths.{is_name}
use ceresmeta.TableManager.{IdAllocator, get_table}
use ceresmeta.ClusterMetadata.Parts.{create_table_metadata_inv, create_then_add_ok}
use ceresmeta.Procedure.{state_finished}
use ceresmeta.Procedure.Calls.{Dispatch}
use ceresmeta.Procedure.Ddl.{
  get_partition_info, Observer, build_create_table_request, Both, find_leader,
}
use ceresmeta.Procedure.Fsm.{Fsm, FsmLaws, Run}
use ceresmeta.Procedure.CreateTable.{
  FsmState, begin, CreateTable, CreateTableResult, Whole, version_update, first_update,
  prepare_callback, start,
}
use ceresmeta.Procedure.CreateTable.Laws.{
  create_on_shard-cluster, create_on_shard-answer, metadata, prepare_inv, start-failed,
  start_succeeded,
}
use ceresmeta.Common.{
  nat_eq, List, sym, ◌∙◌, elem, Result, ok, ℕ, ◌≡◌, refl, ap, inl, inr, true, none, some, text_eq,
  Result-cases,
}

module _ (f : Fsm) (fl : FsmLaws f) (s : Storage) (laws : StorageLaws s) (sa ta : IdAllocator)
    (d : Dispatch) (o : Observer CreateTableResult) (now later : ℕ) (p : CreateTable) where
  abbrev R : Type 0
  R = Run FsmState (Whole s sa ta d o)

  start-prepared :
      (r : R)
      → r.current ≡ begin
      → (start s sa ta d o now later p f r).0 ≡ ok tt
      → (prepare_callback s sa ta d o now later p r.world).0 ≡ ok tt
  start-prepared r c h = elim (Result-cases (prepare_callback s sa ta d o now later p r.world).0) [
    | inl (u, e) ↦ e
    | inr (x, e) ↦
        let q =
          ap (λ (y : Result (Unit {0}) × R). y.0)
            (start-failed f fl s sa ta d o now later p r x c e) in
        absurd (cc)
  ]

  -- A procedure that creates a table of a name of one part on a valid storage, started at its first
  -- state, that succeeds is finished. The table is then in the table manager under its name, where
  -- none was before; its id is in the view that the storage holds of the shard, with the version that
  -- the node that leads the shard has answered to the request for that table; and the one who submitted
  -- has been told of success once, with that table and that version.
  pub start_ok :
      (r : R)
      → s.IsValid r.world.0.0.1.1.0
      → is_name p.params.source_req.name ≡ true
      → r.current ≡ begin
      → (start s sa ta d o now later p f r).0 ≡ ok tt
      → let q = (start s sa ta d o now later p f r).1 in
        let sn = p.params.source_req.schema_name in
        let n = p.params.source_req.name in
        (q.state ≡ state_finished)
        × (get_table sn n r.world.0.0.0 ≡ ok none)
        × ((t : Table) × (v : ℕ) × (get_table sn n q.world.0.0.0 ≡ ok (some t))
            × ((ns : List ShardNode) × (l : ShardNode) × (get_shard_nodes_by_id p.params.shard_id
                    r.world.0.0.1.0
                  ≡ ok ns)
                × (find_leader ns ≡ some l)
                × ((d.create_table_on_shard l.node_name
                      (build_create_table_request t (first_update p) p.params.source_req)
                      r.world.0.1).0
                    ≡ ok v))
            × ((view : ShardView) × (s.shard_view q.world.0.0.1.1.0 r.world.0.0.1.0.cluster_id
                    p.params.shard_id
                  ≡ some view)
                × (view.version ≡ v)
                × (elem t.id view.table_ids ≡ true))
            × (q.world.1.0 ≡ (o.on_succeeded (t, version_update p v) r.world.1.0).1))
  start_ok r valid named c h =
      let ready = start-prepared r c h in
      let (t, e, (v, g, (k, done))) = prepare_inv s sa ta d o now later p r.world ready in
      let m = metadata s sa ta d o now later p in
      let b : Both s sa ta d = ((m r.world.0.0).1, r.world.0.1) in
      let sent = build_create_table_request t (first_update p) p.params.source_req in
      let same = create_on_shard-cluster s sa ta d p.params.shard_id sent b in
      let (ns, l, at_shard, leads, answer) =
        create_on_shard-answer s sa ta d p.params.shard_id sent b v g in
      let kept =
        (create_table_metadata_inv s sa ta now p.params.source_req.schema_name
          p.params.source_req.name (get_partition_info p.params.source_req.partition_table_info)
          r.world.0.0 t e).1 in
      let here = ap (λ (w : World s sa ta). get_shard_nodes_by_id p.params.shard_id w.1.0) kept in
      let (absent, found, view) =
        create_then_add_ok s sa ta laws now later p.params.source_req.schema_name
          p.params.source_req.name (get_partition_info p.params.source_req.partition_table_info)
          (version_update p v) r.world.0.0 t valid named e (rw same at k) in
      let run =
        start_succeeded f fl s sa ta d o now later p r (t, version_update p v) c ready
          (ap (λ y. y.1.1) done) in
      rw run (
        rw done (
          rw same
            (refl, absent, (t, v, found, (ns, l, sym here ∙ at_shard, leads, answer), view, refl))))
