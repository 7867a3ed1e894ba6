-- ===== src/Procedure/DropTable/Laws.antt =====
-- The runs of drop_table.go.
use ceresmeta.Storage.{Table, Storage, ClusterView, stable}
use ceresmeta.Topology.{get_shard_nodes_by_id}
use ceresmeta.TableManager.{IdAllocator, get_table}
use ceresmeta.ClusterMetadata.{DropTableRequest, ShardVersionUpdate, drop_table}
use ceresmeta.ClusterMetadata.Drops.{cluster_drop_table_ok}
use ceresmeta.ClusterMetadata.Routes.{TableInfo}
use ceresmeta.Procedure.{state_running, state_finished, state_failed}
use ceresmeta.Procedure.Calls.{Dispatch, DropTableOnShardRequest}
use ceresmeta.Procedure.Ddl.{
  Observer, Both, get_table_metadata, build_shard_version_update, drop_on_nodes,
  drop_table_on_shard,
}
use ceresmeta.Procedure.Fsm.{Fsm, FsmLaws, Run}
use ceresmeta.Procedure.DropTable.{
  FsmState, begin, waiting, finish, failed, Event, event_prepare, event_success, event_failed,
  drop_table_events, DropTable, Whole, dropped, tell_failed, prepare_callback, success_callback,
  failed_callback, callbacks, send, give_up, drop_from, after_prepare, start,
}
use ceresmeta.Common.{
  nat_eq, Option-cases, Map, Error, Result, ok, err, Exec, ℕ, ◌≡◌, refl, sym, ap, ◌∙◌, inl, inr,
  Bool, true, false, none, some, List, [], ◌∷◌, arith, Bytes, text_eq, Result-cases,
}

module _ (s : Storage) (sa ta : IdAllocator) (d : Dispatch) where
  drop_on_nodes-cluster :
      (r : DropTableOnShardRequest) (ns : List ceresmeta.Storage.ShardNode) (v : ℕ)
      (b : Both s sa ta d)
      → (drop_on_nodes s sa ta d r ns v b).1.0 ≡ b.0
  unfolding drop_on_nodes
  drop_on_nodes-cluster r [] v b = refl
  drop_on_nodes-cluster r (n ∷ ns) v b =
      elim (Result-cases (d.drop_table_on_shard n.node_name r b.1).0) [
        | inl (u, e) ↦ rw e (drop_on_nodes-cluster r ns u _)
        | inr (x, e) ↦ rw e refl
      ]

  drop_on_shard-cluster :
      (sn : Bytes) (t : Table) (u : ShardVersionUpdate) (b : Both s sa ta d)
      → (drop_table_on_shard s sa ta d sn t u b).1.0 ≡ b.0
  unfolding drop_table_on_shard
  drop_on_shard-cluster sn t u b = elim (Result-cases (get_shard_nodes_by_id u.shard_id b.0.1.0)) [
    | inl (ns, e) ↦ rw e (drop_on_nodes-cluster _ ns 0 b)
    | inr (x, e) ↦ rw e refl
  ]

  build_update_keeps :
      (t : Table) (vs : Map ℕ ℕ) (b : Both s sa ta d)
      → (build_shard_version_update s sa ta d t vs b).1 ≡ b
  unfolding build_shard_version_update
  build_update_keeps t vs b = ground arith

module _ (s : Storage) (sa ta : IdAllocator) (d : Dispatch) (o : Observer TableInfo) (now : ℕ)
    (p : DropTable) where
  abbrev pub prepare : Exec (Whole s sa ta d o) (Unit {0})
  prepare = prepare_callback s sa ta d o now p

  abbrev pub request : ShardVersionUpdate → DropTableRequest
  request u = record {
    schema_name = p.params.source_req.schema_name;
    table_name = p.params.source_req.name;
    shard_id = u.shard_id;
    latest_version = u.latest_version;
  }

  pub drop_from_inv :
      (t : Table) (u : ShardVersionUpdate) (m : Bool) (w : Whole s sa ta d o)
      → (drop_from s sa ta d o now p t (u, m) w).0 ≡ ok tt
      → (u' : ShardVersionUpdate) × (((drop_table s sa ta now (request u') w.0.0).0 ≡ ok tt)
          × (((drop_from s sa ta d o now p t (u, m) w).1.0.0
                ≡ (drop_table s sa ta now (request u') w.0.0).1)
              × ((drop_from s sa ta d o now p t (u, m) w).1.1 ≡ w.1)))
  drop_from_inv t u false w h = (u, (h, (refl, refl)))
  drop_from_inv t u true w h =
      let call = drop_table_on_shard s sa ta d p.params.source_req.schema_name t u w.0 in
      let same = drop_on_shard-cluster s sa ta d p.params.source_req.schema_name t u w.0 in
      elim (Result-cases call.0) [
        | inl (v, e) ↦
            let u' : ShardVersionUpdate = record { shard_id = u.shard_id; latest_version = v } in
            (u', (rw same at (rw e at h), (rw e (rw same refl), rw e refl)))
        | inr (x, e) ↦ absurd (ground (arith, e))
      ]

  prepare_inv :
      (w : Whole s sa ta d o)
      → (prepare w).0 ≡ ok tt
      → (t : Table) × ((get_table p.params.source_req.schema_name p.params.source_req.name w.0.0.0
            ≡ ok (some t))
          × ((u : ShardVersionUpdate) × (((drop_table s sa ta now (request u) w.0.0).0 ≡ ok tt)
                × (((prepare w).1.0.0 ≡ (drop_table s sa ta now (request u) w.0.0).1)
                    × ((prepare w).1.1 ≡ (w.1.0, some (dropped p t)))))))
  unfolding prepare_callback get_table_metadata
  prepare_inv w h =
      elim (Result-cases
        (get_table p.params.source_req.schema_name p.params.source_req.name w.0.0.0)) [
          | inr (x, e) ↦ absurd (ground (arith, e))
          | inl (found, e) ↦ elim (Option-cases found) [
            | inl f ↦ absurd (ground (arith, e, f))
            | inr (t, f) ↦
                let vs = p.related_version_info.shard_with_version in
                let build = build_shard_version_update s sa ta d t vs w.0 in
                let same = build_update_keeps s sa ta d t vs w.0 in
                elim (Result-cases build.0) [
                  | inr (x, g) ↦ absurd (ground (arith, e, f, g))
                  | inl ((u, m), g) ↦
                      let w1 : Whole s sa ta d o = (w.0, (w.1.0, some (dropped p t))) in
                      let run : prepare w ≡ drop_from s sa ta d o now p t (u, m) w1 =
                        rw (rw f at e) (rw g (rw same refl)) in
                      let (u', (a, (b, c))) = drop_from_inv t u m w1 (rw run at h) in
                      (t, (rw f at e, (u', (a, (rw run b, rw run c)))))
                ]
          ]
        ]

module _ (f : Fsm) (fl : FsmLaws f) (s : Storage) (sa ta : IdAllocator) (d : Dispatch)
    (o : Observer TableInfo) (now : ℕ) (p : DropTable) where
  abbrev pub R : Type 0
  R = Run FsmState (Whole s sa ta d o)

  send-moves :
      (e : Event) (dst : FsmState) (r : R)
      → drop_table_events e r.current ≡ some dst
      → (r.current ≡ dst → ⊥)
      → send s sa ta d o now p f e r ≡ (
        (callbacks s sa ta d o now p e r.world).0,
        record {
          current = dst;
          state = r.state;
          world = (callbacks s sa ta d o now p e r.world).1;
        },
      )
  unfolding send
  send-moves e dst r h n =
      rw
        (fl.event_moves drop_table_events (callbacks s sa ta d o now p) e r.current dst r.world h n)
        refl

  abbrev prepared : R → R
  prepared r = record {
    current = waiting;
    state = state_running;
    world = (prepare s sa ta d o now p r.world).1;
  }

  pub start-failed :
      (r : R) (x : Error)
      → r.current ≡ begin
      → (prepare s sa ta d o now p r.world).0 ≡ err x
      → start s sa ta d o now p f r ≡ (
        err x,
        record {
          current = failed;
          state = state_failed;
          world = tell_failed s sa ta d o none (prepare s sa ta d o now p r.world).1;
        },
      )
  unfolding start give_up callbacks failed_callback drop_table_events
  start-failed r x c h =
      rw
        (send-moves event_prepare waiting (record r { state = state_running }) (rw c refl)
          (λ e. let q = sym c ∙ e in cc))
        (rw (h, after_prepare)
          (rw (send-moves event_failed failed (prepared r) refl (λ e. cc), give_up) refl))

  pub start_succeeded :
      (r : R) (q : TableInfo)
      → r.current ≡ begin
      → (prepare s sa ta d o now p r.world).0 ≡ ok tt
      → (prepare s sa ta d o now p r.world).1.1.1 ≡ some q
      → start s sa ta d o now p f r ≡ (
        ok tt,
        record {
          current = finish;
          state = state_finished;
          world = (
            (prepare s sa ta d o now p r.world).1.0,
            ((o.on_succeeded q (prepare s sa ta d o now p r.world).1.1.0).1, some q),
          );
        },
      )
  unfolding start callbacks success_callback drop_table_events
  start_succeeded r q c h g =
      rw
        (send-moves event_prepare waiting (record r { state = state_running }) (rw c refl)
          (λ e. let q = sym c ∙ e in cc))
        (rw (h, after_prepare)
          (rw (send-moves event_success finish (prepared r) refl (λ e. cc))
            (rw (g, success_callback) (cc))))

  pub start-prepared :
      (r : R)
      → r.current ≡ begin
      → (start s sa ta d o now p f r).0 ≡ ok tt
      → (prepare s sa ta d o now p r.world).0 ≡ ok tt
  start-prepared r c h = elim (Result-cases (prepare s sa ta d o now p r.world).0) [
    | inl (u, e) ↦ e
    | inr (x, e) ↦
        let q = ap (λ (y : Result (Unit {0}) × R). y.0) (start-failed r x c e) in absurd (cc)
  ]

  -- A procedure that drops a table, started at its first state, that succeeds is finished; the table
  -- was there, it is found no more, and the one who submitted has been told of success once, with it.
  pub drop_start_ok :
      (r : R)
      → r.current ≡ begin
      → (start s sa ta d o now p f r).0 ≡ ok tt
      → let q = (start s sa ta d o now p f r).1 in
        let sn = p.params.source_req.schema_name in
        let n = p.params.source_req.name in
        (q.state ≡ state_finished)
        × (get_table sn n q.world.0.0.0 ≡ ok none)
        × ((t : Table) × (get_table sn n r.world.0.0.0 ≡ ok (some t))
            × (q.world.1.0 ≡ (o.on_succeeded (dropped p t) r.world.1.0).1))
  drop_start_ok r c h =
      let ready = start-prepared r c h in
      let (t, (found, (u, (done, (after, told))))) = prepare_inv s sa ta d o now p r.world ready in
      let (_, gone) =
        cluster_drop_table_ok s sa ta now (request s sa ta d o now p u) r.world.0.0 done in
      let run = start_succeeded r (dropped p t) c ready (ap (λ y. y.1) told) in
      rw run (refl, rw after gone, (t, found, rw told refl))
