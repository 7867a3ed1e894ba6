-- ===== src/Procedure/CreateTable/Laws.antt =====
-- The runs of create_table.go.
use ceresmeta.Storage.{ShardNode, Table, Storage}
use ceresmeta.Topology.{get_shard_nodes_by_id}
use ceresmeta.TableManager.{IdAllocator}
use ceresmeta.ClusterMetadata.{World, create_table_metadata, add_table_topology}
use ceresmeta.Procedure.{State, state_running, state_finished, state_failed}
use ceresmeta.Procedure.Calls.{Dispatch}
use ceresmeta.Procedure.Ddl.{
  get_partition_info, Observer, build_create_table_request, Both, on_cluster, create_table_on_shard,
  find_leader,
}
use ceresmeta.Procedure.Fsm.{Fsm, FsmLaws, Run}
use ceresmeta.Procedure.CreateTable.{
  FsmState, begin, waiting, finish, failed, Event, event_prepare, event_success, event_failed,
  create_table_events, CreateTable, CreateTableResult, Whole, tell_failed, first_update,
  version_update, prepare_callback, success_callback, failed_callback, callbacks, send, give_up,
  after_prepare, start,
}
use ceresmeta.Common.{
  nat_eq, Option-cases, List, Error, ok, err, Exec, ℕ, ◌≡◌, refl, sym, ◌∙◌, inl, inr, none, some,
  arith, text_eq, Result-cases,
}

module _ (s : Storage) (sa ta : IdAllocator) (d : Dispatch) where
  -- A call to the nodes leaves the cluster's metadata as it is.
  pub create_on_shard-cluster :
      (k : ℕ) (r : ceresmeta.Procedure.Calls.CreateTableOnShardRequest) (b : Both s sa ta d)
      → (create_table_on_shard s sa ta d k r b).1.0 ≡ b.0
  unfolding create_table_on_shard
  create_on_shard-cluster k r b = ground arith

  -- The version that a call returns is the answer of the node that leads the shard.
  pub create_on_shard-answer :
      (k : ℕ) (r : ceresmeta.Procedure.Calls.CreateTableOnShardRequest) (b : Both s sa ta d) (v : ℕ)
      → (create_table_on_shard s sa ta d k r b).0 ≡ ok v
      → (ns : List ShardNode) × (n : ShardNode) × (get_shard_nodes_by_id k b.0.1.0 ≡ ok ns)
        × (find_leader ns ≡ some n)
        × ((d.create_table_on_shard n.node_name r b.1).0 ≡ ok v)
  unfolding create_table_on_shard
  create_on_shard-answer k r b v h = elim (Result-cases (get_shard_nodes_by_id k b.0.1.0)) [
    | inr (x, e) ↦ absurd (cc (rw e at h))
    | inl (ns, e) ↦ elim (Option-cases (find_leader ns)) [
      | inl f ↦ absurd (cc (rw (e, f) at h))
      | inr (n, f) ↦ (ns, n, e, f, rw (e, f) at h)
    ]
  ]

module _ (s : Storage) (sa ta : IdAllocator) (d : Dispatch) (o : Observer CreateTableResult)
    (now later : ℕ) (p : CreateTable) where
  abbrev pub req : ceresmeta.Procedure.Ddl.CreateTableReq
  req = p.params.source_req

  abbrev pub metadata : Exec (World s sa ta) Table
  metadata =
      create_table_metadata s sa ta now req.schema_name req.name
        (get_partition_info req.partition_table_info)

  abbrev pub on_shard : Table → Exec (Both s sa ta d) ℕ
  on_shard t =
      create_table_on_shard s sa ta d p.params.shard_id
        (build_create_table_request t (first_update p) req)

  abbrev pub topology : ℕ → Table → Exec (World s sa ta) (Unit {0})
  topology v t = add_table_topology s sa ta later (version_update p v) t

  pub prepare_inv :
      (w : Whole s sa ta d o)
      → (prepare_callback s sa ta d o now later p w).0 ≡ ok tt
      → (t : Table) × ((metadata w.0.0).0 ≡ ok t)
        × (let b : Both s sa ta d = ((metadata w.0.0).1, w.0.1) in
            (v : ℕ) × ((on_shard t b).0 ≡ ok v)
            × (let c : Both s sa ta d = (on_shard t b).1 in
                ((topology v t c.0).0 ≡ ok tt)
                × ((prepare_callback s sa ta d o now later p w).1
                    ≡ (((topology v t c.0).1, c.1), (w.1.0, some (t, version_update p v))))))
  unfolding prepare_callback
  prepare_inv w h = elim (Result-cases (metadata w.0.0).0) [
    | inr (x, e) ↦ absurd (ground (arith, e))
    | inl (t, e) ↦ elim (Result-cases (on_shard t ((metadata w.0.0).1, w.0.1)).0) [
      | inr (x, f) ↦ absurd (ground (arith, e, f))
      | inl (v, f) ↦
          elim (Result-cases (topology v t (on_shard t ((metadata w.0.0).1, w.0.1)).1.0).0) [
            | inr (x, g) ↦ absurd (ground (arith, e, f, g))
            | inl (u, g) ↦ (t, e, (v, f, (g, ground (arith, e, f, g))))
          ]
    ]
  ]

module _ (f : Fsm) (fl : FsmLaws f) (s : Storage) (sa ta : IdAllocator) (d : Dispatch)
    (o : Observer CreateTableResult) (now later : ℕ) (p : CreateTable) where
  abbrev pub R : Type 0
  R = Run FsmState (Whole s sa ta d o)

  abbrev pub prepare : Exec (Whole s sa ta d o) (Unit {0})
  prepare = prepare_callback s sa ta d o now later p

  send-moves :
      (e : Event) (dst : FsmState) (r : R)
      → create_table_events e r.current ≡ some dst
      → (r.current ≡ dst → ⊥)
      → send s sa ta d o now later p f e r ≡ (
        (callbacks s sa ta d o now later p e r.world).0,
        record {
          current = dst;
          state = r.state;
          world = (callbacks s sa ta d o now later p e r.world).1;
        },
      )
  unfolding send
  send-moves e dst r h n =
      rw
        (fl.event_moves create_table_events (callbacks s sa ta d o now later p) e r.current dst
          r.world h n)
        refl

  abbrev pub prepared : R → R
  prepared r = record { current = waiting; state = state_running; world = (prepare r.world).1 }

  pub start-failed :
      (r : R) (x : Error)
      → r.current ≡ begin
      → (prepare r.world).0 ≡ err x
      → start s sa ta d o now later p f r ≡ (
        err x,
        record {
          current = failed;
          state = state_failed;
          world =
              tell_failed s sa ta d o (some x) (tell_failed s sa ta d o none (prepare r.world).1);
        },
      )
  unfolding start give_up callbacks failed_callback create_table_events
  start-failed r x c h =
      rw
        (send-moves event_prepare waiting (record r { state = state_running }) (rw c refl)
          (λ e. let q = sym c ∙ e in cc))
        (rw (h, after_prepare)
          (rw (send-moves event_failed failed (prepared r) refl (λ e. cc), give_up) refl))

  pub start_succeeded :
      (r : R) (q : CreateTableResult)
      → r.current ≡ begin
      → (prepare r.world).0 ≡ ok tt
      → (prepare r.world).1.1.1 ≡ some q
      → start s sa ta d o now later p f r ≡ (
        ok tt,
        record {
          current = finish;
          state = state_finished;
          world = ((prepare r.world).1.0, ((o.on_succeeded q (prepare r.world).1.1.0).1, some q));
        },
      )
  unfolding start callbacks success_callback create_table_events
  start_succeeded r q c h g =
      rw
        (send-moves event_prepare waiting (record r { state = state_running }) (rw c refl)
          (λ e. let q = sym c ∙ e in cc))
        (rw (h, after_prepare)
          (rw (send-moves event_success finish (prepared r) refl (λ e. cc))
            (rw (g, success_callback) (cc))))
