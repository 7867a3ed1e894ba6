-- ===== src/Procedure/CreateTable.antt =====
-- server/coordinator/procedure/ddl/createtable/create_table.go.
pub mod Laws
pub mod Outcome
mod Tests
use ceresmeta.Storage.{Table, Storage}
use ceresmeta.Topology.{Topology}
use ceresmeta.TableManager.{IdAllocator}
use ceresmeta.ClusterMetadata.{ShardVersionUpdate, create_table_metadata, add_table_topology}
use ceresmeta.Procedure.{
  Procedure, Kind, kind_create_table, State, state_init, state_running, state_finished,
  state_failed, Priority, priority_low, RelatedVersionInfo,
}
use ceresmeta.Procedure.Calls.{Dispatch}
use ceresmeta.Procedure.Ddl.{
  CreateTableReq, get_partition_info, Observer, build_create_table_request,
  build_related_version_info, or_zero, Both, on_cluster, create_table_on_shard,
}
use ceresmeta.Procedure.Fsm.{Fsm, Run, update_state}
use ceresmeta.Common.{
  nat_eq, lookup, Error, Result, ok, err, Exec, ◌>>=◌, ◌>>◌, ℕ, Option, none, some, text_eq,
  panicked,
}

pub data FsmState : Type 0 where
  begin waiting finish failed : FsmState

pub data Event : Type 0 where
  event_prepare event_success event_failed : Event

unfoldable pub create_table_events : Event → FsmState → Option FsmState
create_table_events event_prepare begin = some waiting
create_table_events event_success waiting = some finish
create_table_events event_failed waiting = some failed
create_table_events _ _ = none

pub record Params : Type 0 where
  pub id : ℕ
  pub topology : Topology
  pub shard_id : ℕ
  pub source_req : CreateTableReq

pub record CreateTable : Type 0 where
  pub params : Params
  pub related_version_info : RelatedVersionInfo
  pub state : State

unfoldable pub new_procedure : Params → Result CreateTable
new_procedure p = elim (build_related_version_info p.topology p.shard_id) [
  | err x ↦ err x
  | ok v ↦ ok (record { params = p; related_version_info = v; state = state_init })
]

abbrev pub to_procedure : CreateTable → ceresmeta.Procedure.Procedure
to_procedure t = record {
  id = t.params.id;
  kind = kind_create_table;
  priority = priority_low;
  related_version_info = t.related_version_info;
}

abbrev pub version_update : CreateTable → ℕ → ShardVersionUpdate
version_update p v = record { shard_id = p.params.shard_id; latest_version = v }

-- The version of the shard that the procedure was made with.
abbrev pub first_update : CreateTable → ShardVersionUpdate
first_update p =
    version_update p (or_zero (lookup p.params.shard_id p.related_version_info.shard_with_version))

abbrev pub CreateTableResult : Type 0
CreateTableResult = Table × ShardVersionUpdate

module _ (s : Storage) (sa ta : IdAllocator) (d : Dispatch) (o : Observer CreateTableResult) where
  -- Beside the cluster and the nodes: the one who submitted, and `createTableResult` of the request.
  abbrev pub Whole : Type 0
  Whole = Both s sa ta d × (o.State × Option CreateTableResult)

  abbrev pub on_both : {A : Type 0} → Exec (Both s sa ta d) A → Exec Whole A
  on_both f (b, x) = let (r, b') = f b in (r, (b', x))

  abbrev pub set_result : CreateTableResult → Exec Whole (Unit {0})
  set_result r (b, (x, y)) = (ok tt, (b, (x, some r)))

  -- An error of the observer is only logged.
  abbrev pub tell_failed : Option Error → Whole → Whole
  tell_failed e (b, (x, y)) = (b, ((o.on_failed e x).1, y))

  abbrev tell_succeeded : CreateTableResult → Exec Whole (Unit {0})
  tell_succeeded r (b, (x, y)) = (ok tt, (b, ((o.on_succeeded r x).1, y)))

  -- The times of the two writes are `now` and `later`.
  module _ (now later : ℕ) (p : CreateTable) where
    unfoldable pub prepare_callback : Exec Whole (Unit {0})
    prepare_callback = do
      t ← on_both (
          on_cluster s sa ta d (
            create_table_metadata s sa ta now p.params.source_req.schema_name
              p.params.source_req.name
              (get_partition_info p.params.source_req.partition_table_info)))
      v ← on_both (
          create_table_on_shard s sa ta d p.params.shard_id
            (build_create_table_request t (first_update p) p.params.source_req))
      on_both (on_cluster s sa ta d (add_table_topology s sa ta later (version_update p v) t))
      set_result (t, version_update p v)

    -- The assertion that there is a result panics.
    unfoldable pub success_callback : Exec Whole (Unit {0})
    success_callback w = elim w.1.1 [ none ↦ (err panicked, w) | some r ↦ tell_succeeded r w ]

    -- `event.Err` is that of the new event, which has none.
    unfoldable pub failed_callback : Exec Whole (Unit {0})
    failed_callback w = (ok tt, tell_failed none w)

    unfoldable pub callbacks : Event → Exec Whole (Unit {0})
    callbacks event_prepare = prepare_callback
    callbacks event_success = success_callback
    callbacks event_failed = failed_callback

    unfoldable pub send : Fsm → Event → Exec (Run FsmState Whole) (Unit {0})
    send f e r =
        let ((x, c), w) = f.event create_table_events callbacks e r.current r.world in
        (x, record { current = c; state = r.state; world = w })

    -- After an event that has failed.
    abbrev pub tell : Error → Run FsmState Whole → Run FsmState Whole
    tell e r = record r { world = tell_failed (some e) r.world }

    unfoldable pub give_up : Fsm → Error → Exec (Run FsmState Whole) (Unit {0})
    give_up f e r =
        let (x, r1) = send f event_failed r in (err e, tell e (record r1 { state = state_failed }))

    abbrev pub succeed :
        Result (Unit {0}) × Run FsmState Whole → Result (Unit {0}) × Run FsmState Whole
    succeed (err e, r) = (err e, tell e r)
    succeed (ok u, r) = (ok tt, record r { state = state_finished })

    abbrev pub after_prepare :
        Fsm → Result (Unit {0}) × Run FsmState Whole → Result (Unit {0}) × Run FsmState Whole
    after_prepare f (err e, r) = give_up f e r
    after_prepare f (ok u, r) = succeed (send f event_success r)

    unfoldable pub start : Fsm → Exec (Run FsmState Whole) (Unit {0})
    start f r = after_prepare f (send f event_prepare (record r { state = state_running }))
