-- ===== src/Procedure/DropTable.antt =====
-- server/coordinator/procedure/ddl/droptable/drop_table.go.
pub mod Laws
pub mod Unassigned
mod Tests
use ceresmeta.Storage.{Table, ShardView, Storage}
use ceresmeta.Topology.{Topology}
use ceresmeta.TableManager.{IdAllocator, TableManagerImpl, get_table}
use ceresmeta.ClusterMetadata.{ShardVersionUpdate, drop_table}
use ceresmeta.ClusterMetadata.Routes.{TableInfo}
use ceresmeta.Procedure.{
  Procedure, Kind, kind_drop_table, State, state_init, state_running, state_finished, state_failed,
  Priority, priority_low, RelatedVersionInfo,
}
use ceresmeta.Procedure.Calls.{Dispatch}
use ceresmeta.Procedure.Ddl.{
  DropTableReq, Observer, build_related_version_info, Both, on_cluster, get_table_metadata,
  build_shard_version_update, drop_table_on_shard,
}
use ceresmeta.Procedure.Fsm.{Fsm, Run}
use ceresmeta.Common.{
  if◌then◌else◌, nat_eq, elem, Error, Result, ok, err, Exec, ◌>>=◌, ◌>>◌, ℕ, Bool, true, false,
  Option, none, some, List, [], ◌∷◌, shard_not_found, text_eq, panicked,
}

pub data FsmState : Type 0 where
  begin waiting finish failed : FsmState

pub data Event : Type 0 where
  event_prepare event_success event_failed : Event

unfoldable pub drop_table_events : Event → FsmState → Option FsmState
drop_table_events event_prepare begin = some waiting
drop_table_events event_success waiting = some finish
drop_table_events event_failed waiting = some failed
drop_table_events _ _ = none

pub record Params : Type 0 where
  pub id : ℕ
  pub topology : Topology
  pub source_req : DropTableReq

pub record DropTable : Type 0 where
  pub params : Params
  pub shard_id : ℕ
  pub related_version_info : RelatedVersionInfo
  pub state : State

-- The loops of `findShardID`.
unfoldable pub find_shard_id : ℕ → List (ℕ × ShardView) → Result ℕ
find_shard_id t [] = err shard_not_found
find_shard_id t ((k, v) ∷ vs) =
    let rest = find_shard_id t vs in if elem t v.table_ids then ok v.shard_id else rest

abbrev related : Params → ℕ → Result (Option DropTable)
related p k = elim (build_related_version_info p.topology k) [
  | err x ↦ err x
  | ok v ↦
      ok (some (record { params = p; shard_id = k; related_version_info = v; state = state_init }))
]

-- A table that is not there gives no procedure and no error.
unfoldable pub new_drop_table_procedure : Params → TableManagerImpl → Result (Option DropTable)
unfolding find_shard_id
new_drop_table_procedure p m = elim (get_table p.source_req.schema_name p.source_req.name m) [
  | err x ↦ err x
  | ok none ↦ ok none
  | ok (some t) ↦ elim (find_shard_id t.id p.topology.shard_views_mapping) [
    | err x ↦ err x
    | ok k ↦ related p k
  ]
]

abbrev pub to_procedure : DropTable → ceresmeta.Procedure.Procedure
to_procedure t = record {
  id = t.params.id;
  kind = kind_drop_table;
  priority = priority_low;
  related_version_info = t.related_version_info;
}

-- `droppedTable`
abbrev pub dropped : DropTable → Table → TableInfo
dropped p t = record {
  id = t.id;
  name = t.name;
  schema_id = t.schema_id;
  schema_name = p.params.source_req.schema_name;
  partition_info = t.partition_info;
  created_at = t.created_at;
}

module _ (s : Storage) (sa ta : IdAllocator) (d : Dispatch) (o : Observer TableInfo) where
  abbrev pub Whole : Type 0
  Whole = Both s sa ta d × (o.State × Option TableInfo)

  abbrev on_both : {A : Type 0} → Exec (Both s sa ta d) A → Exec Whole A
  on_both f (b, x) = let (r, b') = f b in (r, (b', x))

  abbrev set_dropped : TableInfo → Exec Whole (Unit {0})
  set_dropped r (b, (x, y)) = (ok tt, (b, (x, some r)))

  -- An error of the observer is only logged.
  abbrev pub tell_failed : Option Error → Whole → Whole
  tell_failed e (b, (x, y)) = (b, ((o.on_failed e x).1, y))

  abbrev tell_succeeded : TableInfo → Exec Whole (Unit {0})
  tell_succeeded r (b, (x, y)) = (ok tt, (b, ((o.on_succeeded r x).1, y)))

  module _ (now : ℕ) (p : DropTable) where
    abbrev pub drop_at : ShardVersionUpdate → Exec Whole (Unit {0})
    drop_at u = on_both (
        on_cluster s sa ta d (
          drop_table s sa ta now (record {
            schema_name = p.params.source_req.schema_name;
            table_name = p.params.source_req.name;
            shard_id = u.shard_id;
            latest_version = u.latest_version;
          })))

    -- With no shard, the update is that of shard 0 at version 0.
    abbrev pub drop_from : Table → ShardVersionUpdate × Bool → Exec Whole (Unit {0})
    drop_from t (u, false) = drop_at u
    drop_from t (u, true) = do
      v ← on_both (drop_table_on_shard s sa ta d p.params.source_req.schema_name t u)
      drop_at (record { shard_id = u.shard_id; latest_version = v })

    unfoldable pub prepare_callback : Exec Whole (Unit {0})
    prepare_callback = do
      t ←
          on_both
            (get_table_metadata s sa ta d p.params.source_req.schema_name p.params.source_req.name)
      set_dropped (dropped p t)
      u ← on_both (build_shard_version_update s sa ta d t p.related_version_info.shard_with_version)
      drop_from t u

    unfoldable pub success_callback : Exec Whole (Unit {0})
    success_callback w = elim w.1.1 [ none ↦ (err panicked, w) | some r ↦ tell_succeeded r w ]

    unfoldable pub failed_callback : Exec Whole (Unit {0})
    failed_callback w = (ok tt, tell_failed none w)

    unfoldable pub callbacks : Event → Exec Whole (Unit {0})
    callbacks event_prepare = prepare_callback
    callbacks event_success = success_callback
    callbacks event_failed = failed_callback

    unfoldable pub send : Fsm → Event → Exec (Run FsmState Whole) (Unit {0})
    send f e r =
        let ((x, c), w) = f.event drop_table_events callbacks e r.current r.world in
        (x, record { current = c; state = r.state; world = w })

    unfoldable pub give_up : Fsm → Error → Exec (Run FsmState Whole) (Unit {0})
    give_up f e r =
        let (x, r1) = send f event_failed r in (err e, record r1 { state = state_failed })

    abbrev pub succeed :
        Result (Unit {0}) × Run FsmState Whole → Result (Unit {0}) × Run FsmState Whole
    succeed (err e, r) = (err e, r)
    succeed (ok u, r) = (ok tt, record r { state = state_finished })

    abbrev pub after_prepare :
        Fsm → Result (Unit {0}) × Run FsmState Whole → Result (Unit {0}) × Run FsmState Whole
    after_prepare f (err e, r) = give_up f e r
    after_prepare f (ok u, r) = succeed (send f event_success r)

    unfoldable pub start : Fsm → Exec (Run FsmState Whole) (Unit {0})
    start f r = after_prepare f (send f event_prepare (record r { state = state_running }))
