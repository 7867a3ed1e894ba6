-- ===== src/Procedure/Split.antt =====
-- server/coordinator/procedure/operation/split/split.go.
pub mod Laws
mod Tests
use ceresmeta.Storage.{ShardNode, ShardRole, leader, status_unknown, stable, Storage}
use ceresmeta.Topology.{Topology, CreateShardView, is_state_stable}
use ceresmeta.Topology.Update as Topo
use ceresmeta.TableManager.{IdAllocator}
use ceresmeta.ClusterMetadata.{ShardInfo, MigrateTableRequest, World, migrate_table, on_topology}
use ceresmeta.Procedure.{
  Procedure, Kind, kind_split, State, state_init, Priority, priority_high, RelatedVersionInfo,
}
use ceresmeta.Procedure.Calls.{Dispatch, Meta, ProcedureStorage}
use ceresmeta.Procedure.Ddl.{is_leader, Both, on_cluster, on_nodes}
use ceresmeta.Procedure.Fsm.{Fsm, Run, Machine}
use ceresmeta.Procedure.Fsm as Loop
use ceresmeta.Common.{
  if◌then◌else◌, nat_eq, lookup, insert, Result, ok, err, Exec, pure, ℕ, Bool, true, false, ◌||◌,
  Option, none, some, List, [], ◌∷◌, shard_not_found, cluster_state_invalid, Bytes, text_eq,
  encode_failed, shard_leader_not_found,
}

pub data FsmState : Type 0 where
  begin create_new_shard_view update_shard_tables open_new_shard finish : FsmState

pub data Event : Type 0 where
  event_create_new_shard_view event_update_shard_tables event_open_new_shard event_finish : Event

unfoldable pub split_events : Event → FsmState → Option FsmState
split_events event_create_new_shard_view begin = some create_new_shard_view
split_events event_update_shard_tables create_new_shard_view = some update_shard_tables
split_events event_open_new_shard update_shard_tables = some open_new_shard
split_events event_finish open_new_shard = some finish
split_events _ _ = none

pub record Params : Type 0 where
  pub id : ℕ
  pub topology : Topology
  pub shard_id : ℕ
  pub new_shard_id : ℕ
  pub schema_name : Bytes
  pub table_names : List Bytes
  pub target_node_name : Bytes

pub record RawData : Type 0 where
  pub schema_name : Bytes
  pub table_names : List Bytes
  pub shard_id : ℕ
  pub new_shard_id : ℕ
  pub target_node_name : Bytes

-- The last loop of `validateClusterTopology`: a leader of any shard will do.
unfoldable pub has_leader : List ShardNode → Bool
has_leader [] = false
has_leader (n ∷ ns) = is_leader n.shard_role || has_leader ns

unfoldable pub validate_cluster_topology : Topology → ℕ → Result (Unit {0})
unfolding has_leader
validate_cluster_topology t k = elim (is_state_stable t.cluster_view.state) [
  | false ↦ err cluster_state_invalid
  | true ↦ elim (lookup k t.shard_views_mapping) [
    | none ↦ err shard_not_found
    | some v ↦ if has_leader t.cluster_view.shard_nodes then ok tt else err shard_leader_not_found
  ]
]

unfoldable pub build_related_version_info : Params → Result RelatedVersionInfo
build_related_version_info p = elim (lookup p.shard_id p.topology.shard_views_mapping) [
  | none ↦ err shard_not_found
  | some v ↦ ok (record {
    cluster_id = p.topology.cluster_view.cluster_id;
    shard_with_version = insert p.new_shard_id 0 ((p.shard_id, v.version) ∷ []);
    cluster_version = p.topology.cluster_view.version;
  })
]

pub record Split : Type 0 where
  pub params : Params
  pub related_version_info : RelatedVersionInfo
  pub state : State

unfoldable pub new_procedure : Params → Result Split
unfolding validate_cluster_topology build_related_version_info
new_procedure p = elim (validate_cluster_topology p.topology p.shard_id) [
  | err x ↦ err x
  | ok _ ↦ elim (build_related_version_info p) [
    | err x ↦ err x
    | ok v ↦ ok (record { params = p; related_version_info = v; state = state_init })
  ]
]

abbrev pub to_procedure : Split → ceresmeta.Procedure.Procedure
to_procedure t = record {
  id = t.params.id;
  kind = kind_split;
  priority = priority_high;
  related_version_info = t.related_version_info;
}

-- No version is given: both are zero.
abbrev pub migrate_request : Params → MigrateTableRequest
migrate_request p = record {
  schema_name = p.schema_name;
  table_names = p.table_names;
  old_shard_id = p.shard_id;
  latest_old_shard_version = 0;
  new_shard_id = p.new_shard_id;
  latest_new_shard_version = 0;
}

abbrev pub new_shard : Params → ShardInfo
new_shard p = record { id = p.new_shard_id; role = leader; version = 0; status = status_unknown }

module _ (s : Storage) (sa ta : IdAllocator) (d : Dispatch) (ps : ProcedureStorage)
    (marshal : RawData → Result Bytes) where
  -- The cluster and the nodes, and the stored procedures.
  abbrev pub Whole : Type 0
  Whole = Both s sa ta d × ps.Stored

  abbrev pub on_both : {A : Type 0} → Exec (Both s sa ta d) A → Exec Whole A
  on_both f (b, x) = let (r, b') = f b in (r, (b', x))

  abbrev pub on_storage : {A : Type 0} → Exec ps.Stored A → Exec Whole A
  on_storage f (b, x) = let (r, x') = f x in (r, (b, x'))

  unfoldable pub convert_to_meta : Params → State → Result Meta
  convert_to_meta p state =
      elim (marshal (record {
        schema_name = p.schema_name;
        table_names = p.table_names;
        shard_id = p.shard_id;
        new_shard_id = p.new_shard_id;
        target_node_name = p.target_node_name;
      })) [
        | err x ↦ err encode_failed
        | ok b ↦ ok (record { id = p.id; kind = kind_split; state = state; raw_data = b })
      ]

  unfoldable pub persist : Params → FsmState → State → Exec Whole (Unit {0})
  persist p c state w = elim (convert_to_meta p state) [
    | err x ↦ (err x, w)
    | ok m ↦ on_storage (ps.create_or_update m) w
  ]

  -- The times of the writes are `now` and `later`.
  module _ (now later : ℕ) (p : Params) where
    unfoldable pub create_shard_view_callback : Exec Whole (Unit {0})
    create_shard_view_callback = on_both (
        on_cluster s sa ta d (
          on_topology s sa ta (
            Topo.create_shard_views s now
              (record { shard_id = p.new_shard_id; tables = [] } ∷ []))))

    unfoldable pub update_shard_tables_callback : Exec Whole (Unit {0})
    update_shard_tables_callback =
        on_both (on_cluster s sa ta d (migrate_table s sa ta later (migrate_request p)))

    unfoldable pub open_shard_callback : Exec Whole (Unit {0})
    open_shard_callback =
        on_both (on_nodes s sa ta d (d.open_shard p.target_node_name (new_shard p)))

    unfoldable pub callbacks : Event → Exec Whole (Unit {0})
    callbacks event_create_new_shard_view = create_shard_view_callback
    callbacks event_update_shard_tables = update_shard_tables_callback
    callbacks event_open_new_shard = open_shard_callback
    callbacks event_finish = pure tt

    -- The cases of the loop of `Start`.
    abbrev pub switch : FsmState → Option Event
    switch begin = some event_create_new_shard_view
    switch create_new_shard_view = some event_update_shard_tables
    switch update_shard_tables = some event_open_new_shard
    switch open_new_shard = some event_finish
    switch finish = none

    abbrev pub machine : Machine Event FsmState Whole
    machine = record {
      events = split_events;
      callbacks = callbacks;
      switch = switch;
      persist = persist p;
      on_failed = λ x w. w;
    }

    unfoldable pub start : Fsm → Exec (Run FsmState Whole) (Unit {0})
    start f = Loop.start f machine 5
