-- ===== src/Procedure/TransferLeader.antt =====
-- server/coordinator/procedure/operation/transferleader/transfer_leader.go.
pub mod Laws
pub mod Batch
mod Tests
use ceresmeta.Storage.{ShardNode, leader, status_unknown}
use ceresmeta.Topology.{Topology}
use ceresmeta.ClusterMetadata.{ShardInfo}
use ceresmeta.Procedure.{
  Kind, kind_transfer_leader, State, state_init, Priority, priority_high, RelatedVersionInfo,
}
use ceresmeta.Procedure.Calls.{Dispatch, Meta, ProcedureStorage}
use ceresmeta.Procedure.Fsm.{Fsm, Run, Machine}
use ceresmeta.Procedure.Fsm as Loop
use ceresmeta.Common.{
  if◌then◌else◌, ◌==◌, nat_eq, lookup, Result, ok, err, Exec, pure, raise, ℕ, ◌&&◌, not, Option,
  none, some, List, [], ◌∷◌, shard_not_found, node_not_found, Bytes, text_eq, encode_failed,
}

pub data FsmState : Type 0 where
  begin close_old_leader open_new_leader finish : FsmState

pub data Event : Type 0 where
  event_close_old_leader event_open_new_leader event_finish : Event

unfoldable pub transfer_leader_events : Event → FsmState → Option FsmState
transfer_leader_events event_close_old_leader begin = some close_old_leader
transfer_leader_events event_open_new_leader close_old_leader = some open_new_leader
transfer_leader_events event_finish open_new_leader = some finish
transfer_leader_events _ _ = none

pub record Params : Type 0 where
  pub id : ℕ
  pub topology : Topology
  pub shard_id : ℕ
  pub old_leader_node_name : Bytes
  pub new_leader_node_name : Bytes

-- What is marshalled: the snapshot's field is not exported, so it is left out.
pub record RawData : Type 0 where
  pub id : ℕ
  pub fsm_state : FsmState
  pub state : State
  pub shard_id : ℕ
  pub old_leader_node_name : Bytes
  pub new_leader_node_name : Bytes

-- The loop of `validateClusterTopology`.
unfoldable pub check_leaders : ℕ → Bytes → List ShardNode → Result (Unit {0})
check_leaders k old [] = ok tt
check_leaders k old (n ∷ ns) =
    let rest = check_leaders k old ns in
    if n.id == k && not (n.node_name == old) then err node_not_found else rest

abbrev check_nodes : ℕ → Bytes → List ShardNode → Result (Unit {0})
check_nodes k old [] = err shard_not_found
check_nodes k old (n ∷ ns) = check_leaders k old (n ∷ ns)

unfoldable pub validate_cluster_topology : Topology → ℕ → Bytes → Result (Unit {0})
unfolding lookup check_leaders
validate_cluster_topology t k old = elim (lookup k t.shard_views_mapping) [
  | none ↦ err shard_not_found
  | some v ↦ if old == [] then ok tt else check_nodes k old t.cluster_view.shard_nodes
]

unfoldable pub build_related_version_info : Topology → ℕ → Result RelatedVersionInfo
unfolding lookup
build_related_version_info t k = elim (lookup k t.shard_views_mapping) [
  | none ↦ err shard_not_found
  | some v ↦ ok (record {
    cluster_id = t.cluster_view.cluster_id;
    shard_with_version = (k, v.version) ∷ [];
    cluster_version = t.cluster_view.version;
  })
]

-- The answers of a new procedure.
pub record TransferLeader : Type 0 where
  pub params : Params
  pub related_version_info : RelatedVersionInfo
  pub state : State

unfoldable pub new_procedure : Params → Result TransferLeader
unfolding validate_cluster_topology build_related_version_info
new_procedure p = elim (validate_cluster_topology p.topology p.shard_id p.old_leader_node_name) [
  | err x ↦ err x
  | ok _ ↦ elim (build_related_version_info p.topology p.shard_id) [
    | err x ↦ err x
    | ok v ↦ ok (record { params = p; related_version_info = v; state = state_init })
  ]
]

-- `ID`, `Kind`, `Priority` and `RelatedVersionInfo`
abbrev pub to_procedure : TransferLeader → ceresmeta.Procedure.Procedure
to_procedure t = record {
  id = t.params.id;
  kind = kind_transfer_leader;
  priority = priority_high;
  related_version_info = t.related_version_info;
}

-- The encoder of the raw data is a parameter.
module _ (d : Dispatch) (s : ProcedureStorage) (marshal : RawData → Result Bytes) where
  abbrev pub World : Type 0
  World = d.State × s.Stored

  abbrev pub on_nodes : {A : Type 0} → Exec d.State A → Exec World A
  on_nodes f (n, p) = let (r, n') = f n in (r, (n', p))

  abbrev pub on_storage : {A : Type 0} → Exec s.Stored A → Exec World A
  on_storage f (n, p) = let (r, p') = f p in (r, (n, p'))

  unfoldable pub convert_to_meta : Params → FsmState → State → Result Meta
  convert_to_meta p f state =
      elim (marshal (record {
        id = p.id;
        fsm_state = f;
        state = state;
        shard_id = p.shard_id;
        old_leader_node_name = p.old_leader_node_name;
        new_leader_node_name = p.new_leader_node_name;
      })) [
        | err x ↦ err encode_failed
        | ok b ↦ ok (record { id = p.id; kind = kind_transfer_leader; state = state; raw_data = b })
      ]

  unfoldable pub persist : Params → FsmState → State → Exec World (Unit {0})
  unfolding convert_to_meta
  persist p f state w = elim (convert_to_meta p f state) [
    | err x ↦ (err x, w)
    | ok m ↦ on_storage (s.create_or_update m) w
  ]

  unfoldable pub close_old_leader_callback : Params → Exec World (Unit {0})
  close_old_leader_callback p =
      if p.old_leader_node_name == []
      then pure tt
      else on_nodes (d.close_shard p.old_leader_node_name p.shard_id)

  unfoldable pub open_new_shard_callback : Params → Exec World (Unit {0})
  open_new_shard_callback p = elim (lookup p.shard_id p.topology.shard_views_mapping) [
    | none ↦ raise shard_not_found
    | some v ↦ on_nodes (
        d.open_shard p.new_leader_node_name
          (record { id = p.shard_id; role = leader; version = v.version; status = status_unknown }))
  ]

  unfoldable pub callbacks : Params → Event → Exec World (Unit {0})
  unfolding close_old_leader_callback open_new_shard_callback
  callbacks p event_close_old_leader = close_old_leader_callback p
  callbacks p event_open_new_leader = open_new_shard_callback p
  callbacks p event_finish = pure tt

  -- The cases of the loop of `Start`.
  abbrev pub switch : FsmState → Option Event
  switch begin = some event_close_old_leader
  switch close_old_leader = some event_open_new_leader
  switch open_new_leader = some event_finish
  switch finish = none

  abbrev pub machine : Params → Machine Event FsmState World
  machine p = record {
    events = transfer_leader_events;
    callbacks = callbacks p;
    switch = switch;
    persist = persist p;
    on_failed = λ x w. w;
  }

  unfoldable pub start : Fsm → Params → Exec (Run FsmState World) (Unit {0})
  unfolding callbacks persist transfer_leader_events
  start f p = Loop.start f (machine p) 4
