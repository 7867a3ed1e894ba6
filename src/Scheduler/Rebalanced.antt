-- ===== src/Scheduler/Rebalanced.antt =====
-- server/coordinator/scheduler/rebalanced/scheduler.go: shards go to the nodes that the picker gives.
pub mod Bounds
use ceresmeta.Storage.{ClusterState, empty, stable, prepare, ShardNode, ShardView}
use ceresmeta.Topology.{Topology}
use ceresmeta.ClusterMetadata.{RegisteredNode}
use ceresmeta.Scheduler.{ShardAffinity, Snapshot, TransferLeaderRequest, Factory, batch_of}
use ceresmeta.Scheduler.NodePicker as NodePicker
use ceresmeta.Common.{
  leb, if◌then◌else◌, ◌==◌, nat_eq, length, elem, Map, lookup, insert, delete, Result, ok, err,
  Exec, ℕ, zero, suc, ◌+◌, Bool, true, false, Option, none, some, List, [], ◌∷◌, ◌++◌, map, text_eq,
  panicked,
}

pub record SchedulerImpl : Type 0 where
  pub procedure_executing_batch_size : ℕ
  pub latest_shard_node_mapping : Map ℕ RegisteredNode
  pub enable_schedule : Bool
  pub shard_affinity_rule : Map ℕ ShardAffinity

unfoldable pub new_shard_scheduler : ℕ → SchedulerImpl
new_shard_scheduler batch = record {
  procedure_executing_batch_size = batch;
  latest_shard_node_mapping = [];
  enable_schedule = false;
  shard_affinity_rule = [];
}

unfoldable pub update_enable_schedule : Bool → SchedulerImpl → SchedulerImpl
update_enable_schedule enable r = record r { enable_schedule = enable }

unfoldable pub add_rules : List ShardAffinity → Map ℕ ShardAffinity → Map ℕ ShardAffinity
unfolding insert
add_rules [] rules = rules
add_rules (a ∷ as') rules = add_rules as' (insert a.shard_id a rules)

unfoldable pub add_shard_affinity_rule : List ShardAffinity → SchedulerImpl → SchedulerImpl
unfolding add_rules
add_shard_affinity_rule affinities r = record r {
  shard_affinity_rule = add_rules affinities r.shard_affinity_rule;
}

unfoldable pub remove_shard_affinity_rule : ℕ → SchedulerImpl → SchedulerImpl
unfolding delete
remove_shard_affinity_rule k r = record r { shard_affinity_rule = delete k r.shard_affinity_rule }

unfoldable pub list_shard_affinity_rule : SchedulerImpl → List ShardAffinity
list_shard_affinity_rule r = map (λ e. e.1) r.shard_affinity_rule

module _
    (pick_node : NodePicker.Config
      → List ℕ
      → List RegisteredNode
      → Result (Map ℕ RegisteredNode)) where
  unfoldable pub generate_latest_shard_node_mapping :
      Snapshot → Exec SchedulerImpl (Map ℕ RegisteredNode)
  generate_latest_shard_node_mapping s r =
      let views = s.topology.shard_views_mapping in
      let config : NodePicker.Config = record {
        num_total_shards = length views;
        shard_affinity_rule = r.shard_affinity_rule;
      } in
      if r.enable_schedule
      then (ok r.latest_shard_node_mapping, r)
      else elim (pick_node config (map (λ v. v.0) views) s.registered_nodes) [
        | err e ↦ (err e, r)
        | ok mapping ↦ (ok mapping, record r { latest_shard_node_mapping = mapping })
      ]

  module _ {P : Type 0} (f : Factory P) where
    -- The loop over the shards that have a node: the procedures, and the shards that were assigned.
    unfoldable pub transfer_loop :
        ℕ → Map ℕ RegisteredNode → List ShardNode → List P → List ℕ → Result (List P × List ℕ)
    unfolding lookup
    transfer_loop batch mapping [] ps assigned = ok (ps, assigned)
    transfer_loop batch mapping (s ∷ ss) ps assigned =
        let same = transfer_loop batch mapping ss ps (s.id ∷ assigned) in
        let moved = λ (n : RegisteredNode).
          elim (f.create_transfer_leader (record {
            shard_id = s.id;
            old_leader_node_name = s.node_name;
            new_leader_node_name = n.node.name;
          }))
            as (λ _. Result (List P × List ℕ)) [
              | err e ↦ err e
              | ok p ↦ transfer_loop batch mapping ss (ps ++ p ∷ []) (s.id ∷ assigned)
            ] in
        let next : Result (List P × List ℕ) = elim (lookup s.id mapping) [
          | none ↦ err panicked
          | some n ↦ if n.node.name == s.node_name then same else moved n
        ] in
        if leb batch (length ps) then ok (ps, assigned) else next

    -- The loop over the ids of the shards, for so many from k on.
    unfoldable pub assign_loop :
        ℕ → Map ℕ RegisteredNode → List ℕ → ℕ → ℕ → List P → Result (List P)
    unfolding lookup
    assign_loop batch latest assigned k zero ps = ok ps
    assign_loop batch latest assigned k (suc n) ps =
        let skipped = assign_loop batch latest assigned (k + 1) n ps in
        let next : Result (List P) = elim (lookup k latest) [
          | none ↦ err panicked
          | some node ↦
              elim (f.create_transfer_leader (record {
                shard_id = k;
                old_leader_node_name = [];
                new_leader_node_name = node.node.name;
              })) [
                | err e ↦ err e
                | ok p ↦ assign_loop batch latest assigned (k + 1) n (ps ++ p ∷ [])
              ]
        ] in
        if leb batch (length ps) then ok ps else if elem k assigned then skipped else next

    abbrev pub is_empty : ClusterState → Bool
    is_empty empty = true
    is_empty _ = false

    -- `Schedule`; an error of the picker gives no procedure and no error.
    unfoldable pub schedule : Snapshot → Exec SchedulerImpl (Option P)
    schedule s r =
        let batch = r.procedure_executing_batch_size in
        let (picked, r') = generate_latest_shard_node_mapping s r in
        let chosen = λ (mapping : Map ℕ RegisteredNode).
          elim (transfer_loop batch mapping s.topology.cluster_view.shard_nodes [] [])
            as (λ _. Result (Option P)) [
              | err e ↦ err e
              | ok (ps, assigned) ↦
                  elim (assign_loop batch r'.latest_shard_node_mapping assigned 0
                    (length s.topology.shard_views_mapping) ps) [
                      | err e ↦ err e
                      | ok ps' ↦ batch_of f ps'
                    ]
            ] in
        if is_empty s.topology.cluster_view.state
        then (ok none, r)
        else elim picked [ err e ↦ (ok none, r') | ok mapping ↦ (chosen mapping, r') ]
