-- ===== src/Scheduler/Static.antt =====
-- server/coordinator/scheduler/static/scheduler.go: shards are assigned once, and reopened on their nodes.
use ceresmeta.Storage.{ClusterState, empty, stable, prepare, ShardNode, ShardView}
use ceresmeta.ClusterMetadata.{ShardInfo, RegisteredNode, is_expired}
use ceresmeta.Scheduler.{Snapshot, Factory, batch_of}
use ceresmeta.Scheduler.NodePicker as NodePicker
use ceresmeta.Common.{
  ltb, leb, if◌then◌else◌, ◌==◌, nat_eq, length, get_elem?, Map, Result, ok, err, ℕ, zero, suc, ◌+◌,
  ◌/◌, Bool, false, ◌||◌, Option, none, some, List, [], ◌∷◌, ◌++◌, node_not_found, Bytes, text_eq,
}

unfoldable pub find_online_node_by_name : ℕ → Bytes → List RegisteredNode → Result RegisteredNode
unfolding is_expired
find_online_node_by_name now name [] = err node_not_found
find_online_node_by_name now name (n ∷ ns) =
    let rest = find_online_node_by_name now name ns in
    if is_expired now n then rest else if n.node.name == name then ok n else rest

unfoldable pub contains_shard : List ShardInfo → ℕ → Bool
contains_shard [] k = false
contains_shard (i ∷ is) k = i.id == k || contains_shard is k

-- `slices.BinarySearchFunc`: the first index whose shard is not before k, by halving `lo` to `hi`, which
-- come closer with each round.
unfoldable pub search : ℕ → List ShardNode → ℕ → ℕ → ℕ → ℕ
search zero nodes k lo hi = lo
search (suc rounds) nodes k lo hi =
    let mid = (lo + hi) / 2 in
    let before : Bool = elim (get_elem? nodes mid) [ none ↦ false | some n ↦ ltb n.id k ] in
    let right = search rounds nodes k (mid + 1) hi in
    let left = search rounds nodes k lo mid in
    if leb hi lo then lo else if before then right else left

unfoldable pub find_node_by_shard : ℕ → List ShardNode → Option ShardNode
unfolding search
find_node_by_shard k nodes =
    elim (get_elem? nodes (search (length nodes) nodes k 0 (length nodes))) [
      | none ↦ none
      | some n ↦ if n.id == k then some n else none
    ]

unfoldable pub unassigned : List (ℕ × ShardView) → List ShardNode → List ℕ
unfolding find_node_by_shard
unassigned [] nodes = []
unassigned ((j, v) ∷ views) nodes =
    let rest = unassigned views nodes in
    elim (find_node_by_shard v.shard_id nodes) [ some _ ↦ rest | none ↦ v.shard_id ∷ rest ]

module _ {P : Type 0} (f : Factory P) (batch : ℕ) where
  abbrev pub open_on : ℕ → RegisteredNode → Result P
  open_on k n =
      f.create_transfer_leader
        (record { shard_id = k; old_leader_node_name = []; new_leader_node_name = n.node.name })

  -- The loop over the mapping of a cluster that is prepared.
  unfoldable pub assign_loop : List (ℕ × RegisteredNode) → List P → Result (List P)
  assign_loop [] ps = ok ps
  assign_loop ((k, n) ∷ ns) ps = elim (open_on k n) [
    | err e ↦ err e
    | ok p ↦
        let rest = assign_loop ns (ps ++ p ∷ []) in
        if leb batch (length (ps ++ p ∷ [])) then ok (ps ++ p ∷ []) else rest
  ]

  -- The loop over the shards of a stable cluster.
  unfoldable pub recover_loop : ℕ → List RegisteredNode → List ShardNode → List P → Result (List P)
  unfolding find_online_node_by_name contains_shard
  recover_loop now registered [] ps = ok ps
  recover_loop now registered (s ∷ ss) ps =
      let skipped = recover_loop now registered ss ps in
      elim (find_online_node_by_name now s.node_name registered) [
        | err e ↦ skipped
        | ok n ↦
            let opened : Result (List P) = elim (open_on s.id n) [
              | err e ↦ err e
              | ok p ↦
                  let rest = recover_loop now registered ss (ps ++ p ∷ []) in
                  if leb batch (length (ps ++ p ∷ [])) then ok (ps ++ p ∷ []) else rest
            ] in
            if contains_shard n.shard_infos s.id then skipped else opened
      ]

  -- `Schedule`, over the node picker.
  module _
      (pick_node : NodePicker.Config
        → List ℕ
        → List RegisteredNode
        → Result (Map ℕ RegisteredNode)) where
    unfoldable pub procedures_of : ℕ → ClusterState → Snapshot → Result (List P)
    unfolding unassigned assign_loop recover_loop
    procedures_of now empty s = ok []
    procedures_of now prepare s =
        let views = s.topology.shard_views_mapping in
        let config : NodePicker.Config = record {
          num_total_shards = length views;
          shard_affinity_rule = [];
        } in
        elim (pick_node config (unassigned views s.topology.cluster_view.shard_nodes)
          s.registered_nodes) [ err e ↦ err e | ok mapping ↦ assign_loop mapping [] ]
    procedures_of now stable s =
        recover_loop now s.registered_nodes s.topology.cluster_view.shard_nodes []

    unfoldable pub schedule : ℕ → Snapshot → Result (Option P)
    unfolding procedures_of
    schedule now s = elim (procedures_of now s.topology.cluster_view.state s) [
      | err e ↦ err e
      | ok ps ↦ batch_of f ps
    ]
