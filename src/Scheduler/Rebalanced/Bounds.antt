-- ===== src/Scheduler/Rebalanced/Bounds.antt =====
-- How many procedures the rebalanced scheduler makes.
use ceresmeta.Storage.{ShardNode}
use ceresmeta.ClusterMetadata.{RegisteredNode}
use ceresmeta.Scheduler.{Snapshot, TransferLeaderRequest, Factory, batch_of}
use ceresmeta.Scheduler.NodePicker as NodePicker
use ceresmeta.Scheduler.Rebalanced.{
  SchedulerImpl, generate_latest_shard_node_mapping, transfer_loop, assign_loop, is_empty, schedule,
}
use ceresmeta.Common.{
  leb, ◌==◌, nat_eq, Bool-cases, Option-cases, length, length-append, elem, Map, lookup, Result, ok,
  ℕ, zero, suc, ◌+◌, ◌≤◌, ◌≡◌, inl, inr, some, List, [], ◌∷◌, ◌++◌, arith, text_eq, Result-cases,
}

module _
    (pick_node : NodePicker.Config → List ℕ → List RegisteredNode → Result (Map ℕ RegisteredNode))
    {P : Type 0} (f : Factory P) where
  transfer_loop-length :
      (batch : ℕ) (mapping : Map ℕ RegisteredNode) (ss : List ShardNode) (ps : List P)
      (assigned : List ℕ) (ps' : List P) (assigned' : List ℕ)
      → length ps ≤ batch
      → transfer_loop pick_node f batch mapping ss ps assigned ≡ ok (ps', assigned')
      → length ps' ≤ batch
  unfolding transfer_loop
  transfer_loop-length batch mapping [] ps assigned ps' assigned' h e = ground (arith, h, e)
  transfer_loop-length batch mapping (s ∷ ss) ps assigned ps' assigned' h e =
      elim (Bool-cases (leb batch (length ps))) [
        | inl p ↦ ground (arith, h, e, p)
        | inr p ↦ elim (Option-cases (lookup s.id mapping)) [
          | inl q ↦ absurd (cc (rw (p, q, transfer_loop) at e))
          | inr (n, q) ↦ elim (Bool-cases (n.node.name == s.node_name)) [
            | inl r ↦
                transfer_loop-length batch mapping ss ps (s.id ∷ assigned) ps' assigned' h
                  (rw (p, q, r, transfer_loop) at e)
            | inr r ↦
                let req : TransferLeaderRequest = record {
                  shard_id = s.id;
                  old_leader_node_name = s.node_name;
                  new_leader_node_name = n.node.name;
                } in
                elim (Result-cases (f.create_transfer_leader req)) [
                  | inr (x, t) ↦ absurd (cc (rw (p, q, r, t, transfer_loop) at e))
                  | inl (made, t) ↦
                      transfer_loop-length batch mapping ss (ps ++ made ∷ []) (s.id ∷ assigned) ps'
                        assigned' (ground (arith, p, length-append ps (made ∷ [])))
                        (rw (p, q, r, t, transfer_loop) at e)
                ]
          ]
        ]
      ]

  assign_loop-length :
      (batch : ℕ) (latest : Map ℕ RegisteredNode) (assigned : List ℕ) (k n : ℕ) (ps ps' : List P)
      → length ps ≤ batch
      → assign_loop pick_node f batch latest assigned k n ps ≡ ok ps'
      → length ps' ≤ batch
  unfolding assign_loop
  assign_loop-length batch latest assigned k zero ps ps' h e = ground (arith, h, e)
  assign_loop-length batch latest assigned k (suc n) ps ps' h e =
      elim (Bool-cases (leb batch (length ps))) [
        | inl p ↦ ground (arith, h, e, p)
        | inr p ↦ elim (Bool-cases (elem k assigned)) [
          | inl q ↦
              assign_loop-length batch latest assigned (k + 1) n ps ps' h
                (rw (p, q, assign_loop) at e)
          | inr q ↦ elim (Option-cases (lookup k latest)) [
            | inl r ↦ absurd (cc (rw (p, q, r, assign_loop) at e))
            | inr (node, r) ↦
                let req : TransferLeaderRequest = record {
                  shard_id = k;
                  old_leader_node_name = [];
                  new_leader_node_name = node.node.name;
                } in
                elim (Result-cases (f.create_transfer_leader req)) [
                  | inr (x, t) ↦ absurd (cc (rw (p, q, r, t, assign_loop) at e))
                  | inl (made, t) ↦
                      assign_loop-length batch latest assigned (k + 1) n (ps ++ made ∷ []) ps'
                        (ground (arith, p, length-append ps (made ∷ [])))
                        (rw (p, q, r, t, assign_loop) at e)
                ]
          ]
        ]
      ]

  batch_cases :
      (ps : List P) (b : P) → batch_of f ps ≡ ok (some b) → f.create_batch_transfer_leader ps ≡ ok b
  batch_cases [] b h = absurd (cc)
  batch_cases (p ∷ ps) b h = elim (Result-cases (f.create_batch_transfer_leader (p ∷ ps))) [
    | inl (c, e) ↦ ground (arith, h, e)
    | inr (x, e) ↦ absurd (cc (rw (e, batch_of) at h))
  ]

  -- A batch that the rebalanced scheduler gives is made of procedures that are at most as many as the
  -- batch size.
  pub schedule-batch :
      (s : Snapshot) (r : SchedulerImpl) (b : P)
      → (schedule pick_node f s r).0 ≡ ok (some b)
      → (ps : List P) × (f.create_batch_transfer_leader ps ≡ ok b)
        × (length ps ≤ r.procedure_executing_batch_size)
  unfolding schedule
  schedule-batch s r b h =
      let batch = r.procedure_executing_batch_size in
      let (picked, r') = generate_latest_shard_node_mapping pick_node s r in
      let nodes = s.topology.cluster_view.shard_nodes in
      let views = s.topology.shard_views_mapping in
      elim (Bool-cases (is_empty pick_node f s.topology.cluster_view.state)) [
        | inl p ↦ absurd (cc (rw (p, schedule) at h))
        | inr p ↦ elim (Result-cases picked) [
          | inr (x, q) ↦ absurd (cc (rw (p, q, schedule) at h))
          | inl (mapping, q) ↦
              elim (Result-cases (transfer_loop pick_node f batch mapping nodes [] [])) [
                | inr (x, t) ↦ absurd (cc (rw (p, q, t, schedule) at h))
                | inl ((ps, assigned), t) ↦
                    let short =
                      transfer_loop-length batch mapping nodes [] [] ps assigned (omega arith) t in
                    elim (Result-cases (
                      assign_loop pick_node f batch r'.latest_shard_node_mapping assigned 0
                        (length views) ps)) [
                          | inr (x, a) ↦ absurd (cc (rw (p, q, t, a, schedule) at h))
                          | inl (ps', a) ↦ (
                            ps',
                            batch_cases ps' b (rw (p, q, t, a, schedule) at h),
                            assign_loop-length batch r'.latest_shard_node_mapping assigned 0
                                (length views) ps ps' short a,
                          )
                        ]
              ]
        ]
      ]
