-- ===== src/Reopen/Bounds.antt =====
-- How many procedures the reopen scheduler makes.
use ceresmeta.ClusterMetadata.{ShardInfo, RegisteredNode, is_expired}
use ceresmeta.Reopen.{need_reopen, reopen_shards, reopen_nodes}
use ceresmeta.Common.{
  leb, if◌then◌else◌, nat_eq, Bool-cases, length, length-append, Result, ok, ℕ, ◌+◌, ◌≤◌, ◌≡◌, inl,
  inr, List, [], ◌∷◌, ◌++◌, arith, Bytes, Result-cases,
}

abbrev pub larger : ℕ → ℕ → ℕ
larger a b = if leb a b then b else a

module _ {P : Type 0} (create_transfer : ℕ → Bytes → Result P)
    (create_batch : List P → Result P) where
  reopen_shards-length :
      (batch : ℕ) (name : Bytes) (is : List ShardInfo) (ps qs : List P)
      → reopen_shards create_transfer create_batch batch name is ps ≡ ok qs
      → length qs ≤ larger batch (length ps + 1)
  unfolding reopen_shards
  reopen_shards-length batch name [] ps qs h = ground arith
  reopen_shards-length batch name (i ∷ is) ps qs h = elim (Bool-cases (need_reopen i)) [
    | inr e ↦ reopen_shards-length batch name is ps qs (rw e at h)
    | inl e ↦ elim (Result-cases (create_transfer i.id name)) [
      | inr (x, c) ↦ absurd (ground arith)
      | inl (p, c) ↦
          ground
            (arith, length-append ps (p ∷ []), reopen_shards-length batch name is (ps ++ p ∷ []) qs)
    ]
  ]

  -- The procedures after the loop over the nodes are at most as many as the nodes and the larger of the
  -- batch size and the number of procedures before the loop, together.
  pub reopen_nodes-length :
      (now batch : ℕ) (ns : List RegisteredNode) (ps qs : List P)
      → reopen_nodes create_transfer create_batch now batch ns ps ≡ ok qs
      → length qs ≤ larger batch (length ps) + length ns
  unfolding reopen_nodes
  reopen_nodes-length now batch [] ps qs h = ground arith
  reopen_nodes-length now batch (n ∷ ns) ps qs h = elim (Bool-cases (is_expired now n)) [
    | inl e ↦ ground (arith, reopen_nodes-length now batch ns ps qs)
    | inr e ↦
        elim (Result-cases
          (reopen_shards create_transfer create_batch batch n.node.name n.shard_infos ps)) [
            | inr (x, c) ↦ absurd (ground arith)
            | inl (rs, c) ↦ ground (
              arith,
              reopen_shards-length batch n.node.name n.shard_infos ps rs c,
              reopen_nodes-length now batch ns rs qs,
            )
          ]
  ]
