-- ===== src/Reopen.antt =====
-- server/coordinator/scheduler/reopen/scheduler.go: the shards that a node has opened partly are opened
-- again, by a batch of procedures.
pub mod Bounds
mod Tests
use ceresmeta.Storage.{ShardStatus, partial_open}
use ceresmeta.Topology.{Topology, is_stable}
use ceresmeta.ClusterMetadata.{ShardInfo, RegisteredNode, is_expired}
use ceresmeta.Common.{
  leb, if◌then◌else◌, nat_eq, length, Result, ok, err, ℕ, Bool, true, false, Option, none, some,
  List, [], ◌∷◌, ◌++◌, Bytes,
}

abbrev is_partial_open : ShardStatus → Bool
is_partial_open partial_open = true
is_partial_open _ = false

unfoldable pub need_reopen : ShardInfo → Bool
need_reopen i = is_partial_open i.status

-- The factory makes a procedure for a shard and a node name, and a batch out of procedures.
module _ {P : Type 0} (create_transfer : ℕ → Bytes → Result P)
    (create_batch : List P → Result P) where
  -- The loop over the shards of a node; the break leaves this loop only.
  unfoldable pub reopen_shards : ℕ → Bytes → List ShardInfo → List P → Result (List P)
  unfolding need_reopen
  reopen_shards batch name [] ps = ok ps
  reopen_shards batch name (i ∷ is) ps =
      let skipped = reopen_shards batch name is ps in
      let created : Result (List P) = elim (create_transfer i.id name) [
        | err e ↦ err e
        | ok p ↦
            let rest = reopen_shards batch name is (ps ++ p ∷ []) in
            if leb batch (length (ps ++ p ∷ [])) then ok (ps ++ p ∷ []) else rest
      ] in
      if need_reopen i then created else skipped

  -- The loop over the nodes.
  unfoldable pub reopen_nodes : ℕ → ℕ → List RegisteredNode → List P → Result (List P)
  unfolding is_expired reopen_shards
  reopen_nodes now batch [] ps = ok ps
  reopen_nodes now batch (n ∷ ns) ps =
      let skipped = reopen_nodes now batch ns ps in
      let opened : Result (List P) = elim (reopen_shards batch n.node.name n.shard_infos ps) [
        | err e ↦ err e
        | ok ps' ↦ reopen_nodes now batch ns ps'
      ] in
      if is_expired now n then skipped else opened

  abbrev batch_of : List P → Result (Option P)
  batch_of [] = ok none
  batch_of (p ∷ ps) = elim (create_batch (p ∷ ps)) [ err e ↦ err e | ok b ↦ ok (some b) ]

  -- `ok none` is no procedure.
  unfoldable pub schedule : ℕ → ℕ → Topology → List RegisteredNode → Result (Option P)
  unfolding is_stable reopen_nodes
  schedule now batch topology nodes =
      if is_stable topology
      then (elim (reopen_nodes now batch nodes []) [ err e ↦ err e | ok ps ↦ batch_of ps ])
      else ok none
