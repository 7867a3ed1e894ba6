-- ===== src/Scheduler.antt =====
-- server/coordinator/scheduler: what the schedulers share, from scheduler.go, and the procedures that
-- they ask the factory for.
pub mod NodePicker
pub mod Static
pub mod Rebalanced
pub mod ShardPicker
mod Tests
use ceresmeta.Topology.{Topology}
use ceresmeta.ClusterMetadata.{RegisteredNode}
use ceresmeta.Common.{nat_eq, Result, ok, err, ℕ, Option, none, some, List, [], ◌∷◌, Bytes}

pub record ShardAffinity : Type 0 where
  pub shard_id : ℕ
  pub num_allowed_other_shards : ℕ

-- The part of a snapshot that the schedulers read.
pub record Snapshot : Type 0 where
  pub topology : Topology
  pub registered_nodes : List RegisteredNode

pub record TransferLeaderRequest : Type 0 where
  pub shard_id : ℕ
  pub old_leader_node_name : Bytes
  pub new_leader_node_name : Bytes

-- The two constructors of the factory.
pub record Factory (P : Type 0) : Type 0 where
  pub create_transfer_leader : TransferLeaderRequest → Result P
  pub create_batch_transfer_leader : List P → Result P

-- The end of a schedule: no procedure, or a batch.
abbrev pub batch_of : {P : Type 0} → Factory P → List P → Result (Option P)
batch_of f [] = ok none
batch_of f (p ∷ ps) = elim (f.create_batch_transfer_leader (p ∷ ps)) [
  | err e ↦ err e
  | ok b ↦ ok (some b)
]
