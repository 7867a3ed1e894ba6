-- ===== src/Procedure.antt =====
-- server/coordinator/procedure: procedure.go, the queue of waiting procedures and their manager.
pub mod Heap
pub mod Queue
pub mod Manager
pub mod System
pub mod Fsm
pub mod Calls
pub mod TransferLeader
pub mod Ddl
pub mod CreateTable
pub mod DropTable
pub mod Split
pub mod Store
pub mod CreatePartitionTable
pub mod DropPartitionTable
mod Tests
use ceresmeta.Common.{Map, ℕ}

pub data Kind : Type 0 where
  kind_create kind_delete kind_transfer_leader kind_migrate kind_split kind_merge kind_scatter :
      Kind
  kind_create_table kind_drop_table kind_create_partition_table kind_drop_partition_table : Kind

pub data State : Type 0 where
  state_init state_running state_finished state_failed state_cancelled : State

pub data Priority : Type 0 where
  priority_high priority_med priority_low : Priority

pub record RelatedVersionInfo : Type 0 where
  pub cluster_id : ℕ
  pub shard_with_version : Map ℕ ℕ
  pub cluster_version : ℕ

-- What the methods of the interface answer, but for the state and the effects of a run.
pub record Procedure : Type 0 where
  pub id : ℕ
  pub kind : Kind
  pub priority : Priority
  pub related_version_info : RelatedVersionInfo
