-- ===== src/Procedure/Calls.antt =====
-- server/coordinator/eventdispatch/dispatch.go: the calls to the nodes of a cluster, and
-- server/coordinator/procedure/storage.go: the storage of procedures, as interfaces.
use ceresmeta.Procedure.{Kind, State}
use ceresmeta.ClusterMetadata.{ShardInfo}
use ceresmeta.ClusterMetadata.Routes.{TableInfo}
use ceresmeta.Common.{nat_eq, Map, Result, ok, ℕ, ◌≡◌, ◌⊎◌, Bool, true, false, Bytes, text_eq}

pub record CreateTableOnShardRequest : Type 0 where
  pub curr_shard_info : ShardInfo
  pub table_info : TableInfo
  pub encoded_schema : Bytes
  pub engine : Bytes
  pub create_if_not_exist : Bool
  pub options : Map Bytes Bytes

pub record DropTableOnShardRequest : Type 0 where
  pub curr_shard_info : ShardInfo
  pub table_info : TableInfo

-- The calls that the procedures make: `State` is what the nodes hold.
pub record Dispatch : Type 1 where
  pub State : Type 0
  pub open_shard : Bytes → ShardInfo → State → Result (Unit {0}) × State
  pub close_shard : Bytes → ℕ → State → Result (Unit {0}) × State
  pub create_table_on_shard : Bytes → CreateTableOnShardRequest → State → Result ℕ × State
  pub drop_table_on_shard : Bytes → DropTableOnShardRequest → State → Result ℕ × State
  -- Whether a node has a shard open, which only the laws speak of.
  pub serves : State → Bytes → ℕ → Bool

-- A call changes the shard it names at the node it names, and may have done so when it fails; a node
-- that has closed a shard does not have it open.
pub record DispatchLaws (d : Dispatch) : Type 0 where
  pub close_shard_ok :
      (a : Bytes) (k : ℕ) (s : d.State)
      → (d.close_shard a k s).0 ≡ ok tt
      → d.serves (d.close_shard a k s).1 a k ≡ false
  pub close_shard_opens_none :
      (a b : Bytes) (k j : ℕ) (s : d.State)
      → d.serves (d.close_shard a k s).1 b j ≡ true
      → d.serves s b j ≡ true
  pub open_shard_ok :
      (a : Bytes) (i : ShardInfo) (s : d.State)
      → (d.open_shard a i s).0 ≡ ok tt
      → d.serves (d.open_shard a i s).1 a i.id ≡ true
  pub open_shard_opens_one :
      (a b : Bytes) (i : ShardInfo) (j : ℕ) (s : d.State)
      → d.serves (d.open_shard a i s).1 b j ≡ true
      → (d.serves s b j ≡ true) ⊎ ((b ≡ a) × (j ≡ i.id))

pub record Meta : Type 0 where
  pub id : ℕ
  pub kind : Kind
  pub state : State
  pub raw_data : Bytes

-- The write that the procedures make.
pub record ProcedureStorage : Type 1 where
  pub Stored : Type 0
  pub create_or_update : Meta → Stored → Result (Unit {0}) × Stored
