-- ===== src/Storage/Impl/Tests.antt =====
-- The properties of the storage over etcd on the store in memory, with codecs that keep the fields.
use ceresmeta.Etcd.Memory.{memory_etcd, memory_etcd_laws}
use ceresmeta.Storage.{ClusterView, empty, stable, prepare, ShardView, StorageLaws}
use ceresmeta.Storage.Impl.{Codec, MetaStorageImpl}
use ceresmeta.Storage.Impl.Views.{CodecLaws}
use ceresmeta.Storage.Impl.Refine.{etcd_storage}
use ceresmeta.Storage.Impl.Laws.{etcd_storage_laws}
use ceresmeta.Storage.Impl.Runs.{write_cluster_view, write_shard_view, run, run-IsValid}
use ceresmeta.Common.{nat_eq, Option, none, some, [], ◌∷◌, arith, Bytes}

abbrev nothing : {A : Type 0} → Codec A
nothing = record { marshal = λ a. none; unmarshal = λ b. none }

-- The views without nodes.
abbrev marshal_view : ClusterView → Option Bytes
marshal_view v = elim v.shard_nodes [
  | n ∷ ns ↦ none
  | [] ↦ elim v.state [
    | stable ↦ some (v.cluster_id ∷ v.version ∷ v.created_at ∷ [])
    | empty ↦ none
    | prepare ↦ none
  ]
]

abbrev unmarshal_view : Bytes → Option ClusterView
unmarshal_view (c ∷ n ∷ t ∷ []) =
    some (record { cluster_id = c; version = n; state = stable; shard_nodes = []; created_at = t })
unmarshal_view _ = none

abbrev unmarshal_shard : Bytes → Option ShardView
unmarshal_shard (k ∷ n ∷ t ∷ ids) =
    some (record { shard_id = k; version = n; table_ids = ids; created_at = t })
unmarshal_shard _ = none

abbrev parts : MetaStorageImpl
parts = record {
  cluster = nothing;
  cluster_view = record { marshal = marshal_view; unmarshal = unmarshal_view };
  schema = nothing;
  table = nothing;
  shard_view = record {
    marshal = λ v. some (v.shard_id ∷ v.version ∷ v.created_at ∷ v.table_ids);
    unmarshal = unmarshal_shard;
  };
  node = nothing;
  root_path = [];
  max_scan_limit = 100;
  max_ops_per_txn = 2;
  scan_rounds = 3;
}

parts_laws : CodecLaws parts
parts_laws = record {
  cluster_view_back = λ v b h. ground arith;
  shard_view_back = λ v b h. ground arith;
}

etcd_storage_laws_example :
    StorageLaws (etcd_storage memory_etcd memory_etcd_laws parts parts_laws b'/' (b'm' ∷ []))
etcd_storage_laws_example =
    etcd_storage_laws memory_etcd memory_etcd_laws parts parts_laws b'/' (b'm' ∷ [])

abbrev view : ClusterView
view = record { cluster_id = 1; version = 4; state = stable; shard_nodes = []; created_at = 0 }

abbrev shard : ShardView
shard = record { shard_id = 5; version = 8; table_ids = 1 ∷ 2 ∷ []; created_at = 0 }

run-IsValid_example :
    (etcd_storage memory_etcd memory_etcd_laws parts parts_laws b'/' (b'm' ∷ [])).IsValid (
      run memory_etcd memory_etcd_laws parts parts_laws b'/'
        (b'm' ∷ [])
        (write_shard_view 1 shard 7 ∷ write_cluster_view 1 view 3 ∷ [])
        (λ k. none))
run-IsValid_example =
    run-IsValid memory_etcd memory_etcd_laws parts parts_laws b'/' (b'm' ∷ [])
      (write_shard_view 1 shard 7 ∷ write_cluster_view 1 view 3 ∷ []) (λ k. none) (tt, (tt, tt))
      ((λ a w h. absurd (cc)), (λ a k w h. absurd (cc)))
