-- ===== src/Storage/Impl/Runs.antt =====
-- Calls of the storage one after another, as servers that share etcd make them.
use ceresmeta.Etcd.{Etcd, EtcdLaws}
use ceresmeta.Storage.{ClusterView, ShardView, Table}
use ceresmeta.Storage.Paths.{is_name}
use ceresmeta.Storage.Impl.{MetaStorageImpl}
use ceresmeta.Storage.Impl.Views.{CodecLaws}
use ceresmeta.Storage.Impl.Refine.{
  etcd_storage, update_shard_view-IsValid, update_cluster_view-IsValid,
}
use ceresmeta.Storage.Impl.Laws.{create_table_keeps}
use ceresmeta.Common.{nat_eq, ℕ, ◌≡◌, true, List, [], ◌∷◌, Bytes}

pub data Call : Type 0 where
  write_cluster_view : ℕ → ClusterView → ℕ → Call
  write_shard_view : ℕ → ShardView → ℕ → Call
  write_table : ℕ → ℕ → Table → Call

abbrev pub IsNamed : Call → Type 0
IsNamed (write_table c i table) = is_name table.name ≡ true
IsNamed _ = Unit

abbrev pub AllNamed : List Call → Type 0
AllNamed [] = Unit
AllNamed (x ∷ xs) = IsNamed x × AllNamed xs

module _ (e : Etcd) (laws : EtcdLaws e) (m : MetaStorageImpl) (codec : CodecLaws m) (c0 : ℕ)
    (root : Bytes) where
  abbrev pub call : Call → e.State → e.State
  call (write_cluster_view c v n) t =
      ((etcd_storage e laws m codec c0 root).update_cluster_view c v n t).1
  call (write_shard_view c v n) t =
      ((etcd_storage e laws m codec c0 root).update_shard_view c v n t).1
  call (write_table c i table) t =
      ((etcd_storage e laws m codec c0 root).create_table c i table t).1

  abbrev pub run : List Call → e.State → e.State
  run [] t = t
  run (x ∷ xs) t = run xs (call x t)

  call-IsValid :
      (a : Call) (t : e.State)
      → IsNamed a
      → (etcd_storage e laws m codec c0 root).IsValid t
      → (etcd_storage e laws m codec c0 root).IsValid (call a t)
  call-IsValid (write_cluster_view c v n) t h valid =
      update_cluster_view-IsValid e laws m codec c0 root c v n t valid
  call-IsValid (write_shard_view c v n) t h valid =
      update_shard_view-IsValid e laws m codec c0 root c v n t valid
  call-IsValid (write_table c i table) t h valid =
      create_table_keeps e laws m codec c0 root c i table t h valid

  -- Whatever the calls return, updates of views and creations of tables whose names are one part of a
  -- path keep a valid storage valid, in any order: a latest version names a view that is there.
  pub run-IsValid :
      (xs : List Call) (t : e.State)
      → AllNamed xs
      → (etcd_storage e laws m codec c0 root).IsValid t
      → (etcd_storage e laws m codec c0 root).IsValid (run xs t)
  run-IsValid [] t h valid = valid
  run-IsValid (x ∷ xs) t (h, hs) valid = run-IsValid xs (call x t) hs (call-IsValid x t h valid)
