-- ===== src/Procedure/Store.antt =====
-- server/coordinator/procedure/storage_impl.go: the procedures in etcd. A codec stands for
-- encoding/json.
pub mod Keys
pub mod Laws
pub mod Deletes
mod Tests
use ceresmeta.Etcd.{Etcd, key_exists, put, del}
use ceresmeta.EtcdUtil.{get_value, scan}
use ceresmeta.Id.Codec.{encode_id}
use ceresmeta.Storage.Paths.{path_join}
use ceresmeta.Storage.KeyPath.{codes, fmt_id}
use ceresmeta.Storage.Impl.{Codec}
use ceresmeta.Procedure.{
  Kind, kind_create, kind_delete, kind_transfer_leader, kind_migrate, kind_split, kind_merge,
  kind_scatter, kind_create_table, kind_drop_table, kind_create_partition_table,
  kind_drop_partition_table,
}
use ceresmeta.Procedure.Calls.{Meta}
use ceresmeta.Common.{
  if◌then◌else◌, nat_eq, Result, ok, Exec, pure, ◌>>=◌, ◌>>◌, need, ℕ, ◌-◌, ◌^◌, Bool, true, false,
  List, [], ◌∷◌, Bytes, ℤ, encode_failed,
}

-- The number of a kind.
abbrev pub kind_number : Kind → ℕ
kind_number kind_create = 0
kind_number kind_delete = 1
kind_number kind_transfer_leader = 2
kind_number kind_migrate = 3
kind_number kind_split = 4
kind_number kind_merge = 5
kind_number kind_scatter = 6
kind_number kind_create_table = 7
kind_number kind_drop_table = 8
kind_number kind_create_partition_table = 9
kind_number kind_drop_partition_table = 10

abbrev version_name : Bytes
version_name = codes "v1"

abbrev path_procedure : Bytes
path_procedure = codes "procedure"

abbrev path_deleted_procedure : Bytes
path_deleted_procedure = codes "deletedProcedure"

-- The rounds are those of a scan after its first batch.
pub record EtcdStorageImpl : Type 0 where
  pub codec : Codec Meta
  pub cluster_id : ℕ
  pub root_path : Bytes
  pub scan_rounds : ℕ

-- The parts below the root.
abbrev pub key_names : ℕ → ℕ → Kind → Bool → List Bytes
key_names cluster_id procedure_id kind is_deleted =
    version_name
    ∷ (if is_deleted then path_deleted_procedure else path_procedure)
    ∷ fmt_id cluster_id
    ∷ encode_id (kind_number kind)
    ∷ fmt_id procedure_id
    ∷ []

unfoldable pub generate_key_path : EtcdStorageImpl → ℕ → Kind → Bool → Bytes
generate_key_path m procedure_id kind is_deleted =
    path_join (m.root_path ∷ key_names m.cluster_id procedure_id kind is_deleted)

unfoldable pub normal_key_path : EtcdStorageImpl → Kind → ℕ → Bytes
unfolding generate_key_path
normal_key_path m kind id = generate_key_path m id kind false

unfoldable pub deleted_key_path : EtcdStorageImpl → Kind → ℕ → Bytes
unfolding generate_key_path
deleted_key_path m kind id = generate_key_path m id kind true

-- `client.Grant` of a lease for some seconds, and the put of a value under it.
pub record LeaseCalls (S : Type 0) : Type 0 where
  pub grant : ℤ → S → Result ℕ × S
  pub put_with_lease : Bytes → Bytes → ℕ → S → Result (Unit {0}) × S

module _ (e : Etcd) (m : EtcdStorageImpl) where
  unfoldable pub create_or_update : Meta → Exec e.State (Unit {0})
  create_or_update meta = do
    s ← need encode_failed (m.codec.marshal meta)
    e.exec (put (normal_key_path m meta.kind meta.id) s)

  unfoldable pub create_or_update_with_ttl : LeaseCalls e.State → Meta → ℤ → Exec e.State (Unit {0})
  create_or_update_with_ttl calls meta ttl_sec = do
    s ← need encode_failed (m.codec.marshal meta)
    lease ← calls.grant ttl_sec
    calls.put_with_lease (normal_key_path m meta.kind meta.id) s lease

  -- An error is logged.
  unfoldable pub delete_mark : Kind → ℕ → Exec e.State (Unit {0})
  delete_mark kind id s =
      let key = deleted_key_path m kind id in
      (ok tt, (e.txn (key_exists key ∷ []) (del key ∷ []) s).1)

  unfoldable pub delete : Kind → ℕ → Exec e.State (Unit {0})
  unfolding delete_mark
  delete kind id = do done ← e.txn [] (del (normal_key_path m kind id) ∷ []); delete_mark kind id

  unfoldable pub mark_deleted : Kind → ℕ → Exec e.State (Unit {0})
  unfolding get_value
  mark_deleted kind id = do
    meta ← get_value e (normal_key_path m kind id)
    done ← e.txn [] (del (normal_key_path m kind id) ∷ put (deleted_key_path m kind id) meta ∷ [])
    pure tt

  unfoldable pub list : Kind → ℕ → Exec e.State (List Meta)
  unfolding scan
  list kind batch_size =
      scan e.get_range (λ k v. m.codec.unmarshal v) (normal_key_path m kind (2 ^ 64 - 1)) batch_size
        m.scan_rounds (normal_key_path m kind 0)
