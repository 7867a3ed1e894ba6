-- ===== src/Storage/Memory.antt =====
-- A storage in memory that never loses a call, to show that the laws of the storage can be met.
use ceresmeta.Common.{
  if◌then◌else◌, ◌==◌, nat_eq, Bool-cases, beq_refl, Result, ok, err, ℕ, ◌≡◌, refl, inl, inr, Bool,
  true, false, ◌&&◌, Option, none, some, List, [], ◌++◌, arith, view_conflict, storage_not_found,
  text_eq,
}
use ceresmeta.Storage.{ClusterView, ShardView, Storage, StorageLaws, HasClusterVersion}

pub record Mem : Type 0 where
  pub cluster : ℕ → Option ClusterView
  pub shard : ℕ → ℕ → Option ShardView
  pub shard_list : List ShardView

abbrev put_cluster : Mem → ℕ → ClusterView → Mem
put_cluster m c v = record m { cluster = λ d. if c == d then some v else m.cluster d }

abbrev put_shard : Mem → ℕ → ShardView → Mem
put_shard m c v = record m {
  shard = λ d k. if c == d && v.shard_id == k then some v else m.shard d k;
}

abbrev has_cluster_version : Option ClusterView → ℕ → Bool
has_cluster_version none n = false
has_cluster_version (some v) n = v.version == n

abbrev found : Option ClusterView → Result ClusterView
found none = err storage_not_found
found (some v) = ok v

abbrev pub memory_storage : Storage
memory_storage = record {
  State = Mem;
  create_cluster_view = λ v m. (ok tt, put_cluster m v.cluster_id v);
  get_cluster_view = λ c m. (found (m.cluster c), m);
  update_cluster_view = λ c v n m.
      if has_cluster_version (m.cluster c) n
      then (ok tt, put_cluster m c v)
      else (err view_conflict, m);
  list_schemas = λ c m. (ok [], m);
  create_schema = λ c v m. (ok tt, m);
  create_table = λ c i t m. (ok tt, m);
  list_tables = λ c i m. (ok [], m);
  delete_table = λ c i k m. (ok tt, m);
  create_shard_views = λ c vs m. (ok tt, record m { shard_list = m.shard_list ++ vs });
  list_shard_views = λ c m. (ok m.shard_list, m);
  update_shard_view = λ c v n m. (ok tt, put_shard m c v);
  list_nodes = λ c m. (ok [], m);
  create_or_update_node = λ c n m. (ok tt, m);
  cluster_view = λ m c. m.cluster c;
  shard_view = λ m c k. m.shard c k;
  IsValid = λ m. Unit;
}

has_cluster_version-true :
    (o : Option ClusterView) (n : ℕ) → has_cluster_version o n ≡ true → HasClusterVersion o n
has_cluster_version-true none n h = cc
has_cluster_version-true (some v) n h = ground arith

has_cluster_version-false :
    (o : Option ClusterView) (n : ℕ) → has_cluster_version o n ≡ false → HasClusterVersion o n → ⊥
has_cluster_version-false none n h k = k
has_cluster_version-false (some v) n h k = ground arith

found-ok : (o : Option ClusterView) (v : ClusterView) → found o ≡ ok v → o ≡ some v
found-ok none v h = cc
found-ok (some w) v h = ground arith

pub memory_storage_laws : StorageLaws memory_storage
memory_storage_laws = record {
  get_cluster_view_ok = λ c m v h. found-ok (m.cluster c) v h;
  get_cluster_view_keeps = λ c d m. refl;
  update_cluster_view_ok = λ c v n m _ h. elim (Bool-cases (has_cluster_version (m.cluster c) n)) [
    | inl e ↦ (has_cluster_version-true (m.cluster c) n e, rw e (rw beq_refl refl))
    | inr e ↦ absurd (cc (rw e at h))
  ];
  update_cluster_view_conflict = λ c v n m _ h.
      elim (Bool-cases (has_cluster_version (m.cluster c) n)) [
        | inl e ↦ absurd (cc (rw e at h))
        | inr e ↦ (has_cluster_version-false (m.cluster c) n e, rw e refl)
      ];
  update_shard_view_ok = λ c v n m _ h k. ground arith;
  update_shard_view_other = λ c v n m k _ h. ground arith;
  create_table-IsValid = λ c i t m _ h. h;
}
