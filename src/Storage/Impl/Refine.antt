-- ===== src/Storage/Impl/Refine.antt =====
-- storage_impl.go as the storage of the managers, with the laws that they rely on.
use ceresmeta.Etcd.{Etcd, EtcdLaws, Content}
use ceresmeta.Storage.{ClusterView, ShardView, Storage}
use ceresmeta.Storage.KeyPath.{fmt_id}
use ceresmeta.Storage.Impl as Impl
use ceresmeta.Storage.Impl.{
  MetaStorageImpl, get_cluster_view, update_cluster_view, update_shard_view, create_table,
}
use ceresmeta.Storage.Impl.Views.{
  CodecLaws, impl, cluster_key, shard_key, update_shard_view_any, IsWritten, written-latest,
  written-view, written-other, written-cluster,
}
use ceresmeta.Storage.Impl.ClusterViews.{
  updated, update_cluster_view_any, updated-latest, updated-view, updated-other, updated-shard,
}
use ceresmeta.Storage.Impl.Reads.{
  read, Versioned, read_same, same-Versioned, read_written, written-Versioned,
}
use ceresmeta.Common.{
  if◌then◌else◌, ◌==◌, nat_eq, Bool-cases, ℕ, ◌≡◌, sym, inl, inr, ◌&&◌, Option, some, arith, Bytes,
}

module _ (e : Etcd) (laws : EtcdLaws e) (m : MetaStorageImpl) (codec : CodecLaws m) (c0 : ℕ)
    (root : Bytes) where
  abbrev pub n0 : MetaStorageImpl
  n0 = impl e laws m c0 root

  abbrev pub ck : ℕ → Bytes → Bytes
  ck = cluster_key e laws m c0 root

  abbrev pub sk : ℕ → ℕ → Bytes → Bytes
  sk = shard_key e laws m c0 root

  abbrev pub read_cluster : Content → ℕ → Option ClusterView
  read_cluster ct c = read m.cluster_view.unmarshal (ck c) ct

  abbrev pub read_shard : Content → ℕ → ℕ → Option ShardView
  read_shard ct c k = read m.shard_view.unmarshal (sk c k) ct

  abbrev pub ClusterVersioned : Content → Type 0
  ClusterVersioned ct = (c : ℕ) → Versioned m.cluster_view.unmarshal (λ v. v.version) (ck c) ct

  abbrev pub ShardVersioned : Content → Type 0
  ShardVersioned ct = (c k : ℕ) → Versioned m.shard_view.unmarshal (λ v. v.version) (sk c k) ct

  abbrev pub etcd_storage : Storage
  etcd_storage = record {
    State = e.State;
    create_cluster_view = Impl.create_cluster_view e n0;
    get_cluster_view = get_cluster_view e n0;
    update_cluster_view = update_cluster_view e n0;
    list_schemas = Impl.list_schemas e n0;
    create_schema = Impl.create_schema e n0;
    create_table = create_table e n0;
    list_tables = Impl.list_tables e n0;
    delete_table = Impl.delete_table e n0;
    create_shard_views = Impl.create_shard_views e n0;
    list_shard_views = Impl.list_shard_views e n0;
    update_shard_view = update_shard_view e n0;
    list_nodes = Impl.list_nodes e n0;
    create_or_update_node = Impl.create_or_update_node e n0;
    cluster_view = λ t. read_cluster (e.content t);
    shard_view = λ t. read_shard (e.content t);
    IsValid = λ t. ClusterVersioned (e.content t) × ShardVersioned (e.content t);
  }

  pub shard_read :
      (c : ℕ) (v : ShardView) (n : ℕ) (b : Bytes) (ct ct' : Content)
      → ShardVersioned ct
      → m.shard_view.marshal v ≡ some b
      → IsWritten e laws m c0 root c v n b ct ct'
      → (a k : ℕ)
      → read_shard ct' a k ≡ (if (c == a) && (v.shard_id == k) then some v else read_shard ct a k)
  shard_read c v n b ct ct' valid q w a k = elim (Bool-cases ((c == a) && (v.shard_id == k))) [
    | inl same ↦
        let pa : c ≡ a = ground arith in
        let pk : v.shard_id ≡ k = ground arith in
        rw same (
          rw (sym pa, sym pk)
            (read_written m.shard_view.unmarshal (sk c v.shard_id) ct' (fmt_id v.version) b v
              (written-latest e laws m c0 root c v n b ct ct' w)
              (written-view e laws m c0 root c v n b ct ct' w) (codec.shard_view_back v b q)))
    | inr other ↦ rw other (
        read_same m.shard_view.unmarshal (λ x. x.version) (sk a k) ct ct' (valid a k)
          (λ x hx. written-other e laws m c0 root c v n b ct ct' w a k x hx other))
  ]

  pub cluster_read :
      (c : ℕ) (v : ClusterView) (b : Bytes) (ct ct' : Content)
      → ClusterVersioned ct
      → m.cluster_view.marshal v ≡ some b
      → ((j : Bytes) → ct' j ≡ updated e laws m c0 root c v b ct j)
      → read_cluster ct' c ≡ some v
  cluster_read c v b ct ct' valid q w =
      read_written m.cluster_view.unmarshal (ck c) ct' (fmt_id v.version) b v
        (updated-latest e laws m c0 root c v b ct ct' w)
        (updated-view e laws m c0 root c v b ct ct' w) (codec.cluster_view_back v b q)

  -- Equal stores are valid together.
  pub same-IsValid :
      (t u : e.State)
      → etcd_storage.IsValid t
      → ((j : Bytes) → e.content u j ≡ e.content t j)
      → etcd_storage.IsValid u
  same-IsValid t u (cv, sv) same = (
    λ a.
        same-Versioned m.cluster_view.unmarshal (λ x. x.version) (ck a) (e.content t) (e.content u)
          (cv a) (λ x hx. same (ck a x)),
    λ a k.
        same-Versioned m.shard_view.unmarshal (λ x. x.version) (sk a k) (e.content t) (e.content u)
          (sv a k) (λ x hx. same (sk a k x)),
  )

  -- A valid storage stays valid, whatever an update of a shard view returns.
  pub update_shard_view-IsValid :
      (c : ℕ) (v : ShardView) (n : ℕ) (t : e.State)
      → etcd_storage.IsValid t
      → etcd_storage.IsValid (etcd_storage.update_shard_view c v n t).1
  update_shard_view-IsValid c v n t (cv, sv) =
      let ct = e.content t in
      let ct' = e.content (update_shard_view e n0 c v n t).1 in
      elim (update_shard_view_any e laws m c0 root c v n t) [
        | inl same ↦ same-IsValid t _ (cv, sv) same
        | inr (b, q, w) ↦ (
          λ a.
              same-Versioned m.cluster_view.unmarshal (λ x. x.version) (ck a) ct ct' (cv a)
                (written-cluster e laws m c0 root c v n b ct ct' w a),
          λ a k. elim (Bool-cases ((c == a) && (v.shard_id == k))) [
            | inl same ↦
                let pa : c ≡ a = ground arith in
                let pk : v.shard_id ≡ k = ground arith in
                rw (sym pa, sym pk)
                  (written-Versioned m.shard_view.unmarshal (λ x. x.version) (sk c v.shard_id) ct' b
                    v (written-latest e laws m c0 root c v n b ct ct' w)
                    (written-view e laws m c0 root c v n b ct ct' w) (codec.shard_view_back v b q))
            | inr other ↦
                same-Versioned m.shard_view.unmarshal (λ x. x.version) (sk a k) ct ct' (sv a k)
                  (λ x hx. written-other e laws m c0 root c v n b ct ct' w a k x hx other)
          ],
        )
      ]

  -- A valid storage stays valid, whatever an update of the cluster view returns.
  pub update_cluster_view-IsValid :
      (c : ℕ) (v : ClusterView) (n : ℕ) (t : e.State)
      → etcd_storage.IsValid t
      → etcd_storage.IsValid (etcd_storage.update_cluster_view c v n t).1
  update_cluster_view-IsValid c v n t (cv, sv) =
      let ct = e.content t in
      let ct' = e.content (update_cluster_view e n0 c v n t).1 in
      elim (update_cluster_view_any e laws m c0 root c v n t) [
        | inl same ↦ same-IsValid t _ (cv, sv) same
        | inr (b, q, w) ↦ (
          λ a. elim (Bool-cases (c == a)) [
            | inl same ↦
                let pa : c ≡ a = ground arith in
                rw (sym pa) (
                  written-Versioned m.cluster_view.unmarshal (λ x. x.version) (ck c) ct' b v
                    (updated-latest e laws m c0 root c v b ct ct' w)
                    (updated-view e laws m c0 root c v b ct ct' w) (codec.cluster_view_back v b q))
            | inr other ↦
                same-Versioned m.cluster_view.unmarshal (λ x. x.version) (ck a) ct ct' (cv a)
                  (λ x hx. updated-other e laws m c0 root c v b ct ct' w a x hx other)
          ],
          λ a k.
              same-Versioned m.shard_view.unmarshal (λ x. x.version) (sk a k) ct ct' (sv a k)
                (updated-shard e laws m c0 root c v b ct ct' w a k),
        )
      ]
