-- ===== src/Storage/Impl/Laws.antt =====
-- storage_impl.go has the laws of the storage that the managers rely on.
use ceresmeta.Etcd.{Etcd, EtcdLaws, Content, key_missing, put, apply_all}
use ceresmeta.EtcdUtil.{get_value}
use ceresmeta.Storage.{ClusterView, ShardView, Table, Storage, StorageLaws, HasClusterVersion}
use ceresmeta.Storage.Paths.{is_name}
use ceresmeta.Storage.KeyPath.{
  fmt_id, latest_version, make_cluster_view_latest_version_key, make_cluster_view_key,
  make_table_key, make_name_to_id_key,
}
use ceresmeta.Storage.KeyPath.Distinct.{
  fmt_id_eq, latest_version_key, table_key-cluster_key, table_key-shard_key, name_key-cluster_key,
  name_key-shard_key,
}
use ceresmeta.Storage.Impl.{MetaStorageImpl, get_cluster_view, create_table}
use ceresmeta.Storage.Impl.Views.{CodecLaws, update_shard_view_parts, update_shard_view_any}
use ceresmeta.Storage.Impl.ClusterViews.{
  update_cluster_view_parts, update_cluster_view_conflict_parts,
}
use ceresmeta.Storage.Impl.Reads.{read, same-Versioned, read_ext, read_written}
use ceresmeta.Storage.Impl.Refine.{
  n0, ck, sk, etcd_storage, ClusterVersioned, read_cluster, shard_read, cluster_read,
}
use ceresmeta.Common.{
  ◌==◌, nat_eq, Bool-cases, Option-cases, ok, ℕ, ◌≡◌, refl, sym, ap, ◌∙◌, inl, inr, true, false,
  Option, some, [], ◌∷◌, arith, Bytes, bytes_eq, bytes_eq_refl, Result-cases,
}

self_eq : (n : ℕ) → (n == n) ≡ true
self_eq n = ground arith

module _ (e : Etcd) (laws : EtcdLaws e) where
  get_value_ok :
      (k : Bytes) (t : e.State) (v : Bytes) → (get_value e k t).0 ≡ ok v → e.content t k ≡ some v
  unfolding get_value
  get_value_ok k t v h = elim (Result-cases (e.get k t).0) [
    | inr (x, f) ↦ absurd (cc (rw f at h))
    | inl (vs, f) ↦ ground (arith, laws.get_ok k t vs f, f)
  ]

  get_value_keeps : (k j : Bytes) (t : e.State) → e.content (get_value e k t).1 j ≡ e.content t j
  unfolding get_value
  get_value_keeps k j t = elim (Result-cases (e.get k t).0) [
    | inr (x, f) ↦ rw f (laws.get_keeps k j t)
    | inl (vs, f) ↦ ground (arith, laws.get_keeps k j t, f)
  ]

module _ (e : Etcd) (laws : EtcdLaws e) (m : MetaStorageImpl) (codec : CodecLaws m) (c0 : ℕ)
    (root : Bytes) where
  abbrev here : MetaStorageImpl
  here = n0 e laws m codec c0 root

  abbrev store : Storage
  store = etcd_storage e laws m codec c0 root

  abbrev rc : Content → ℕ → Option ClusterView
  rc = read_cluster e laws m codec c0 root

  get_cluster_view_read :
      (c : ℕ) (t : e.State) (v : ClusterView)
      → (get_cluster_view e here c t).0 ≡ ok v
      → rc (e.content t) c ≡ some v
  unfolding get_cluster_view get_value
  get_cluster_view_read c t v h =
      let k = make_cluster_view_latest_version_key (c0 ∷ root) c in
      let key = make_cluster_view_key (c0 ∷ root) c in
      let t1 = (get_value e k t).1 in
      elim (Result-cases (get_value e k t).0) [
        | inr (x, f) ↦ absurd (cc (rw f at h))
        | inl (w, f) ↦ elim (Result-cases (get_value e (key w) t1).0) [
          | inr (x, g) ↦ absurd (cc (rw (f, g) at h))
          | inl (b, g) ↦ elim (Option-cases (m.cluster_view.unmarshal b)) [
            | inl q ↦ absurd (cc (rw (f, g, q) at h))
            | inr (v', q) ↦
                let same : v' ≡ v = cc (rw (f, g, q) at h) in
                read_written m.cluster_view.unmarshal key (e.content t) w b v
                  (ap (e.content t) (sym (latest_version_key (c0 ∷ root) c))
                    ∙ get_value_ok e laws k t w f)
                  (sym (get_value_keeps e laws k (key w) t) ∙ get_value_ok e laws (key w) t1 b g)
                  (q ∙ ap some same)
          ]
        ]
      ]

  get_cluster_view-content :
      (c : ℕ) (t : e.State) (j : Bytes)
      → e.content (get_cluster_view e here c t).1 j ≡ e.content t j
  unfolding get_cluster_view get_value
  get_cluster_view-content c t j =
      let k = make_cluster_view_latest_version_key (c0 ∷ root) c in
      let key = make_cluster_view_key (c0 ∷ root) c in
      let t1 = (get_value e k t).1 in
      elim (Result-cases (get_value e k t).0) [
        | inr (x, f) ↦ rw f (get_value_keeps e laws k j t)
        | inl (w, f) ↦
            let both = get_value_keeps e laws (key w) j t1 ∙ get_value_keeps e laws k j t in
            elim (Result-cases (get_value e (key w) t1).0) [
              | inr (x, g) ↦ rw (f, g) both
              | inl (b, g) ↦ elim (Option-cases (m.cluster_view.unmarshal b)) [
                | inl q ↦ rw (f, g, q) both
                | inr (v', q) ↦ rw (f, g, q) both
              ]
            ]
      ]

  read_cluster_same :
      (t u : e.State)
      → ((j : Bytes) → e.content u j ≡ e.content t j)
      → (c : ℕ) → rc (e.content u) c ≡ rc (e.content t) c
  read_cluster_same t u same c =
      read_ext m.cluster_view.unmarshal (ck e laws m codec c0 root c) (e.content t) (e.content u)
        same

  -- The version that is compared.
  compared :
      (t : e.State) (c n : ℕ)
      → ClusterVersioned e laws m codec c0 root (e.content t)
      → HasClusterVersion (rc (e.content t) c) n
      → e.content t (ck e laws m codec c0 root c latest_version) ≡ some (fmt_id n)
  compared t c n valid h =
      let ct = e.content t in
      let key = ck e laws m codec c0 root c in
      elim (Option-cases (ct (key latest_version))) [
        | inl p ↦ absurd (rw (p, read) at h)
        | inr (w, p) ↦
            let (v, b, q, r, u) = valid c w p in
            let hv : v.version ≡ n =
              rw (read_written m.cluster_view.unmarshal key ct w b v p r u) at h in
            cc
      ]

  has_version :
      (t : e.State) (c n : ℕ)
      → ClusterVersioned e laws m codec c0 root (e.content t)
      → e.content t (ck e laws m codec c0 root c latest_version) ≡ some (fmt_id n)
      → HasClusterVersion (rc (e.content t) c) n
  has_version t c n valid h =
      let ct = e.content t in
      let key = ck e laws m codec c0 root c in
      let (v, b, q, r, u) = valid c (fmt_id n) h in
      let equal : bytes_eq (fmt_id v.version) (fmt_id n) ≡ true =
        rw q (bytes_eq_refl (fmt_id v.version)) in
      let same = sym (fmt_id_eq v.version n) ∙ equal in
      rw (read_written m.cluster_view.unmarshal key ct (fmt_id n) b v h r u) (ground (arith, same))

  create_table-content :
      (c i : ℕ) (table : Table) (t : e.State) (j : Bytes)
      → bytes_eq (make_table_key (c0 ∷ root) c i table.id) j ≡ false
      → bytes_eq (make_name_to_id_key (c0 ∷ root) c i table.name) j ≡ false
      → e.content (create_table e here c i table t).1 j ≡ e.content t j
  unfolding create_table
  create_table-content c i table t j h g = elim (Option-cases (m.table.marshal table)) [
    | inl q ↦ rw q refl
    | inr (v, q) ↦
        let key = make_table_key (c0 ∷ root) c i table.id in
        let name_key = make_name_to_id_key (c0 ∷ root) c i table.name in
        let cs = key_missing name_key ∷ key_missing key ∷ [] in
        let os = put key v ∷ put name_key (fmt_id table.id) ∷ [] in
        let kept : apply_all os (e.content t) j ≡ e.content t j = rw (h, g) refl in
        elim (Result-cases (e.txn cs os t).0) [
          | inr (x, f) ↦ elim (laws.txn_fails cs os t x f) [
            | inl same ↦ rw (q, f) (same j)
            | inr (_, wrote) ↦ rw (q, f) (wrote j ∙ kept)
          ]
          | inl (d, f) ↦ elim (Bool-cases d) [
            | inl p ↦ rw (q, f, p) (rw p at (laws.txn_writes cs os t d j f) ∙ kept)
            | inr p ↦ rw (q, f, p) (rw p at (laws.txn_writes cs os t d j f))
          ]
        ]
  ]

  pub create_table_keeps :
      (c i : ℕ) (table : Table) (t : e.State)
      → is_name table.name ≡ true
      → store.IsValid t
      → store.IsValid (store.create_table c i table t).1
  create_table_keeps c i table t named (cv, sv) =
      let u = (store.create_table c i table t).1 in
      let kept = create_table-content c i table t in
      (
        λ a.
            same-Versioned m.cluster_view.unmarshal (λ x. x.version) (ck e laws m codec c0 root a)
              (e.content t) (e.content u) (cv a)
              (λ x hx.
                kept (ck e laws m codec c0 root a x)
                  (table_key-cluster_key c0 root c i table.id a x hx)
                  (name_key-cluster_key c0 root c i a table.name x named hx)),
        λ a k.
            same-Versioned m.shard_view.unmarshal (λ x. x.version) (sk e laws m codec c0 root a k)
              (e.content t) (e.content u) (sv a k)
              (λ x hx.
                kept (sk e laws m codec c0 root a k x)
                  (table_key-shard_key c0 root c i table.id a k x hx)
                  (name_key-shard_key c0 root c i a k table.name x named hx)),
      )

  -- Whatever it returns, an update of a shard view leaves the views of other shards.
  shard_other :
      (c : ℕ) (v : ShardView) (n : ℕ) (t : e.State) (k : ℕ)
      → store.IsValid t
      → (v.shard_id == k) ≡ false
      → store.shard_view (store.update_shard_view c v n t).1 c k ≡ store.shard_view t c k
  shard_other c v n t k valid d =
      let key = sk e laws m codec c0 root c k in
      let ct' = e.content (store.update_shard_view c v n t).1 in
      elim (update_shard_view_any e laws m c0 root c v n t) [
        | inl same ↦ read_ext m.shard_view.unmarshal key (e.content t) ct' same
        | inr (b, q, w) ↦
            shard_read e laws m codec c0 root c v n b (e.content t) ct' valid.1 q w c k
            ∙ rw (self_eq c, d) refl
      ]

  -- The storage over etcd has the laws that the managers assume of a storage, when codecs read back
  -- what they marshal.
  pub etcd_storage_laws : StorageLaws store
  etcd_storage_laws = record {
    get_cluster_view_ok = get_cluster_view_read;
    get_cluster_view_keeps = λ c d t.
        read_cluster_same t (store.get_cluster_view c t).1 (get_cluster_view-content c t) d;
    update_cluster_view_ok = λ c v n t valid h.
        let (b, q, p, w) = update_cluster_view_parts e laws m c0 root c v n t h in
        (
          has_version t c n valid.0 p,
          cluster_read e laws m codec c0 root c v b (e.content t)
              (e.content (store.update_cluster_view c v n t).1) valid.0 q w,
        );
    update_cluster_view_conflict = λ c v n t valid h.
        let (differs, same) = update_cluster_view_conflict_parts e laws m c0 root c v n t h in
        (
          λ has. differs (compared t c n valid.0 has),
          read_cluster_same t (store.update_cluster_view c v n t).1 same c,
        );
    update_shard_view_ok = λ c v n t valid h k.
        let (b, q, w) = update_shard_view_parts e laws m c0 root c v n t h in
        shard_read e laws m codec c0 root c v n b (e.content t)
          (e.content (store.update_shard_view c v n t).1) valid.1 q w c k
        ∙ rw (self_eq c) refl;
    update_shard_view_other = shard_other;
    create_table-IsValid = create_table_keeps;
  }
