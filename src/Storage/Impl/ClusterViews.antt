-- ===== src/Storage/Impl/ClusterViews.antt =====
-- What the cluster view of storage_impl.go holds after an update.
use ceresmeta.Etcd.{Etcd, EtcdLaws, Content, value_equals, put, holds}
use ceresmeta.Storage.Paths.{is_name}
use ceresmeta.Storage.KeyPath.{
  fmt_id, latest_version, make_cluster_view_latest_version_key, make_cluster_view_key,
}
use ceresmeta.Storage.KeyPath.Distinct.{
  fmt_id-is_name, latest_version-fmt_id, cluster_view_key_eq, cluster_key-shard_key,
  latest_version_key,
}
use ceresmeta.Storage.{ClusterView}
use ceresmeta.Storage.Impl.{MetaStorageImpl, update_cluster_view}
use ceresmeta.Storage.Impl.Views.{impl, shard_key}
use ceresmeta.Common.{
  if◌then◌else◌, ◌==◌, nat_eq, Bool-cases, Option-cases, ok, err, ℕ, ◌≡◌, refl, ◌∙◌, ◌⊎◌, inl, inr,
  true, false, some, [], ◌∷◌, arith, view_conflict, Bytes, bytes_eq, bytes_eq_refl, bytes_eq_sound,
  Result-cases,
}

latest_is_name : is_name latest_version ≡ true
latest_is_name = refl

held_value : (ct : Content) (k w : Bytes) → holds (value_equals k w) ct ≡ true → ct k ≡ some w
held_value ct k w h = elim (Option-cases (ct k)) [
  | inl p ↦ ground (arith, h, p)
  | inr (x, p) ↦ ground (arith, h, p, bytes_eq_sound x w)
]

value_held : (ct : Content) (k w : Bytes) → ct k ≡ some w → holds (value_equals k w) ct ≡ true
value_held ct k w h = ground (arith, h, bytes_eq_refl w)

module _ (e : Etcd) (laws : EtcdLaws e) (m : MetaStorageImpl) (c0 : ℕ) (root : Bytes) where
  abbrev at : ℕ → Bytes → Bytes
  at = make_cluster_view_key (c0 ∷ root)

  -- The store after the transaction of `UpdateClusterView`.
  abbrev pub updated : ℕ → ClusterView → Bytes → Content → Content
  updated c v b ct j =
      if bytes_eq (at c latest_version) j
      then some (fmt_id v.version)
      else if bytes_eq (at c (fmt_id v.version)) j
      then some b
      else ct j

  pub update_cluster_view_parts :
      (c : ℕ) (v : ClusterView) (n : ℕ) (t : e.State)
      → (update_cluster_view e (impl e laws m c0 root) c v n t).0 ≡ ok tt
      → (b : Bytes) × (m.cluster_view.marshal v ≡ some b)
        × (e.content t (at c latest_version) ≡ some (fmt_id n))
        × ((j : Bytes)
            → e.content (update_cluster_view e (impl e laws m c0 root) c v n t).1 j
              ≡ updated c v b (e.content t) j)
  unfolding update_cluster_view
  update_cluster_view_parts c v n t h = elim (Option-cases (m.cluster_view.marshal v)) [
    | inl q ↦ absurd (cc (rw q at h))
    | inr (b, q) ↦
        let latest = make_cluster_view_latest_version_key (c0 ∷ root) c in
        let cs = value_equals latest (fmt_id n) ∷ [] in
        let os = put (at c (fmt_id v.version)) b ∷ put latest (fmt_id v.version) ∷ [] in
        let k = latest_version_key (c0 ∷ root) c in
        elim (Result-cases (e.txn cs os t).0) [
          | inr (x, f) ↦ absurd (cc (rw (q, f) at h))
          | inl (d, f) ↦ elim (Bool-cases d) [
            | inr missed ↦ absurd (cc (rw (q, f, missed) at h))
            | inl done ↦
                let wrote = λ (j : Bytes). rw done at (laws.txn_writes cs os t d j f) in
                (
                  b,
                  q,
                  held_value (e.content t) (at c latest_version) (fmt_id n)
                      (ground (arith, laws.txn_ok cs os t d f, k)),
                  rw (q, f, done) (λ j. wrote j ∙ rw k refl),
                )
          ]
        ]
  ]

  pub update_cluster_view_conflict_parts :
      (c : ℕ) (v : ClusterView) (n : ℕ) (t : e.State)
      → (update_cluster_view e (impl e laws m c0 root) c v n t).0 ≡ err view_conflict
      → ((e.content t (at c latest_version) ≡ some (fmt_id n)) → ⊥)
        × ((j : Bytes)
            → e.content (update_cluster_view e (impl e laws m c0 root) c v n t).1 j ≡ e.content t j)
  unfolding update_cluster_view
  update_cluster_view_conflict_parts c v n t h = elim (Option-cases (m.cluster_view.marshal v)) [
    | inl q ↦ absurd (cc (rw q at h))
    | inr (b, q) ↦
        let latest = make_cluster_view_latest_version_key (c0 ∷ root) c in
        let cs = value_equals latest (fmt_id n) ∷ [] in
        let os = put (at c (fmt_id v.version)) b ∷ put latest (fmt_id v.version) ∷ [] in
        let k = latest_version_key (c0 ∷ root) c in
        elim (Result-cases (e.txn cs os t).0) [
          | inr (x, f) ↦
              let same : x ≡ view_conflict = cc (rw (q, f) at h) in
              absurd (rw same at (laws.txn_error cs os t x f))
          | inl (d, f) ↦ elim (Bool-cases d) [
            | inl done ↦ absurd (cc (rw (q, f, done) at h))
            | inr missed ↦ (
              λ there.
                  let held = value_held (e.content t) (at c latest_version) (fmt_id n) there in
                  ground (arith, laws.txn_ok cs os t d f, k, held, missed),
              rw (q, f, missed) (λ j. rw missed at (laws.txn_writes cs os t d j f)),
            )
          ]
        ]
  ]

  -- Whatever it returns, an update has written nothing, or the view and its version.
  pub update_cluster_view_any :
      (c : ℕ) (v : ClusterView) (n : ℕ) (t : e.State)
      → ((j : Bytes)
          → e.content (update_cluster_view e (impl e laws m c0 root) c v n t).1 j ≡ e.content t j)
        ⊎ ((b : Bytes) × (m.cluster_view.marshal v ≡ some b)
            × ((j : Bytes)
                → e.content (update_cluster_view e (impl e laws m c0 root) c v n t).1 j
                  ≡ updated c v b (e.content t) j))
  unfolding update_cluster_view
  update_cluster_view_any c v n t = elim (Option-cases (m.cluster_view.marshal v)) [
    | inl q ↦ inl (rw q (λ j. refl))
    | inr (b, q) ↦
        let latest = make_cluster_view_latest_version_key (c0 ∷ root) c in
        let cs = value_equals latest (fmt_id n) ∷ [] in
        let os = put (at c (fmt_id v.version)) b ∷ put latest (fmt_id v.version) ∷ [] in
        let k = latest_version_key (c0 ∷ root) c in
        elim (Result-cases (e.txn cs os t).0) [
          | inr (x, f) ↦ elim (laws.txn_fails cs os t x f) [
            | inl same ↦ inl (rw (q, f) same)
            | inr (_, wrote) ↦ inr (b, q, rw (q, f) (λ j. wrote j ∙ rw k refl))
          ]
          | inl (d, f) ↦ elim (Bool-cases d) [
            | inl done ↦ inr (
              b,
              q,
              rw (q, f, done) (λ j. rw done at (laws.txn_writes cs os t d j f) ∙ rw k refl),
            )
            | inr missed ↦
                inl (rw (q, f, missed) (λ j. rw missed at (laws.txn_writes cs os t d j f)))
          ]
        ]
  ]

  -- What a write of a view leaves at the keys of the cluster, of other clusters, and of the shards.
  module _ (c : ℕ) (v : ClusterView) (b : Bytes) (ct ct' : Content)
      (w : (j : Bytes) → ct' j ≡ updated c v b ct j) where
    pub updated-latest : ct' (at c latest_version) ≡ some (fmt_id v.version)
    updated-latest = ground (arith, w (at c latest_version), bytes_eq_refl (at c latest_version))

    pub updated-view : ct' (at c (fmt_id v.version)) ≡ some b
    updated-view =
        let j = at c (fmt_id v.version) in
        let p =
          cluster_view_key_eq c0 root c c latest_version (fmt_id v.version) latest_is_name
            (fmt_id-is_name v.version) in
        ground (arith, w j, p, latest_version-fmt_id v.version, bytes_eq_refl j)

    pub updated-other :
        (a : ℕ) (x : Bytes) → is_name x ≡ true → (c == a) ≡ false → ct' (at a x) ≡ ct (at a x)
    updated-other a x hx d =
        let p = λ (y : Bytes) (hy : is_name y ≡ true). cluster_view_key_eq c0 root c a y x hy hx in
        let p1 = p (fmt_id v.version) (fmt_id-is_name v.version) in
        let p2 = p latest_version latest_is_name in ground (arith, w (at a x), p1, p2)

    pub updated-shard :
        (a k : ℕ) (x : Bytes)
        → is_name x ≡ true
        → ct' (shard_key e laws m c0 root a k x) ≡ ct (shard_key e laws m c0 root a k x)
    updated-shard a k x hx =
        let p =
          λ (y : Bytes) (hy : is_name y ≡ true). cluster_key-shard_key c0 root c a k y x hy hx in
        let p1 = p (fmt_id v.version) (fmt_id-is_name v.version) in
        let p2 = p latest_version latest_is_name in
        ground (arith, w (shard_key e laws m c0 root a k x), p1, p2)
