-- ===== src/Storage/Impl/Views.antt =====
-- What the views of storage_impl.go hold after a write.
use ceresmeta.Etcd.{Etcd, EtcdLaws, Content, put, del}
use ceresmeta.Storage.{ClusterView, ShardView}
use ceresmeta.Storage.Paths.{is_name}
use ceresmeta.Storage.KeyPath.{
  fmt_id, latest_version, make_cluster_view_key, make_shard_view_latest_version_key,
  make_shard_view_key,
}
use ceresmeta.Storage.KeyPath.Distinct.{
  fmt_id-is_name, fmt_id_eq, fmt_id-latest_version, shard_view_key_eq, shard_key-cluster_key,
  shard_latest_version_key,
}
use ceresmeta.Storage.Impl.{MetaStorageImpl, update_shard_view, remove_expired}
use ceresmeta.Common.{
  if◌then◌else◌, ◌==◌, nat_eq, Bool-cases, Option-cases, ok, ℕ, ◌≡◌, refl, ◌∙◌, ◌⊎◌, inl, inr, true,
  false, ◌&&◌, none, some, [], ◌∷◌, arith, Bytes, bytes_eq, bytes_eq_refl, text_eq, Result-cases,
}

-- What is marshalled is read back.
pub record CodecLaws (m : MetaStorageImpl) : Type 0 where
  pub cluster_view_back :
      (v : ClusterView) (b : Bytes)
      → m.cluster_view.marshal v ≡ some b
      → m.cluster_view.unmarshal b ≡ some v
  pub shard_view_back :
      (v : ShardView) (b : Bytes)
      → m.shard_view.marshal v ≡ some b
      → m.shard_view.unmarshal b ≡ some v

module _ (e : Etcd) (laws : EtcdLaws e) (m : MetaStorageImpl) (c0 : ℕ) (root : Bytes) where
  abbrev pub impl : MetaStorageImpl
  impl = record m { root_path = c0 ∷ root }

  abbrev pub cluster_key : ℕ → Bytes → Bytes
  cluster_key = make_cluster_view_key (c0 ∷ root)

  abbrev pub shard_key : ℕ → ℕ → Bytes → Bytes
  shard_key = make_shard_view_key (c0 ∷ root)

  -- The store after the transaction of `UpdateShardView`, and after the removal of an expired view.
  abbrev pub written : ℕ → ShardView → Bytes → Content → Content
  written c v b ct j =
      if bytes_eq (shard_key c v.shard_id (fmt_id v.version)) j
      then some b
      else if bytes_eq (shard_key c v.shard_id latest_version) j
      then some (fmt_id v.version)
      else ct j

  abbrev pub IsWritten : ℕ → ShardView → ℕ → Bytes → Content → Content → Type 0
  IsWritten c v n b ct ct' =
      ((j : Bytes) → ct' j ≡ written c v b ct j)
      ⊎ (((n == v.version) ≡ false)
          × ((j : Bytes)
              → ct' j ≡ (
                  if bytes_eq (shard_key c v.shard_id (fmt_id n)) j
                  then none
                  else written c v b ct j)))

  pub removed :
      (c : ℕ) (v : ShardView) (n : ℕ) (b : Bytes) (ct : Content) (t : e.State)
      → ((j : Bytes) → e.content t j ≡ written c v b ct j)
      → IsWritten c v n b ct (e.content (remove_expired e impl c v n t).1)
  removed c v n b ct t wrote =
      let o = del (shard_key c v.shard_id (fmt_id n)) in
      elim (Bool-cases (n == v.version)) [
        | inl p ↦ rw p (inl wrote)
        | inr p ↦ rw p (elim (Result-cases (e.exec o t).0) [
          | inl (u, f) ↦ inr (refl, λ j. laws.exec_ok o t j f ∙ rw (wrote j) refl)
          | inr (x, f) ↦ elim (laws.exec_fails o t x f) [
            | inl same ↦ inl (λ j. same j ∙ wrote j)
            | inr gone ↦ inr (refl, λ j. gone j ∙ rw (wrote j) refl)
          ]
        ])
      ]

  remove_expired_ok :
      (c : ℕ) (v : ShardView) (n : ℕ) (t : e.State) → (remove_expired e impl c v n t).0 ≡ ok tt
  remove_expired_ok c v n t = ground arith

  pub update_shard_view_parts :
      (c : ℕ) (v : ShardView) (n : ℕ) (t : e.State)
      → (update_shard_view e impl c v n t).0 ≡ ok tt
      → (b : Bytes) × (m.shard_view.marshal v ≡ some b)
        × IsWritten c v n b (e.content t) (e.content (update_shard_view e impl c v n t).1)
  unfolding update_shard_view
  update_shard_view_parts c v n t h = elim (Option-cases (m.shard_view.marshal v)) [
    | inl q ↦ absurd (cc (rw q at h))
    | inr (b, q) ↦
        let key = shard_key c v.shard_id (fmt_id v.version) in
        let latest = make_shard_view_latest_version_key (c0 ∷ root) c v.shard_id in
        let os = put latest (fmt_id v.version) ∷ put key b ∷ [] in
        elim (Result-cases (e.txn [] os t).0) [
          | inr (x, f) ↦ absurd (cc (rw (q, f) at h))
          | inl (d, f) ↦
              let one : d ≡ true = laws.txn_ok [] os t d f in
              let wrote = λ (j : Bytes). rw one at (laws.txn_writes [] os t d j f) in
              (
                b,
                q,
                rw (q, f, one)
                    (removed c v n b (e.content t) (e.txn [] os t).1
                      (λ j. wrote j ∙ rw (shard_latest_version_key (c0 ∷ root) c v.shard_id) refl)),
              )
        ]
  ]

  -- Whatever it returns, an update has written nothing, or the view and its version.
  pub update_shard_view_any :
      (c : ℕ) (v : ShardView) (n : ℕ) (t : e.State)
      → ((j : Bytes) → e.content (update_shard_view e impl c v n t).1 j ≡ e.content t j)
        ⊎ ((b : Bytes) × (m.shard_view.marshal v ≡ some b)
            × IsWritten c v n b (e.content t) (e.content (update_shard_view e impl c v n t).1))
  unfolding update_shard_view
  update_shard_view_any c v n t = elim (Option-cases (m.shard_view.marshal v)) [
    | inl q ↦ inl (rw q (λ j. refl))
    | inr (b, q) ↦
        let key = shard_key c v.shard_id (fmt_id v.version) in
        let latest = make_shard_view_latest_version_key (c0 ∷ root) c v.shard_id in
        let os = put latest (fmt_id v.version) ∷ put key b ∷ [] in
        let k = shard_latest_version_key (c0 ∷ root) c v.shard_id in
        elim (Result-cases (e.txn [] os t).0) [
          | inl (d, f) ↦
              let one : d ≡ true = laws.txn_ok [] os t d f in
              inr (
                update_shard_view_parts c v n t
                  (rw (q, f, one) (remove_expired_ok c v n (e.txn [] os t).1)))
          | inr (x, f) ↦ elim (laws.txn_fails [] os t x f) [
            | inl same ↦ inl (rw (q, f) same)
            | inr (_, wrote) ↦ inr (b, q, rw (q, f) (inl (λ j. wrote j ∙ rw k refl)))
          ]
        ]
  ]

  pub latest_name : is_name latest_version ≡ true
  latest_name = refl

  -- What a write of a view leaves at the keys of the shard, of other shards, and of the clusters.
  module _ (c : ℕ) (v : ShardView) (n : ℕ) (b : Bytes) (ct ct' : Content)
      (w : IsWritten c v n b ct ct') where
    abbrev at : Bytes → Bytes
    at = shard_key c v.shard_id

    pub written-latest : ct' (at latest_version) ≡ some (fmt_id v.version)
    written-latest =
        let p =
          shard_view_key_eq c0 root c c v.shard_id v.shard_id (fmt_id v.version) latest_version
            (fmt_id-is_name v.version) latest_name in
        let q =
          shard_view_key_eq c0 root c c v.shard_id v.shard_id (fmt_id n) latest_version
            (fmt_id-is_name n) latest_name in
        elim w [
          | inl f ↦ ground (
            arith,
            f (at latest_version),
            p,
            fmt_id-latest_version v.version,
            bytes_eq_refl (at latest_version),
          )
          | inr (d, f) ↦ ground (
            arith,
            f (at latest_version),
            p,
            q,
            fmt_id-latest_version v.version,
            fmt_id-latest_version n,
            bytes_eq_refl (at latest_version),
          )
        ]

    pub written-view : ct' (at (fmt_id v.version)) ≡ some b
    written-view =
        let q =
          shard_view_key_eq c0 root c c v.shard_id v.shard_id (fmt_id n) (fmt_id v.version)
            (fmt_id-is_name n) (fmt_id-is_name v.version) in
        elim w [
          | inl f ↦ ground (arith, f (at (fmt_id v.version)), bytes_eq_refl (at (fmt_id v.version)))
          | inr (d, f) ↦ ground (
            arith,
            f (at (fmt_id v.version)),
            q,
            fmt_id_eq n v.version,
            bytes_eq_refl (at (fmt_id v.version)),
          )
        ]

    pub written-other :
        (a k : ℕ) (x : Bytes)
        → is_name x ≡ true
        → ((c == a) && (v.shard_id == k)) ≡ false
        → ct' (shard_key a k x) ≡ ct (shard_key a k x)
    written-other a k x hx d =
        let p = λ (y : Bytes) (hy : is_name y ≡ true).
          shard_view_key_eq c0 root c a v.shard_id k y x hy hx in
        let j = shard_key a k x in
        let p1 = p (fmt_id v.version) (fmt_id-is_name v.version) in
        let p2 = p latest_version latest_name in
        let p3 = p (fmt_id n) (fmt_id-is_name n) in
        elim w [
          | inl f ↦ ground (arith, f j, p1, p2)
          | inr (_, f) ↦ ground (arith, f j, p1, p2, p3)
        ]

    pub written-cluster :
        (a : ℕ) (x : Bytes) → is_name x ≡ true → ct' (cluster_key a x) ≡ ct (cluster_key a x)
    written-cluster a x hx =
        let p = λ (y : Bytes) (hy : is_name y ≡ true).
          shard_key-cluster_key c0 root a c v.shard_id x y hx hy in
        let j = cluster_key a x in
        let p1 = p (fmt_id v.version) (fmt_id-is_name v.version) in
        let p2 = p latest_version latest_name in
        let p3 = p (fmt_id n) (fmt_id-is_name n) in
        elim w [
          | inl f ↦ ground (arith, f j, p1, p2)
          | inr (_, f) ↦ ground (arith, f j, p1, p2, p3)
        ]
