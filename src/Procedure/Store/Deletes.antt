-- ===== src/Procedure/Store/Deletes.antt =====
-- Delete on the procedures in etcd, and its second transaction, whose error is only logged.
use ceresmeta.Etcd.{Etcd, EtcdLaws, del, key_exists}
use ceresmeta.Procedure.{Kind}
use ceresmeta.Procedure.Store.{
  EtcdStorageImpl, generate_key_path, normal_key_path, deleted_key_path, delete_mark, delete,
}
use ceresmeta.Common.{
  nat_eq, Bool-cases, ok, ℕ, ◌≡◌, refl, ◌∙◌, ◌⊎◌, inl, inr, true, false, none, [], ◌∷◌, arith,
  Bytes, bytes_eq, bytes_eq_refl, Result-cases,
}
use ceresmeta.Procedure.Store.Keys.{key_place, key_other}
use ceresmeta.Procedure.Store.Laws.{OthersKept}

-- The calls, for an etcd with its documented behaviour and a root path that is not empty.
module _ (e : Etcd) (laws : EtcdLaws e) (m : EtcdStorageImpl) (c : ℕ) (root : Bytes)
    (rooted : m.root_path ≡ c ∷ root) where
  delete_mark_keeps :
      (k : Kind) (i : ℕ) (s : e.State) (j : Bytes)
      → bytes_eq (deleted_key_path m k i) j ≡ false
      → e.content (delete_mark e m k i s).1 j ≡ e.content s j
  unfolding delete_mark
  delete_mark_keeps k i s j h =
      let key = deleted_key_path m k i in
      let cs = key_exists key ∷ [] in
      let os = del key ∷ [] in
      elim (Result-cases (e.txn cs os s).0) [
        | inl (d, f) ↦ let w = laws.txn_writes cs os s d j f in ground (arith, h, w)
        | inr (x, f) ↦ elim (laws.txn_fails cs os s x f) [
          | inl same ↦ same j
          | inr (_, wrote) ↦ let w = wrote j in ground (arith, h, w)
        ]
      ]

  delete_mark_at :
      (k : Kind) (i : ℕ) (s : e.State)
      → (e.content (delete_mark e m k i s).1 (deleted_key_path m k i) ≡ none)
        ⊎ (e.content (delete_mark e m k i s).1 (deleted_key_path m k i)
            ≡ e.content s (deleted_key_path m k i))
  unfolding delete_mark
  delete_mark_at k i s =
      let key = deleted_key_path m k i in
      let cs = key_exists key ∷ [] in
      let os = del key ∷ [] in
      elim (Result-cases (e.txn cs os s).0) [
        | inl (d, f) ↦
            let w = laws.txn_writes cs os s d key f in
            elim (Bool-cases d) [
              | inl y ↦ inl (w ∙ rw y (ground (arith, bytes_eq_refl key)))
              | inr n ↦ inr (w ∙ rw n refl)
            ]
        | inr (x, f) ↦ elim (laws.txn_fails cs os s x f) [
          | inl same ↦ inr (same key)
          | inr (_, wrote) ↦ inl (wrote key ∙ ground (arith, bytes_eq_refl key))
        ]
      ]

  -- With a root path that is not empty and an etcd with its documented behaviour, a Delete that succeeds
  -- leaves nothing at the key of the procedure; its mark is gone or as it was, and the keys of other
  -- procedures hold what they held.
  pub delete_ok :
      (k : Kind) (i : ℕ) (s : e.State)
      → (delete e m k i s).0 ≡ ok tt
      → (e.content (delete e m k i s).1 (normal_key_path m k i) ≡ none)
        × ((e.content (delete e m k i s).1 (deleted_key_path m k i) ≡ none)
            ⊎ (e.content (delete e m k i s).1 (deleted_key_path m k i)
                ≡ e.content s (deleted_key_path m k i)))
        × OthersKept e m k i s (delete e m k i s).1
  unfolding delete normal_key_path deleted_key_path
  delete_ok k i s h =
      let normal = normal_key_path m k i in
      let deleted = deleted_key_path m k i in
      let os = del normal ∷ [] in
      let t = (e.txn [] os s).1 in
      elim (Result-cases (e.txn [] os s).0) [
        | inr (x, f) ↦ absurd (cc (rw f at h))
        | inl (d, f) ↦
            let wrote =
              λ (j : Bytes). rw (laws.txn_ok [] os s d f) at (laws.txn_writes [] os s d j f) in
            (
              rw f (
                  delete_mark_keeps k i t normal
                    (key_place m c root rooted i i k k true false (λ p. absurd (cc)))
                  ∙ wrote normal
                  ∙ ground (arith, bytes_eq_refl normal)),
              rw f (elim (delete_mark_at k i t) [
                | inl gone ↦ inl gone
                | inr same ↦ inr (
                    same
                    ∙ wrote deleted
                    ∙ ground (arith, key_place m c root rooted i i k k false true))
              ]),
              λ l j b o.
                  let key = generate_key_path m j l b in
                  rw f (
                    delete_mark_keeps k i t key (key_other m c root rooted i j k l true b o)
                    ∙ wrote key
                    ∙ ground (arith, key_other m c root rooted i j k l false b o)),
            )
      ]
