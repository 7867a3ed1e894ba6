-- ===== src/Procedure/Store/Laws.antt =====
-- The calls on the procedures in etcd: what each leaves of which procedure.
use ceresmeta.Etcd.{Etcd, EtcdLaws, apply_all, put, del}
use ceresmeta.EtcdUtil.{get_value, one_value}
use ceresmeta.Procedure.{Kind}
use ceresmeta.Procedure.Calls.{Meta}
use ceresmeta.Procedure.Store.{
  EtcdStorageImpl, generate_key_path, normal_key_path, deleted_key_path, create_or_update,
  mark_deleted,
}
use ceresmeta.Common.{
  nat_eq, Option-cases, ok, err, ℕ, ◌≡◌, refl, sym, ◌∙◌, inl, inr, Bool, true, false, none, some,
  List, [], ◌∷◌, arith, storage_not_found, Bytes, bytes_eq_refl, Result-cases,
}
use ceresmeta.Procedure.Store.Keys.{key_place, key_other}

one_value_keeps : {S : Type 0} (vs : List Bytes) (s : S) → (one_value vs s).1 ≡ s
one_value_keeps [] s = refl
one_value_keeps (v ∷ []) s = refl
one_value_keeps (v ∷ w ∷ vs) s = refl

-- The keys of other procedures hold what they held.
module _ (e : Etcd) (m : EtcdStorageImpl) where
  abbrev pub OthersKept : Kind → ℕ → e.State → e.State → Type 0
  OthersKept k i s s' =
      (l : Kind) (j : ℕ) (b : Bool)
      → ((k ≡ l) × (i ≡ j) → ⊥)
      → e.content s' (generate_key_path m j l b) ≡ e.content s (generate_key_path m j l b)

-- The calls, for an etcd with its documented behaviour and a root path that is not empty.
module _ (e : Etcd) (laws : EtcdLaws e) (m : EtcdStorageImpl) (c : ℕ) (root : Bytes)
    (rooted : m.root_path ≡ c ∷ root) where
  -- What the read before a mark has returned.
  get_value_ok :
      (key : Bytes) (s : e.State) (v : Bytes)
      → (get_value e key s).0 ≡ ok v
      → e.content s key ≡ some v
  unfolding get_value
  get_value_ok key s v h = elim (Result-cases (e.get key s).0) [
    | inr (x, f) ↦ absurd (cc (rw f at h))
    | inl (kvs, f) ↦
        let p = laws.get_ok key s kvs f in
        elim (Option-cases (e.content s key)) [
          | inl q ↦ absurd (cc (rw (f, p, q) at h))
          | inr (w, q) ↦ q ∙ cc (rw (f, p, q) at h)
        ]
  ]

  get_value_keeps :
      (key j : Bytes) (s : e.State) → e.content (get_value e key s).1 j ≡ e.content s j
  unfolding get_value
  get_value_keeps key j s = elim (Result-cases (e.get key s).0) [
    | inr (x, f) ↦ rw f (laws.get_keeps key j s)
    | inl (kvs, f) ↦ rw f (rw (one_value_keeps kvs (e.get key s).1) (laws.get_keeps key j s))
  ]

  -- A mark that succeeds moves what was there.
  mark_deleted_moves :
      (k : Kind) (i : ℕ) (s : e.State)
      → (mark_deleted e m k i s).0 ≡ ok tt
      → (v : Bytes) × (e.content s (normal_key_path m k i) ≡ some v)
        × ((j : Bytes)
            → e.content (mark_deleted e m k i s).1 j
              ≡ apply_all
                  (del (normal_key_path m k i) ∷ put (deleted_key_path m k i) v ∷ [])
                  (e.content (get_value e (normal_key_path m k i) s).1)
                  j)
  unfolding mark_deleted
  mark_deleted_moves k i s h =
      let key = normal_key_path m k i in
      let t = (get_value e key s).1 in
      elim (Result-cases (get_value e key s).0) [
        | inr (x, f) ↦ absurd (cc (rw f at h))
        | inl (v, f) ↦
            let os = del key ∷ put (deleted_key_path m k i) v ∷ [] in
            elim (Result-cases (e.txn [] os t).0) [
              | inr (x, g) ↦ absurd (cc (rw (f, g) at h))
              | inl (d, g) ↦ (
                v,
                get_value_ok key s v f,
                λ j. rw (f, g) (rw (laws.txn_ok [] os t d g) at (laws.txn_writes [] os t d j g)),
              )
            ]
      ]

  pub mark_deleted_ok :
      (k : Kind) (i : ℕ) (s : e.State)
      → (mark_deleted e m k i s).0 ≡ ok tt
      → (v : Bytes) × (e.content s (normal_key_path m k i) ≡ some v)
        × (e.content (mark_deleted e m k i s).1 (normal_key_path m k i) ≡ none)
        × (e.content (mark_deleted e m k i s).1 (deleted_key_path m k i) ≡ some v)
        × OthersKept e m k i s (mark_deleted e m k i s).1
  unfolding normal_key_path deleted_key_path
  mark_deleted_ok k i s h =
      let (v, there, moved) = mark_deleted_moves k i s h in
      let normal = normal_key_path m k i in
      let deleted = deleted_key_path m k i in
      (
        v,
        there,
        moved normal
            ∙ ground (arith, key_place m c root rooted i i k k true false, bytes_eq_refl normal),
        moved deleted ∙ ground (arith, bytes_eq_refl deleted),
        λ l j b o.
            let key = generate_key_path m j l b in
            moved key
            ∙ ground (
              arith,
              key_other m c root rooted i j k l false b o,
              key_other m c root rooted i j k l true b o,
            )
            ∙ get_value_keeps normal key s,
      )

  -- A mark for a procedure that is not there changes nothing.
  pub mark_deleted_missing :
      (k : Kind) (i : ℕ) (s : e.State) (kvs : List Bytes)
      → (e.get (normal_key_path m k i) s).0 ≡ ok kvs
      → e.content s (normal_key_path m k i) ≡ none
      → ((mark_deleted e m k i s).0 ≡ err storage_not_found)
        × ((j : Bytes) → e.content (mark_deleted e m k i s).1 j ≡ e.content s j)
  unfolding mark_deleted get_value
  mark_deleted_missing k i s kvs f q =
      let key = normal_key_path m k i in
      let p : kvs ≡ [] = laws.get_ok key s kvs f ∙ rw q refl in
      (rw (f, p) refl, λ j. rw (f, p) (laws.get_keeps key j s))

  -- A write that succeeds leaves the encoded procedure at its key.
  pub create_or_update_ok :
      (meta : Meta) (s : e.State)
      → (create_or_update e m meta s).0 ≡ ok tt
      → (v : Bytes) × (m.codec.marshal meta ≡ some v)
        × (e.content (create_or_update e m meta s).1 (normal_key_path m meta.kind meta.id) ≡ some v)
        × (e.content (create_or_update e m meta s).1 (deleted_key_path m meta.kind meta.id)
            ≡ e.content s (deleted_key_path m meta.kind meta.id))
        × OthersKept e m meta.kind meta.id s (create_or_update e m meta s).1
  unfolding create_or_update normal_key_path deleted_key_path
  create_or_update_ok meta s h = elim (Option-cases (m.codec.marshal meta)) [
    | inl q ↦ absurd (cc (rw q at h))
    | inr (v, q) ↦
        let k = meta.kind in
        let i = meta.id in
        let normal = normal_key_path m k i in
        let deleted = deleted_key_path m k i in
        let done : (e.exec (put normal v) s).0 ≡ ok tt = rw q at h in
        let wrote = λ (j : Bytes). laws.exec_ok (put normal v) s j done in
        (
          v,
          q,
          rw q (wrote normal ∙ ground (arith, bytes_eq_refl normal)),
          rw q (wrote deleted ∙ ground (arith, key_place m c root rooted i i k k false true)),
          λ l j b o. rw q (
              wrote (generate_key_path m j l b)
              ∙ ground (arith, key_other m c root rooted i j k l false b o)),
        )
  ]

  -- With a codec that reads back what it marshals, a root path that is not empty and an etcd with its
  -- documented behaviour: a procedure that was written and then marked deleted, both with success, is
  -- under the key of its mark and decodes to what was written; its own key is empty, and the keys of
  -- other procedures hold what they held.
  pub mark_deleted-create_or_update :
      ((a : Meta) (v : Bytes) → m.codec.marshal a ≡ some v → m.codec.unmarshal v ≡ some a)
      → (meta : Meta) (s : e.State) → (create_or_update e m meta s).0 ≡ ok tt
      → (mark_deleted e m meta.kind meta.id (create_or_update e m meta s).1).0 ≡ ok tt
      → let s' = (mark_deleted e m meta.kind meta.id (create_or_update e m meta s).1).1 in
        (e.content s' (normal_key_path m meta.kind meta.id) ≡ none)
        × ((v : Bytes) × (e.content s' (deleted_key_path m meta.kind meta.id) ≡ some v)
            × (m.codec.unmarshal v ≡ some meta))
        × OthersKept e m meta.kind meta.id s s'
  mark_deleted-create_or_update back meta s h h' =
      let t = (create_or_update e m meta s).1 in
      let (v, q, wrote, _, others) = create_or_update_ok meta s h in
      let (w, there, gone, moved, others') = mark_deleted_ok meta.kind meta.id t h' in
      let same : v ≡ w = cc (sym wrote ∙ there) in
      (gone, (v, moved ∙ rw same refl, back meta v q), λ l j b o. others' l j b o ∙ others l j b o)
