-- ===== src/Procedure/TransferLeader/Batch/Merge.antt =====
-- The versions of a batch of transfers against those of its procedures.
use ceresmeta.Procedure.{RelatedVersionInfo}
use ceresmeta.Procedure.TransferLeader.Batch.{
  merge_versions, merge_infos, build_batch_related_version_info,
}
use ceresmeta.Common.{
  ◌==◌, nat_eq, Bool-cases, Option-cases, nat_beq_iff, Map, lookup, insert, lookup-insert, beq_refl,
  ok, ℕ, ◌≡◌, refl, sym, ◌∙◌, inl, inr, none, some, List, [], ◌∷◌, arith, Result-cases, nat_beq_iff,
  lookup-insert_same,
}

-- The versions of the one are those of the other where it has any.
abbrev pub IsWithin : Map ℕ ℕ → Map ℕ ℕ → Type 0
IsWithin m m' = (k v : ℕ) → lookup k m ≡ some v → lookup k m' ≡ some v

-- Each entry is one of the map.
unfoldable pub AllIn : List (ℕ × ℕ) → Map ℕ ℕ → Type 0
AllIn [] m = Unit {0}
AllIn ((k, v) ∷ vs) m = (lookup k m ≡ some v) × AllIn vs m

-- The procedures are of one cluster, at one version of it, with versions of the map.
unfoldable pub AreConsistent : ℕ → ℕ → Map ℕ ℕ → List RelatedVersionInfo → Type 0
unfolding AllIn
AreConsistent c v m [] = Unit {0}
AreConsistent c v m (i ∷ is) =
    (i.cluster_id ≡ c)
    × ((i.cluster_version ≡ v) × (AllIn i.shard_with_version m × AreConsistent c v m is))

IsWithin-insert : (m : Map ℕ ℕ) (k v : ℕ) → lookup k m ≡ none → IsWithin m (insert k v m)
IsWithin-insert m k v h j u e = ground (arith, lookup-insert k j v m, nat_beq_iff k j)

insert-IsWithin :
    (m m' : Map ℕ ℕ) (k v : ℕ) → lookup k m' ≡ some v → IsWithin m m' → IsWithin (insert k v m) m'
insert-IsWithin m m' k v h g j u e = ground (arith, lookup-insert k j v m, nat_beq_iff k j, g j u)

AllIn-more : (vs : List (ℕ × ℕ)) (m m' : Map ℕ ℕ) → IsWithin m m' → AllIn vs m → AllIn vs m'
unfolding AllIn
AllIn-more [] m m' g h = tt
AllIn-more ((k, v) ∷ vs) m m' g h = (g k v h.0, AllIn-more vs m m' g h.1)

module _ (k v : ℕ) (vs : List (ℕ × ℕ)) (m : Map ℕ ℕ) where
  merge_new : lookup k m ≡ none → merge_versions ((k, v) ∷ vs) m ≡ merge_versions vs (insert k v m)
  unfolding merge_versions
  merge_new e = rw (e, merge_versions) refl

  merge_same : lookup k m ≡ some v → merge_versions ((k, v) ∷ vs) m ≡ merge_versions vs m
  unfolding merge_versions
  merge_same e = rw (e, merge_versions) (rw (beq_refl v, merge_versions) refl)

  merge_ok_same :
      (w : ℕ) (m' : Map ℕ ℕ) → lookup k m ≡ some w → merge_versions ((k, v) ∷ vs) m ≡ ok m' → v ≡ w
  unfolding merge_versions
  merge_ok_same w m' e h = elim (Bool-cases (v == w)) [
    | inl q ↦ (nat_beq_iff v w).0 q
    | inr q ↦ ground (arith, e, q)
  ]

-- The result has what it had, and each entry merged.
merge_versions-AllIn :
    (vs : List (ℕ × ℕ)) (m m' : Map ℕ ℕ) → merge_versions vs m ≡ ok m' → IsWithin m m' × AllIn vs m'
unfolding merge_versions AllIn
merge_versions-AllIn [] m m' h = (λ k v e. let q : m ≡ m' = cc in cc, tt)
merge_versions-AllIn ((k, v) ∷ vs) m m' h = elim (Option-cases (lookup k m)) [
  | inl e ↦
      let (g, a) = merge_versions-AllIn vs (insert k v m) m' (sym (merge_new k v vs m e) ∙ h) in
      (λ j u q. g j u (IsWithin-insert m k v e j u q), (g k v (lookup-insert_same k v m), a))
  | inr (w, e) ↦
      let q : lookup k m ≡ some v = rw (merge_ok_same k v vs m w m' e h) e in
      let (g, a) = merge_versions-AllIn vs m m' (sym (merge_same k v vs m q) ∙ h) in
      (g, (g k v q, a))
]

-- Versions that one map has are merged, into no more than it has.
merge_versions_least :
    (vs : List (ℕ × ℕ)) (m m' : Map ℕ ℕ)
    → IsWithin m m'
    → AllIn vs m'
    → (r : Map ℕ ℕ) × ((merge_versions vs m ≡ ok r) × IsWithin r m')
unfolding merge_versions AllIn
merge_versions_least [] m m' g h = (m, (refl, g))
merge_versions_least ((k, v) ∷ vs) m m' g (e, h) = elim (Option-cases (lookup k m)) [
  | inl q ↦
      let (r, (p, w)) =
        merge_versions_least vs (insert k v m) m' (insert-IsWithin m m' k v e g) h in
      (r, (merge_new k v vs m q ∙ p, w))
  | inr (u, q) ↦
      let (r, (p, w)) = merge_versions_least vs m m' g h in
      (r, (merge_same k v vs m (let q2 = g k u q in cc) ∙ p, w))
]

module _ (i : RelatedVersionInfo) (is : List RelatedVersionInfo) (r : RelatedVersionInfo) where
  merge_infos_ok :
      (m : Map ℕ ℕ)
      → i.cluster_id ≡ r.cluster_id
      → i.cluster_version ≡ r.cluster_version
      → merge_versions i.shard_with_version r.shard_with_version ≡ ok m
      → merge_infos (i ∷ is) r ≡ merge_infos is (record r { shard_with_version = m })
  unfolding merge_infos
  merge_infos_ok m a b e = ground (arith, e)

  merge_infos_inv :
      (q : RelatedVersionInfo)
      → merge_infos (i ∷ is) r ≡ ok q
      → (i.cluster_id ≡ r.cluster_id)
        × ((i.cluster_version ≡ r.cluster_version)
            × ((m : Map ℕ ℕ) × ((merge_versions i.shard_with_version r.shard_with_version ≡ ok m)
                  × (merge_infos is (record r { shard_with_version = m }) ≡ ok q))))
  unfolding merge_infos
  merge_infos_inv q h =
      elim (Result-cases (merge_versions i.shard_with_version r.shard_with_version)) [
        | inl (m, e) ↦
            let a : i.cluster_id ≡ r.cluster_id = ground (arith, e) in
            let b : i.cluster_version ≡ r.cluster_version = ground (arith, e) in
            (a, (b, (m, (e, sym (merge_infos_ok m a b e) ∙ h))))
        | inr (x, e) ↦ absurd (ground (arith, e))
      ]

merge_infos_sound :
    (is : List RelatedVersionInfo) (r q : RelatedVersionInfo)
    → merge_infos is r ≡ ok q
    → IsWithin r.shard_with_version q.shard_with_version
      × AreConsistent r.cluster_id r.cluster_version q.shard_with_version is
unfolding merge_infos AreConsistent
merge_infos_sound [] r q h = (λ k v e. let p : r ≡ q = cc in cc, tt)
merge_infos_sound (i ∷ is) r q h =
    let (a, (b, (m, (e, f)))) = merge_infos_inv i is r q h in
    let (g, c) = merge_infos_sound is (record r { shard_with_version = m }) q f in
    let (g', d) = merge_versions-AllIn i.shard_with_version r.shard_with_version m e in
    (
      λ k v x. g k v (g' k v x),
      (a, (b, (AllIn-more i.shard_with_version m q.shard_with_version g d, c))),
    )

merge_infos_least :
    (is : List RelatedVersionInfo) (r : RelatedVersionInfo) (m : Map ℕ ℕ)
    → IsWithin r.shard_with_version m
    → AreConsistent r.cluster_id r.cluster_version m is
    → (q : RelatedVersionInfo) × ((merge_infos is r ≡ ok q)
        × ((q.cluster_id ≡ r.cluster_id)
            × ((q.cluster_version ≡ r.cluster_version) × IsWithin q.shard_with_version m)))
unfolding merge_infos AreConsistent
merge_infos_least [] r m g h = (r, (refl, (refl, (refl, g))))
merge_infos_least (i ∷ is) r m g (a, (b, (c, h))) =
    let (m', (e, w)) = merge_versions_least i.shard_with_version r.shard_with_version m g c in
    let (q, (f, x)) = merge_infos_least is (record r { shard_with_version = m' }) m w h in
    (q, (merge_infos_ok i is r m' a b e ∙ f, x))

-- A batch whose versions are built has procedures of one cluster, at one version of it, each with
-- versions that are those of the batch.
pub build_batch_sound :
    (i : RelatedVersionInfo) (is : List RelatedVersionInfo) (q : RelatedVersionInfo)
    → build_batch_related_version_info (i ∷ is) ≡ ok q
    → AreConsistent i.cluster_id i.cluster_version q.shard_with_version (i ∷ is)
unfolding build_batch_related_version_info
build_batch_sound i is q h = (merge_infos_sound (i ∷ is) _ q h).1

-- The versions of a batch are built whenever its procedures are of one cluster, at one version of it,
-- and some map has all their versions; the batch then has no version that the map has not.
pub build_batch_least :
    (i : RelatedVersionInfo) (is : List RelatedVersionInfo) (m : Map ℕ ℕ)
    → AreConsistent i.cluster_id i.cluster_version m (i ∷ is)
    → (q : RelatedVersionInfo) × ((build_batch_related_version_info (i ∷ is) ≡ ok q)
        × ((q.cluster_id ≡ i.cluster_id)
            × ((q.cluster_version ≡ i.cluster_version) × IsWithin q.shard_with_version m)))
unfolding build_batch_related_version_info lookup
build_batch_least i is m h = merge_infos_least (i ∷ is) _ m (λ k v e. cc) h
