-- ===== src/Procedure/TransferLeader/Batch/Tests.antt =====
-- Two transfers of a batch that share a shard.
use ceresmeta.Procedure.{RelatedVersionInfo}
use ceresmeta.Procedure.TransferLeader.Batch.{
  merge_versions, merge_infos, build_batch_related_version_info,
}
use ceresmeta.Procedure.TransferLeader.Batch.Merge.{
  IsWithin, AllIn, AreConsistent, build_batch_sound, build_batch_least,
}
use ceresmeta.Common.{nat_eq, lookup, insert, ok, err, ℕ, ◌≡◌, refl, List, [], ◌∷◌, merge_batch}

abbrev info : List (ℕ × ℕ) → RelatedVersionInfo
info vs = record { cluster_id = 1; shard_with_version = vs; cluster_version = 5 }

abbrev first : RelatedVersionInfo
first = info ((1, 4) ∷ (2, 7) ∷ [])

abbrev second : RelatedVersionInfo
second = info ((2, 7) ∷ (3, 0) ∷ [])

abbrev merged : List (ℕ × ℕ)
merged = (1, 4) ∷ (2, 7) ∷ (3, 0) ∷ []

both_built : build_batch_related_version_info (first ∷ second ∷ []) ≡ ok (info merged)
unfolding build_batch_related_version_info merge_infos merge_versions lookup insert
both_built = refl

build_batch_sound_example : AreConsistent 1 5 merged (first ∷ second ∷ [])
build_batch_sound_example = build_batch_sound first (second ∷ []) (info merged) both_built

both-AreConsistent : AreConsistent 1 5 merged (first ∷ second ∷ [])
unfolding AreConsistent AllIn lookup
both-AreConsistent = (refl, (refl, ((refl, (refl, tt)), (refl, (refl, ((refl, (refl, tt)), tt))))))

build_batch_least_example :
    (q : RelatedVersionInfo) × ((build_batch_related_version_info (first ∷ second ∷ []) ≡ ok q)
      × ((q.cluster_id ≡ 1) × ((q.cluster_version ≡ 5) × IsWithin q.shard_with_version merged)))
build_batch_least_example = build_batch_least first (second ∷ []) merged both-AreConsistent

-- Another version of the shard that they share.
refused : build_batch_related_version_info (first ∷ info ((2, 8) ∷ []) ∷ []) ≡ err merge_batch
unfolding build_batch_related_version_info merge_infos merge_versions lookup insert
refused = refl
