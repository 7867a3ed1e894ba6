-- ===== src/Procedure/TransferLeader/Batch.antt =====
-- server/coordinator/procedure/operation/transferleader/batch_transfer_leader.go.
pub mod Merge
mod Tests
use ceresmeta.Procedure.{
  Procedure, Kind, kind_transfer_leader, State, state_init, state_finished, state_failed,
  state_cancelled, Priority, RelatedVersionInfo,
}
use ceresmeta.Common.{
  ◌==◌, nat_eq, Map, lookup, insert, Result, ok, err, Exec, ℕ, true, false, none, some, List, [],
  ◌∷◌, map, panicked, merge_batch, empty_batch,
}

pub record BatchTransferLeader : Type 0 where
  pub id : ℕ
  pub batch : List Procedure
  pub related_version_info : RelatedVersionInfo
  pub state : State

-- The loop over the shard versions of one procedure.
unfoldable pub merge_versions : List (ℕ × ℕ) → Map ℕ ℕ → Result (Map ℕ ℕ)
merge_versions [] m = ok m
merge_versions ((k, v) ∷ vs) m = elim (lookup k m) [
  | none ↦ merge_versions vs (insert k v m)
  | some w ↦ elim (v == w) [ true ↦ merge_versions vs m | false ↦ err merge_batch ]
]

-- The loop over the procedures.
unfoldable pub merge_infos :
    List RelatedVersionInfo → RelatedVersionInfo → Result RelatedVersionInfo
merge_infos [] r = ok r
merge_infos (i ∷ is) r = elim (i.cluster_id == r.cluster_id) [
  | false ↦ err merge_batch
  | true ↦ elim (i.cluster_version == r.cluster_version) [
    | false ↦ err merge_batch
    | true ↦ elim (merge_versions i.shard_with_version r.shard_with_version) [
      | err e ↦ err e
      | ok m ↦ merge_infos is (record r { shard_with_version = m })
    ]
  ]
]

abbrev empty_info : RelatedVersionInfo
empty_info = record { cluster_id = 0; shard_with_version = []; cluster_version = 0 }

unfoldable pub build_batch_related_version_info :
    List RelatedVersionInfo → Result RelatedVersionInfo
build_batch_related_version_info [] = ok empty_info
build_batch_related_version_info (i ∷ is) = merge_infos (i ∷ is) (record {
  cluster_id = i.cluster_id;
  shard_with_version = [];
  cluster_version = i.cluster_version;
})

abbrev pub infos : List Procedure → List RelatedVersionInfo
infos ps = map (λ p. p.related_version_info) ps

unfoldable pub new_batch : ℕ → List Procedure → Result BatchTransferLeader
new_batch id [] = err empty_batch
new_batch id (p ∷ ps) = elim (build_batch_related_version_info (infos (p ∷ ps))) [
  | err e ↦ err e
  | ok v ↦ ok (record { id = id; batch = p ∷ ps; related_version_info = v; state = state_init })
]

-- A batch is not empty, or its priority is an index out of range.
abbrev pub priority : BatchTransferLeader → Result Priority
priority b = elim b.batch [ [] ↦ err panicked | p ∷ ps ↦ ok p.priority ]

-- `Start`, over what `Wait` of the group of goroutines answers once each procedure has returned.
unfoldable pub start_batch :
    (List (Result (Unit {0})) → Result (Unit {0}))
    → List (Result (Unit {0}))
    → Exec BatchTransferLeader (Unit {0})
start_batch wait results b = elim (wait results) [
  | err e ↦ (err e, record b { state = state_failed })
  | ok u ↦ (ok tt, record b { state = state_finished })
]

abbrev pub cancel : Exec BatchTransferLeader (Unit {0})
cancel b = (ok tt, record b { state = state_cancelled })
