-- ===== src/Scheduler/ShardPicker.antt =====
-- server/coordinator/shard_picker.go: the shards with the fewest tables are picked first.
pub mod Picks
use ceresmeta.Storage.{ShardNode, ShardView}
use ceresmeta.Topology.{Topology}
use ceresmeta.Scheduler.{Snapshot}
use ceresmeta.Common.{
  ltb, if◌then◌else◌, ◌==◌, nat_eq, length, get_elem?, Map, lookup, insert, Result, ok, err, ℕ,
  zero, suc, ◌+◌, ◌%◌, Bool, Option, none, some, List, [], ◌∷◌, map, node_number_not_enough,
  panicked,
}

unfoldable pub map_shards : List ShardNode → Map ℕ ShardNode → Map ℕ ShardNode
unfolding insert
map_shards [] m = m
map_shards (s ∷ ss) m = map_shards ss (insert s.id s m)

-- The view of a shard; Go reads the zero view where there is none.
abbrev view_or_zero : Map ℕ ShardView → ℕ → ShardView
unfolding lookup
view_or_zero views k = elim (lookup k views) [
  | some v ↦ v
  | none ↦ record { shard_id = 0; version = 0; table_ids = []; created_at = 0 }
]

unfoldable pub before : Map ℕ ShardView → ℕ → ℕ → Bool
unfolding lookup
before views j k =
    let v = view_or_zero views j in
    let w = view_or_zero views k in
    if length v.table_ids == length w.table_ids
    then ltb v.shard_id w.shard_id
    else ltb (length v.table_ids) (length w.table_ids)

-- `sort.SliceStable`
unfoldable pub insert_stable : Map ℕ ShardView → ℕ → List ℕ → List ℕ
unfolding before
insert_stable views k [] = k ∷ []
insert_stable views k (j ∷ js) =
    let later = j ∷ insert_stable views k js in if before views j k then later else k ∷ j ∷ js

unfoldable pub sort_stable : Map ℕ ShardView → List ℕ → List ℕ
unfolding insert_stable
sort_stable views [] = []
sort_stable views (k ∷ ks) = insert_stable views k (sort_stable views ks)

-- The loop from i on, for so many picks; `none` is a panic.
unfoldable pub select : List ℕ → Map ℕ ShardNode → ℕ → ℕ → Option (List ShardNode)
unfolding lookup
select sorted shards i zero = some []
select sorted shards i (suc n) = elim (get_elem? sorted (i % length sorted)) [
  | none ↦ none
  | some k ↦ elim (lookup k shards) [
    | none ↦ none
    | some s ↦ elim (select sorted shards (i + 1) n) [ none ↦ none | some ss ↦ some (s ∷ ss) ]
  ]
]

unfoldable pub pick_shards : Snapshot → ℕ → Result (List ShardNode)
pick_shards s expect =
    let nodes = s.topology.cluster_view.shard_nodes in
    let sorted = sort_stable s.topology.shard_views_mapping (map (λ n. n.id) nodes) in
    if length nodes == 0
    then err node_number_not_enough
    else elim (select sorted (map_shards nodes []) 0 expect) [ none ↦ err panicked | some r ↦ ok r ]
