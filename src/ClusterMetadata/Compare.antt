-- ===== src/ClusterMetadata/Compare.antt =====
-- What `sortCompare` and `simpleCompare` of server/cluster/metadata/cluster_metadata.go decide.
use ceresmeta.ClusterMetadata.{ShardInfo, shard_ids, same_ids, sort_compare, all_in, simple_compare}
use ceresmeta.Common.{
  if◌then◌else◌, ◌==◌, nat_eq, length, elem, insert_sorted, sort, ℕ, suc, ◌≡◌, refl, sym, ap, ◌∙◌,
  ◌↔◌, true, List, [], ◌∷◌, arith,
}

-- How often an id occurs.
abbrev pub count : ℕ → List ℕ → ℕ
count u [] = 0
count u (x ∷ xs) = let rest = count u xs in if x == u then suc rest else rest

count-insert_sorted : (u a : ℕ) (xs : List ℕ) → count u (insert_sorted a xs) ≡ count u (a ∷ xs)
count-insert_sorted u a [] = refl
count-insert_sorted u a (x ∷ xs) = ground (arith, count-insert_sorted u a xs)

count-sort : (u : ℕ) (xs : List ℕ) → count u (sort xs) ≡ count u xs
count-sort u [] = refl
count-sort u (x ∷ xs) = ground (arith, count-insert_sorted u x (sort xs), count-sort u xs)

length-insert_sorted : (a : ℕ) (xs : List ℕ) → length (insert_sorted a xs) ≡ suc (length xs)
length-insert_sorted a [] = refl
length-insert_sorted a (x ∷ xs) = ground (arith, length-insert_sorted a xs)

length-sort : (xs : List ℕ) → length (sort xs) ≡ length xs
length-sort [] = refl
length-sort (x ∷ xs) = ground (arith, length-insert_sorted x (sort xs), length-sort xs)

length-shard_ids : (is : List ShardInfo) → length (shard_ids is) ≡ length is
length-shard_ids [] = refl
length-shard_ids (i ∷ is) = ground (arith, length-shard_ids is)

same_ids_sound : (cs os : List ℕ) → length os ≡ length cs → same_ids cs os ≡ true → os ≡ cs
unfolding same_ids
same_ids_sound [] [] h e = refl
same_ids_sound [] (o ∷ os) h e = absurd (omega arith)
same_ids_sound (c ∷ cs) [] h e = absurd (omega arith)
same_ids_sound (c ∷ cs) (o ∷ os) h e = ground (arith, same_ids_sound cs os)

sort_compare_sound :
    (olds news : List ShardInfo)
    → sort_compare olds news ≡ true
    → sort (shard_ids olds) ≡ sort (shard_ids news)
unfolding sort_compare
sort_compare_sound olds news h = ground (
  arith,
  same_ids_sound (sort (shard_ids news)) (sort (shard_ids olds)),
  length-sort (shard_ids news),
  length-sort (shard_ids olds),
  length-shard_ids olds,
  length-shard_ids news,
)

-- Two lists of shards that sortCompare takes for the same hold every shard id equally often.
pub count-sort_compare :
    (olds news : List ShardInfo)
    → sort_compare olds news ≡ true
    → (u : ℕ) → count u (shard_ids olds) ≡ count u (shard_ids news)
count-sort_compare olds news h u =
    sym (count-sort u (shard_ids olds))
    ∙ ap (λ xs. count u xs) (sort_compare_sound olds news h)
    ∙ count-sort u (shard_ids news)

all_in_sound : (os ns : List ℕ) (u : ℕ) → all_in os ns ≡ true → elem u os ≡ true → elem u ns ≡ true
unfolding all_in
all_in_sound [] ns u h e = cc
all_in_sound (o ∷ os) ns u h e = ground (arith, all_in_sound os ns u)

all_in_complete :
    (os ns : List ℕ) → ((u : ℕ) → elem u os ≡ true → elem u ns ≡ true) → all_in os ns ≡ true
unfolding all_in
all_in_complete [] ns h = refl
all_in_complete (o ∷ os) ns h =
    let rest = all_in_complete os ns (λ u e. h u (ground arith)) in
    let first = h o (ground arith) in ground arith

-- simpleCompare takes two lists for the same exactly when they have one length and every old shard id
-- is a new one.
pub simple_compare_iff :
    (olds news : List ShardInfo)
    → (simple_compare olds news ≡ true) ↔ (
        (length olds ≡ length news)
        × ((u : ℕ) → elem u (shard_ids olds) ≡ true → elem u (shard_ids news) ≡ true))
unfolding simple_compare
simple_compare_iff olds news = (
  λ h. (ground arith, λ u e. all_in_sound (shard_ids olds) (shard_ids news) u (ground arith) e),
  λ (l, h). let a = all_in_complete (shard_ids olds) (shard_ids news) h in ground arith,
)
