-- ===== src/Scheduler/ShardPicker/Picks.antt =====
-- The picks of shard_picker.go.
use ceresmeta.Storage.{ShardNode, ShardView}
use ceresmeta.Scheduler.{Snapshot}
use ceresmeta.Scheduler.ShardPicker.{
  map_shards, before, insert_stable, sort_stable, select, pick_shards,
}
use ceresmeta.Common.{
  ◌==◌, nat_eq, Bool-cases, length, get_elem?, elem, Map, lookup, insert, lookup-insert, ok, ℕ,
  zero, suc, ◌+◌, ◌%◌, ◌<◌, ◌≡◌, refl, sym, ap, ◌∙◌, ◌⊎◌, inl, inr, true, false, ◌||◌, some, List,
  [], ◌∷◌, map, arith,
}

abbrev pub ids : List ShardNode → List ℕ
ids ss = map (λ s. s.id) ss

length-insert_stable :
    (views : Map ℕ ShardView) (k : ℕ) (js : List ℕ)
    → length (insert_stable views k js) ≡ suc (length js)
unfolding insert_stable
length-insert_stable views k [] = refl
length-insert_stable views k (j ∷ js) = ground (arith, length-insert_stable views k js)

length-sort_stable :
    (views : Map ℕ ShardView) (ks : List ℕ) → length (sort_stable views ks) ≡ length ks
unfolding sort_stable
length-sort_stable views [] = refl
length-sort_stable views (k ∷ ks) =
    omega (arith, length-insert_stable views k (sort_stable views ks), length-sort_stable views ks)

elem-insert_stable :
    (views : Map ℕ ShardView) (k i : ℕ) (js : List ℕ)
    → elem i (insert_stable views k js) ≡ (k == i) || elem i js
unfolding insert_stable
elem-insert_stable views k i [] = refl
elem-insert_stable views k i (j ∷ js) = ground (arith, elem-insert_stable views k i js)

elem-sort_stable :
    (views : Map ℕ ShardView) (i : ℕ) (ks : List ℕ) → elem i (sort_stable views ks) ≡ elem i ks
unfolding sort_stable
elem-sort_stable views i [] = refl
elem-sort_stable views i (k ∷ ks) =
    ground (arith, elem-insert_stable views k i (sort_stable views ks), elem-sort_stable views i ks)

-- Each shard of the view has an entry of its own id.
map_shards-found :
    (ss : List ShardNode) (m : Map ℕ ShardNode) (k : ℕ)
    → ((s : ShardNode) → lookup k m ≡ some s → s.id ≡ k)
    → (elem k (ids ss) ≡ true) ⊎ ((s : ShardNode) × (lookup k m ≡ some s))
    → (s : ShardNode) × (lookup k (map_shards ss m) ≡ some s) × (s.id ≡ k)
unfolding map_shards
map_shards-found [] m k own (inl h) = absurd (cc)
map_shards-found [] m k own (inr (s, e)) = (s, e, own s e)
map_shards-found (x ∷ ss) m k own h =
    let added = lookup-insert x.id k x m in
    map_shards-found ss (insert x.id x m) k
      (λ s e. elim (Bool-cases (x.id == k)) [
        | inl p ↦
            let same : some x ≡ some s = sym (added ∙ rw p refl) ∙ e in
            let equal : x ≡ s = cc in ap (λ y. y.id) (sym equal) ∙ ground arith
        | inr p ↦ own s (sym (added ∙ rw p refl) ∙ e)
      ])
      (elim (Bool-cases (x.id == k)) [
        | inl p ↦ inr (x, added ∙ rw p refl)
        | inr p ↦ elim h [
          | inl f ↦ inl (ground (arith, f, p))
          | inr (s, e) ↦ inr (s, added ∙ rw p e)
        ]
      ])

get_key :
    (ks : List ℕ) (i : ℕ) → i < length ks → (k : ℕ) × (get_elem? ks i ≡ some k) × (elem k ks ≡ true)
get_key [] i h = absurd (omega arith)
get_key (k ∷ ks) zero h = (k, refl, ground arith)
get_key (k ∷ ks) (suc i) h = let (j, e, m) = get_key ks i (omega arith) in (j, e, ground arith)

length-ids : (ss : List ShardNode) → length (ids ss) ≡ length ss
length-ids [] = refl
length-ids (s ∷ ss) = omega (arith, length-ids ss)

nothing_found : (k : ℕ) (s : ShardNode) → lookup {V = ShardNode} k [] ≡ some s → ⊥
unfolding lookup
nothing_found k s h = cc

-- The j-th of the picks, counted from i on, is the node of the shard whose turn it is.
abbrev pub Turn : List ℕ → ℕ → List ShardNode → ℕ → Type 0
Turn sorted i r j =
    (s : ShardNode) × (get_elem? r j ≡ some s)
    × (get_elem? sorted ((i + j) % length sorted) ≡ some s.id)

select-Turn :
    (sorted : List ℕ) (shards : Map ℕ ShardNode) (n i : ℕ)
    → 0 < length sorted
    → ((k : ℕ) → elem k sorted ≡ true → (s : ShardNode) × (lookup k shards ≡ some s) × (s.id ≡ k))
    → (r : List ShardNode) × (select sorted shards i n ≡ some r)
      × (length r ≡ n)
      × ((j : ℕ) → j < n → Turn sorted i r j)
unfolding select
select-Turn sorted shards zero i some_key found = ([], refl, refl, λ j h. absurd (omega arith))
select-Turn sorted shards (suc n) i some_key found =
    let (k, g, m) = get_key sorted (i % length sorted) (omega arith) in
    let (s, l, same) = found k m in
    let (r, e, len, turns) = select-Turn sorted shards n (i + 1) some_key found in
    (s ∷ r, rw (g, l, e, select) refl, omega (arith, len), each k s r g same turns)
  where
    each :
        (k : ℕ) (s : ShardNode) (r : List ShardNode)
        → get_elem? sorted (i % length sorted) ≡ some k
        → s.id ≡ k
        → ((j : ℕ) → j < n → Turn sorted (i + 1) r j)
        → (j : ℕ) → j < suc n
        → Turn sorted i (s ∷ r) j
    each k s r g same turns zero h =
        let here : i + 0 ≡ i = omega arith in (s, refl, rw here (g ∙ ap some (sym same)))
    each k s r g same turns (suc j) h =
        let (x, p, q) = turns j (omega arith) in
        let next : i + suc j ≡ i + 1 + j = omega arith in (x, p, rw next q)

-- No later shard comes before an earlier one.
abbrev pub Ascending : Map ℕ ShardView → List ℕ → Type 0
Ascending views [] = Unit
Ascending views (k ∷ ks) =
    ((j : ℕ) → elem j ks ≡ true → before views j k ≡ false) × Ascending views ks

before-not_back :
    (views : Map ℕ ShardView) (j k : ℕ) → before views j k ≡ true → before views k j ≡ false
unfolding before
before-not_back views j k h = ground arith

before-skips :
    (views : Map ℕ ShardView) (i j k : ℕ)
    → before views j k ≡ false
    → before views i j ≡ false
    → before views i k ≡ false
unfolding before
before-skips views i j k h g = ground arith

insert_stable-Ascending :
    (views : Map ℕ ShardView) (k : ℕ) (js : List ℕ)
    → Ascending views js
    → Ascending views (insert_stable views k js)
unfolding insert_stable
insert_stable-Ascending views k [] h = ((λ j m. absurd (cc)), tt)
insert_stable-Ascending views k (j ∷ js) (h, hs) = elim (Bool-cases (before views j k)) [
  | inl p ↦
      rw (p, insert_stable)
        (
          (λ i m.
              let added = elem-insert_stable views k i js in
              elim (Bool-cases (k == i)) [
                | inl q ↦
                    let same : k ≡ i = ground arith in rw (sym same) (before-not_back views j k p)
                | inr q ↦ h i (ground (arith, added, q, m))
              ]),
          insert_stable-Ascending views k js hs,
        )
  | inr p ↦
      rw (p, insert_stable)
        (
          (λ i m. elim (Bool-cases (j == i)) [
            | inl q ↦ let same : j ≡ i = ground arith in rw (sym same) p
            | inr q ↦ before-skips views i j k p (h i (ground (arith, q, m)))
          ]),
          (h, hs),
        )
]

sort_stable-Ascending :
    (views : Map ℕ ShardView) (ks : List ℕ) → Ascending views (sort_stable views ks)
unfolding sort_stable
sort_stable-Ascending views [] = tt
sort_stable-Ascending views (k ∷ ks) =
    insert_stable-Ascending views k (sort_stable views ks) (sort_stable-Ascending views ks)

-- When some shard has a node, as many nodes are picked as are asked for, by turns from the shards that
-- have one, in an order of all of them in which no later shard has fewer tables than an earlier one or
-- as many and a lesser id.
pub pick_shards-Turn :
    (s : Snapshot) (expect : ℕ)
    → 0 < length s.topology.cluster_view.shard_nodes
    → (sorted : List ℕ) × (Ascending s.topology.shard_views_mapping sorted)
      × ((k : ℕ) → elem k sorted ≡ elem k (ids s.topology.cluster_view.shard_nodes))
      × (length sorted ≡ length s.topology.cluster_view.shard_nodes)
      × (r : List ShardNode) × (pick_shards s expect ≡ ok r)
      × (length r ≡ expect)
      × ((j : ℕ) → j < expect → Turn sorted 0 r j)
unfolding pick_shards
pick_shards-Turn s expect h =
    let nodes = s.topology.cluster_view.shard_nodes in
    let views = s.topology.shard_views_mapping in
    let sorted = sort_stable views (ids nodes) in
    let size = length-sort_stable views (ids nodes) in
    let (r, e, len, turns) =
      select-Turn sorted (map_shards nodes []) expect 0 (omega (arith, size, length-ids nodes, h))
        (λ k m.
          map_shards-found nodes [] k (λ x f. absurd (nothing_found k x f))
            (inl (sym (elem-sort_stable views k (ids nodes)) ∙ m))) in
    let some_node : (length nodes == 0) ≡ false = ground arith in
    (
      sorted,
      sort_stable-Ascending views (ids nodes),
      (λ k. elem-sort_stable views k (ids nodes)),
      size ∙ length-ids nodes,
      r,
      rw (some_node, e, pick_shards) refl,
      len,
      turns,
    )
