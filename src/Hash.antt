-- ===== src/Hash.antt =====
-- server/coordinator/scheduler/nodepicker/hash/consistent_uniform.go: partitions are spread over the
-- members by consistent hashing with bounded loads.
pub mod Offload
pub mod Build
pub mod Loads
pub mod Probe
pub mod Spread
pub mod Balance
pub mod Elements
pub mod Ring
pub mod Cover
pub mod Uniform
mod Tests
use ceresmeta.Common.Partial.{◌>>=◌, ◌>>◌}
use ceresmeta.Id.Codec.{encode_id}
use ceresmeta.Common.{
  leb, if◌then◌else◌, ◌==◌, nat_eq, length, get_elem?, elem, sort, Map, lookup, insert, ℕ, zero,
  suc, ◌+◌, ◌/◌, ◌%◌, ◌^◌, Bool, true, false, Option, none, some, List, [], ◌∷◌, ◌++◌, map, Bytes,
  text_eq, bytes_ltb, ℤ, is_pos, pos_part,
}

pub record PartitionAffinity : Type 0 where
  pub partition_id : ℕ
  pub num_allowed_other_partitions : ℕ

-- A nil hasher is `none`.
pub record Config : Type 0 where
  pub hasher : Option (Bytes → ℕ)
  pub replication_factor : ℤ
  pub partition_affinities : List PartitionAffinity

pub data BuildError : Type 0 where
  hasher_not_provided invalid_replication_factor invalid_num_partitions empty_members : BuildError

-- A member is its name. A set `map[int]struct{}` is the list of its elements; the order of a list
-- stands for the order in which Go ranges over the map.
pub record ConsistentUniformHash : Type 0 where
  pub config : Config
  pub min_load : ℕ
  pub max_load : ℕ
  pub num_partitions : ℕ
  pub members : Map Bytes Bytes
  pub mem_partitions : Map Bytes (List ℕ)
  pub partition_dist : Map ℕ ℕ
  pub node_to_mems : Map ℕ Bytes
  pub sorted_ring : List ℕ

abbrev C : Type 0
C = ConsistentUniformHash

-- Insertion into a set and deletion from it.
abbrev pub add : ℕ → List ℕ → List ℕ
add p s = if elem p s then s else p ∷ s

abbrev pub remove : ℕ → List ℕ → List ℕ
remove p [] = []
remove p (x ∷ s) = let rest = remove p s in if x == p then rest else x ∷ rest

-- `none` is no error.
pub sanitize : Config → Option BuildError
sanitize c = elim c.hasher [
  | none ↦ some hasher_not_provided
  | some h ↦ if is_pos c.replication_factor then none else some invalid_replication_factor
]

-- The member of the virtual node at an index of the ring; a missing one is a nil dereference.
pub member_at : C → ℕ → Option Bytes
unfolding lookup
member_at c i = do v ← get_elem? c.sorted_ring i; lookup v c.node_to_mems

abbrev pub next_index : List ℕ → ℕ → ℕ
next_index ring i = if leb (length ring) (i + 1) then 0 else i + 1

-- The two writes of a partition that found its member.
pub place : C → ℕ → ℕ → Bytes → List ℕ → C
unfolding insert
place c part i mem parts = record c {
  partition_dist = insert part i c.partition_dist;
  mem_partitions = insert mem (add part parts) c.mem_partitions;
}

-- The loop of `distributePartitionWithLoad`, with the rounds left: as many as the ring is long.
pub probe : C → ℕ → ℕ → ℕ → ℕ → Option (Bool × C)
unfolding lookup place
probe c zero part i allowed = some (false, c)
probe c (suc rounds) part i allowed =
    let rest = probe c rounds part (next_index c.sorted_ring i) allowed in
    do
      mem ← member_at c i
      parts ← lookup mem c.mem_partitions
      if leb (length parts + 1) allowed then some (true, place c part i mem parts) else rest

pub distribute_partition_with_load : C → ℕ → ℕ → ℕ → Option (Bool × C)
distribute_partition_with_load c part i allowed =
    if allowed == 0 then some (false, c) else probe c (length c.sorted_ring) part i allowed

pub distribute_partition : C → ℕ → ℕ → Option C
distribute_partition c part i = do
  (done, c') ← distribute_partition_with_load c part i c.min_load
  if done then some c' else do
    (done', c'') ← distribute_partition_with_load c' part i c'.max_load
    if done' then some c'' else none

-- `binary.LittleEndian.PutUint32` into a buffer of eight bytes.
pub little_endian : ℕ → Bytes
little_endian n =
    (n % 256) ∷ (n / 2 ^ 8 % 256) ∷ (n / 2 ^ 16 % 256) ∷ (n / 2 ^ 24 % 256) ∷ 0 ∷ 0 ∷ 0 ∷ 0 ∷ []

-- `sort.Search`: the least index whose value is at least the key, or the length.
pub search_ring : ℕ → List ℕ → ℕ
search_ring key [] = 0
search_ring key (x ∷ ring) = let rest = search_ring key ring in if leb key x then 0 else rest + 1

-- Where the search for a partition's member begins.
pub start_index : (Bytes → ℕ) → C → ℕ → ℕ
unfolding little_endian search_ring
start_index sum64 c part =
    let i = search_ring (sum64 (little_endian part)) c.sorted_ring in
    if leb (length c.sorted_ring) i then 0 else i

-- The loop over the partitions from `part` on, `count` of them.
pub distribute_from : (Bytes → ℕ) → ℕ → ℕ → C → Option C
distribute_from sum64 zero part c = some c
distribute_from sum64 (suc count) part c = do
  c' ← distribute_partition c part (start_index sum64 c part)
  distribute_from sum64 count (part + 1) c'

pub distribute_partitions : (Bytes → ℕ) → C → Option C
distribute_partitions sum64 c = distribute_from sum64 c.num_partitions 0 c

unfoldable pub load_distribution : C → Map Bytes ℕ
load_distribution c = map (λ e. (e.0, length e.1)) c.mem_partitions

-- `some none` is a nil member.
pub get_partition_owner : C → ℕ → Option (Option Bytes)
unfolding lookup
get_partition_owner c part = elim (lookup part c.partition_dist) [
  | none ↦ some none
  | some i ↦ elim (member_at c i) [ none ↦ none | some m ↦ some (some m) ]
]

-- `fmt.Sprintf("%s%s%d", mem, "@$", i)`
unfoldable pub virtual_node_key : Bytes → ℕ → Bytes
virtual_node_key mem i = mem ++ b'@' ∷ b'$' ∷ encode_id i

-- One virtual node: a collision hands the hash over to the later member.
pub add_virtual_node : (Bytes → ℕ) → Bytes → ℕ → C → C
unfolding insert
add_virtual_node sum64 mem i c =
    let h = sum64 (virtual_node_key mem i) in
    record c { node_to_mems = insert h mem c.node_to_mems; sorted_ring = c.sorted_ring ++ h ∷ [] }

-- The replicas of a member from `i` on, `count` of them.
pub add_replicas : (Bytes → ℕ) → Bytes → ℕ → ℕ → C → C
add_replicas sum64 mem zero i c = c
add_replicas sum64 mem (suc count) i c =
    add_replicas sum64 mem count (i + 1) (add_virtual_node sum64 mem i c)

pub add_members : (Bytes → ℕ) → List Bytes → C → C
unfolding insert
add_members sum64 [] c = c
add_members sum64 (mem ∷ mems) c =
    let c' = add_replicas sum64 mem (pos_part c.config.replication_factor) 0 c in
    add_members sum64 mems (record c' { members = insert mem mem c'.members })

-- `sort.Slice` of the members by name.
pub insert_name : Bytes → List Bytes → List Bytes
insert_name a [] = a ∷ []
insert_name a (x ∷ xs) = if bytes_ltb x a then x ∷ insert_name a xs else a ∷ x ∷ xs

pub sort_names : List Bytes → List Bytes
unfolding insert_name
sort_names [] = []
sort_names (x ∷ xs) = insert_name x (sort_names xs)

pub initialize_virtual_nodes : (Bytes → ℕ) → List Bytes → C → C
initialize_virtual_nodes sum64 mems c =
    let c' = add_members sum64 (sort_names mems) c in
    record c' { sorted_ring = sort c'.sorted_ring }
