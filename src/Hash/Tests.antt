-- ===== src/Hash/Tests.antt =====
-- A run of the hash over three members, and the theorems at it.
use ceresmeta.Common.{
  nat_eq, elem, Map, ℕ, ◌<◌, ◌≡◌, refl, ◌⊎◌, inl, inr, true, some, List, [], ◌∷◌, arith, Bytes,
  bytes_eq_iff, text_eq, pos,
}
use ceresmeta.Hash.{Config, ConsistentUniformHash, virtual_node_key, load_distribution}
use ceresmeta.Hash.Build.{Built, built, build_consistent_uniform_hash}
use ceresmeta.Hash.Uniform.{IsUniform, build-IsUniform}

abbrev names : List Bytes
names = (b'c' ∷ []) ∷ (b'a' ∷ []) ∷ (b'b' ∷ []) ∷ []

-- A hasher that reads the first byte only.
abbrev first_byte : Bytes → ℕ
first_byte [] = 0
first_byte (b ∷ bs) = b

abbrev config : Config
config = record { hasher = some first_byte; replication_factor = pos 2; partition_affinities = [] }

one_of : (m : Bytes) → elem m names ≡ true → (m ≡ b'c' ∷ []) ⊎ (m ≡ b'a' ∷ []) ⊎ (m ≡ b'b' ∷ [])
one_of m h =
    ground
      (arith, bytes_eq_iff (b'c' ∷ []) m, bytes_eq_iff (b'a' ∷ []) m, bytes_eq_iff (b'b' ∷ []) m)

first : (m : Bytes) (i : ℕ) → elem m names ≡ true → first_byte (virtual_node_key m i) ≡ first_byte m
unfolding virtual_node_key
first m i h = elim (one_of m h) [
  | inl p ↦ rw p refl
  | inr (inl p) ↦ rw p refl
  | inr (inr p) ↦ rw p refl
]

apart :
    (m n : Bytes) (i j : ℕ)
    → elem m names ≡ true
    → elem n names ≡ true
    → i < 2
    → j < 2
    → first_byte (virtual_node_key m i) ≡ first_byte (virtual_node_key n j)
    → m ≡ n
apart m n i j h k _ _ same = ground (arith, one_of m h, one_of n k, first m i h, first n j k)

build-IsUniform_example :
    (c : ConsistentUniformHash) × (build_consistent_uniform_hash (pos 7) names config ≡ built c)
    × IsUniform 7 names c
build-IsUniform_example =
    build-IsUniform first_byte 7 names config refl refl refl (omega arith) (omega arith)
      (refl, (refl, (refl, tt))) apart

loads_of : Built → Map Bytes ℕ
unfolding load_distribution
loads_of (built c) = load_distribution c
loads_of _ = []

loads_seven : Map Bytes ℕ
loads_seven = loads_of (build_consistent_uniform_hash (pos 7) names config)
