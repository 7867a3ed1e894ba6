-- ===== src/Hash/Loads.antt =====
-- The loads of the members: sums and bounds over the map from members to their partitions.
use ceresmeta.Common.{
  nat_eq, Bool-cases, length, elem, Map, lookup, insert, lookup-insert, ℕ, ◌+◌, ◌*◌, ◌≤◌, ◌≡◌, refl,
  inl, inr, false, none, some, List, [], ◌∷◌, arith, Bytes, bytes_eq, bytes_eq_refl, bytes_eq_iff,
  text_eq,
}
use ceresmeta.Hash.{add}

abbrev pub Parts : Type 0
Parts = Map Bytes (List ℕ)

abbrev pub total : Parts → ℕ
total [] = 0
total ((k, v) ∷ m) = length v + total m

abbrev pub KeysDistinct : Parts → Type 0
KeysDistinct [] = Unit
KeysDistinct ((k, v) ∷ m) = (lookup k m ≡ none) × KeysDistinct m

-- Every entry has a load in the predicate.
abbrev pub AllLoads : (ℕ → Type 0) → Parts → Type 0
AllLoads P [] = Unit
AllLoads P ((k, v) ∷ m) = P (length v) × AllLoads P m

pub length-add : (p : ℕ) (v : List ℕ) → elem p v ≡ false → length (add p v) ≡ length v + 1
length-add p v h = ground arith

pub total-insert :
    (k : Bytes) (v w : List ℕ) (m : Parts)
    → lookup k m ≡ some v
    → total (insert k w m) + length v ≡ total m + length w
unfolding lookup insert
total-insert k v w [] h = cc
total-insert k v w ((j, x) ∷ m) h = ground (arith, bytes_eq_iff j k, total-insert k v w m)

pub length-insert :
    (k : Bytes) (v w : List ℕ) (m : Parts) → lookup k m ≡ some v → length (insert k w m) ≡ length m
unfolding lookup insert
length-insert k v w [] h = cc
length-insert k v w ((j, x) ∷ m) h = ground (arith, bytes_eq_iff j k, length-insert k v w m)

pub KeysDistinct-insert :
    (k : Bytes) (w : List ℕ) (m : Parts) → KeysDistinct m → KeysDistinct (insert k w m)
unfolding lookup insert
KeysDistinct-insert k w [] d = (refl, tt)
KeysDistinct-insert k w ((j, x) ∷ m) d =
    ground
      (arith, KeysDistinct-insert k w m, lookup-insert k j w m, bytes_eq_iff j k, bytes_eq_iff k j)

-- A bound on every member that is found is one on every entry.
pub AllLoads-of_lookup :
    (P : ℕ → Type 0) (m : Parts)
    → KeysDistinct m
    → ((k : Bytes) (v : List ℕ) → lookup k m ≡ some v → P (length v))
    → AllLoads P m
unfolding lookup
AllLoads-of_lookup P [] d h = tt
AllLoads-of_lookup P ((j, x) ∷ m) d h = (
  h j x (ground (arith, bytes_eq_refl j)),
  AllLoads-of_lookup P m d.1 (λ k v f. h k v (ground (arith, bytes_eq_iff j k, d.0))),
)

pub lookup_of_AllLoads :
    (P : ℕ → Type 0) (m : Parts)
    → AllLoads P m
    → (k : Bytes) (v : List ℕ) → lookup k m ≡ some v
    → P (length v)
unfolding lookup
lookup_of_AllLoads P [] a k v f = absurd (cc)
lookup_of_AllLoads P ((j, x) ∷ m) a k v f = elim (Bool-cases (bytes_eq j k)) [
  | inl here ↦ let same : x ≡ v = ground arith in rw (← same) a.0
  | inr there ↦ lookup_of_AllLoads P m a.1 k v (ground arith)
]

pub total_ge : (b : ℕ) (m : Parts) → AllLoads (λ n. b ≤ n) m → b * length m ≤ total m
total_ge b [] a = omega arith
total_ge b ((k, v) ∷ m) a = omega (arith, total_ge b m a.1, a.0)

pub total_le : (b : ℕ) (m : Parts) → AllLoads (λ n. n ≤ b) m → total m ≤ b * length m
total_le b [] a = omega arith
total_le b ((k, v) ∷ m) a = omega (arith, total_le b m a.1, a.0)

-- Loads at most `b` that sum up to at least `b` each are all `b`.
pub AllLoads-exact :
    (b : ℕ) (m : Parts) → AllLoads (λ n. n ≤ b) m → b * length m ≤ total m → AllLoads (λ n. b ≤ n) m
AllLoads-exact b [] a h = tt
AllLoads-exact b ((k, v) ∷ m) a h = (
  omega (arith, total_le b m a.1, a.0),
  AllLoads-exact b m a.1 (omega (arith, total_le b m a.1, a.0)),
)
