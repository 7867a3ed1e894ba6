-- ===== src/Common/Effects.antt =====
-- Errors as values, and methods that change a state and may return an error: what was written
-- before the error stays written.
use Prim.Native.Nat.{ℕ}
use mathlib.Core.Logic.{◌⊎◌, inl, inr}
use mathlib.Core.Option.{Option, none, some}
use mathlib.Core.Path.{◌≡◌, refl}

-- The `coderr` values of the source; `other_error` stands for an error of a library or of the network,
-- and `panicked` for a panic.
pub data Error : Type 0 where
  shard_not_found schema_not_found table_not_found table_already_exists : Error
  cluster_state_invalid node_not_found : Error
  txn_put_end_id alloc_id kv_get_response collect_not_supported : Error
  node_number_not_enough queue_full push_duplicated : Error
  view_conflict already_exists storage_not_found : Error
  encode_failed decode_failed parse_failed delete_again update_cluster_failed : Error
  out_of_fuel no_alive_nodes invalid_hash : Error
  shard_leader_not_found table_not_exists merge_batch empty_batch empty_partition_names : Error
  panicked : Error
  other_error : ℕ → Error

pub data Result {ℓ} (A : Type ℓ) : Type ℓ where
  ok : A → Result A
  err : Error → Result A

pub Result-cases {ℓ} :
    {A : Type ℓ} (r : Result A) → ((a : A) × (r ≡ ok a)) ⊎ ((e : Error) × (r ≡ err e))
Result-cases (ok a) = inl (a, refl)
Result-cases (err e) = inr (e, refl)

abbrev pub Exec {ℓ κ} : Type ℓ → Type κ → Type (ℓ ⊔ κ)
Exec S A = S → Result A × S

module _ {ℓ κ} {S : Type ℓ} {A : Type κ} where
  abbrev pub pure : A → Exec S A
  pure a s = (ok a, s)

  abbrev pub raise : Error → Exec S A
  raise e s = (err e, s)

  abbrev pub gets : (S → A) → Exec S A
  gets f s = (ok (f s), s)

abbrev pub modify {ℓ} : {S : Type ℓ} → (S → S) → Exec S (Unit {0})
modify f s = (ok tt, f s)

module _ {ℓ κ μ} {S : Type ℓ} {A : Type κ} {B : Type μ} where
  abbrev pub continue : Result A → (A → Exec S B) → Exec S B
  continue (ok a) f s = f a s
  continue (err e) f s = (err e, s)

  infixl 5 ◌>>=◌ ◌>>◌
  abbrev pub ◌>>=◌ : Exec S A → (A → Exec S B) → Exec S B
  ◌>>=◌ act next s = let (r, after) = act s in continue r next after

  abbrev pub ◌>>◌ : Exec S A → Exec S B → Exec S B
  act >> later = act >>= λ _. later

-- A value that must be there, or the error.
abbrev pub need {ℓ κ} : {S : Type ℓ} {A : Type κ} → Error → Option A → Exec S A
need e none s = (err e, s)
need e (some a) s = (ok a, s)

-- A chain that has returned has gone through its first call.
pub continue_inv {ℓ κ μ} :
    {S : Type ℓ} {A : Type κ} {B : Type μ} (r : Result A) (s : S) (next : A → Exec S B) (b : B)
    → (continue r next s).0 ≡ ok b
    → (a : A) × (r ≡ ok a) × ((next a s).0 ≡ ok b) × (continue r next s ≡ next a s)
continue_inv (ok a) s next b h = (a, refl, h, refl)
continue_inv (err e) s next b h = absurd (cc)
