-- ===== src/EtcdUtil.antt =====
-- server/etcdutil/util.go: reads over the etcd client.
pub mod Scan
mod Tests
use ceresmeta.Etcd.{Etcd}
use ceresmeta.Common.{
  ltb, if◌then◌else◌, ◌==◌, nat_eq, length, Result, ok, err, Exec, pure, raise, ◌>>=◌, ◌>>◌, ℕ,
  zero, suc, ◌+◌, Option, none, some, List, [], ◌∷◌, ◌++◌, kv_get_response, storage_not_found,
  Bytes, text_eq, decode_failed, out_of_fuel,
}

abbrev pub one_value : {S : Type 0} → List Bytes → Exec S Bytes
one_value [] = raise storage_not_found
one_value (v ∷ []) = pure v
one_value (v ∷ w ∷ vs) = raise kv_get_response

-- `Get` and `List`; a client's error is passed on in the cause.
module _ (e : Etcd) where
  unfoldable pub get_value : Bytes → Exec e.State Bytes
  get_value k = do vs ← e.get k; one_value vs

  unfoldable pub list_keys : Bytes → Exec e.State (List Bytes)
  list_keys prefix = e.get_prefix prefix

-- `doIfNotEndKey` over a batch: what `do` makes of each entry is appended, `none` is its error.
module _ {ℓ} {A : Type ℓ} (visit : Bytes → Bytes → Option A) (end_key : Bytes) where
  unfoldable pub visit_all : List (Bytes × Bytes) → List A → Result (List A)
  visit_all [] out = ok out
  visit_all ((k, v) ∷ kvs) out =
      let skipped = visit_all kvs out in
      let visited : Result (List A) = elim (visit k v) [
        | none ↦ err decode_failed
        | some a ↦ visit_all kvs (out ++ a ∷ [])
      ] in
      if k == end_key then skipped else visited

abbrev pub last_key : Bytes → List (Bytes × Bytes) → Bytes
last_key k [] = k
last_key k ((j, v) ∷ kvs) = last_key j kvs

-- `Scan`, over a range read, with a context that is never done. The rounds are those of the loop after the first batch.
module _ {ℓ} {A : Type ℓ} {S : Type 0}
    (get_range : Bytes → Bytes → ℕ → S → Result (List (Bytes × Bytes)) × S)
    (visit : Bytes → Bytes → Option A) (end_key : Bytes) (batch_size : ℕ) where
  -- What follows a batch that was read: the first entry was visited before.
  unfoldable pub after_batch :
      (Bytes → List A → Exec S (List A)) → List A → List (Bytes × Bytes) → Exec S (List A)
  unfolding visit_all
  after_batch loop out [] s = (ok out, s)
  after_batch loop out (kv ∷ []) s = (ok out, s)
  after_batch loop out (kv ∷ kv' ∷ kvs) s = elim (visit_all visit end_key (kv' ∷ kvs) out) [
    | err x ↦ (err x, s)
    | ok out' ↦
        if ltb (length (kv ∷ kv' ∷ kvs)) batch_size
        then (ok out', s)
        else loop (last_key [] (kv' ∷ kvs)) out' s
  ]

  unfoldable pub scan_loop : ℕ → Bytes → List A → Exec S (List A)
  unfolding after_batch
  scan_loop zero last out s = (err out_of_fuel, s)
  scan_loop (suc rounds) last out s =
      let go = (get_range last end_key (batch_size + 1) >>= after_batch (scan_loop rounds) out) s in
      if last == end_key then (ok out, s) else go

  abbrev pub first_batch : ℕ → List (Bytes × Bytes) → Exec S (List A)
  first_batch rounds [] s = (ok [], s)
  first_batch rounds (kv ∷ kvs) s = elim (visit_all visit end_key (kv ∷ kvs) []) [
    | err x ↦ (err x, s)
    | ok out ↦ scan_loop rounds (last_key [] (kv ∷ kvs)) out s
  ]

  unfoldable pub scan : ℕ → Bytes → Exec S (List A)
  unfolding scan_loop visit_all
  scan rounds start_key = do kvs ← get_range start_key end_key batch_size; first_batch rounds kvs
