-- ===== src/Etcd.antt =====
-- The etcd client (go.etcd.io/etcd/client/v3), which the server calls and does not implement: a
-- record of the calls that the source makes, and a record of the documented behaviour relied on.
pub mod Memory
use ceresmeta.Common.{
  if◌then◌else◌, nat_eq, Error, Result, ok, err, ℕ, ◌≡◌, ◌⊎◌, Bool, true, false, ◌&&◌, Option, none,
  some, List, [], ◌∷◌, other_error, Bytes, bytes_eq,
}

pub data Cmp : Type 0 where
  key_missing key_exists : Bytes → Cmp
  value_equals : Bytes → Bytes → Cmp

pub data Op : Type 0 where
  put : Bytes → Bytes → Op
  del : Bytes → Op

-- What the store holds at each key.
abbrev pub Content : Type 0
Content = Bytes → Option Bytes

abbrev pub holds : Cmp → Content → Bool
holds (key_missing k) c = elim (c k) [ none ↦ true | some _ ↦ false ]
holds (key_exists k) c = elim (c k) [ none ↦ false | some _ ↦ true ]
holds (value_equals k v) c = elim (c k) [ none ↦ false | some w ↦ bytes_eq w v ]

abbrev pub all_hold : List Cmp → Content → Bool
all_hold [] c = true
all_hold (x ∷ xs) c = holds x c && all_hold xs c

abbrev pub apply : Op → Content → Content
apply (put k v) c j = if bytes_eq k j then some v else c j
apply (del k) c j = if bytes_eq k j then none else c j

abbrev pub apply_all : List Op → Content → Content
apply_all [] c = c
apply_all (o ∷ os) c = apply_all os (apply o c)

abbrev pub to_list : Option Bytes → List Bytes
to_list none = []
to_list (some v) = v ∷ []

pub record Etcd : Type 1 where
  pub State : Type 0
  -- The state read at once, which only the laws speak of.
  pub content : State → Content
  -- `kv.Get` of one key: the values of `resp.Kvs`.
  pub get : Bytes → State → Result (List Bytes) × State
  -- `kv.Txn().If(cmps).Then(ops).Commit()`: `resp.Succeeded`.
  pub txn : List Cmp → List Op → State → Result Bool × State
  -- `client.Put` and `client.Do` of one operation.
  pub exec : Op → State → Result (Unit {0}) × State
  -- `client.Get` of a range up to a limit, the end left out, and of the keys with a prefix.
  pub get_range : Bytes → Bytes → ℕ → State → Result (List (Bytes × Bytes)) × State
  pub get_prefix : Bytes → State → Result (List Bytes) × State

-- The errors of the client are none of the source's.
abbrev pub IsClientError : Error → Type 0
IsClientError (other_error n) = Unit
IsClientError _ = ⊥

-- A read that returns is linearizable. A transaction that returns has compared and written at one
-- point; one that fails has done nothing, or all that it was sent for.
pub record EtcdLaws (e : Etcd) : Type 0 where
  pub get_ok :
      (k : Bytes) (s : e.State) (kvs : List Bytes)
      → (e.get k s).0 ≡ ok kvs
      → kvs ≡ to_list (e.content s k)
  pub get_keeps : (k j : Bytes) (s : e.State) → e.content (e.get k s).1 j ≡ e.content s j
  pub txn_ok :
      (cs : List Cmp) (os : List Op) (s : e.State) (b : Bool)
      → (e.txn cs os s).0 ≡ ok b
      → b ≡ all_hold cs (e.content s)
  pub txn_writes :
      (cs : List Cmp) (os : List Op) (s : e.State) (b : Bool) (j : Bytes)
      → (e.txn cs os s).0 ≡ ok b
      → e.content (e.txn cs os s).1 j ≡ (if b then apply_all os (e.content s) j else e.content s j)
  pub txn_fails :
      (cs : List Cmp) (os : List Op) (s : e.State) (x : Error)
      → (e.txn cs os s).0 ≡ err x
      → ((j : Bytes) → e.content (e.txn cs os s).1 j ≡ e.content s j)
        ⊎ ((all_hold cs (e.content s) ≡ true)
            × ((j : Bytes) → e.content (e.txn cs os s).1 j ≡ apply_all os (e.content s) j))
  pub exec_ok :
      (o : Op) (s : e.State) (j : Bytes)
      → (e.exec o s).0 ≡ ok tt
      → e.content (e.exec o s).1 j ≡ apply o (e.content s) j
  pub exec_fails :
      (o : Op) (s : e.State) (x : Error)
      → (e.exec o s).0 ≡ err x
      → ((j : Bytes) → e.content (e.exec o s).1 j ≡ e.content s j)
        ⊎ ((j : Bytes) → e.content (e.exec o s).1 j ≡ apply o (e.content s) j)
  pub get_range_keeps :
      (a b j : Bytes) (n : ℕ) (s : e.State) → e.content (e.get_range a b n s).1 j ≡ e.content s j
  pub get_prefix_keeps :
      (a j : Bytes) (s : e.State) → e.content (e.get_prefix a s).1 j ≡ e.content s j
  pub txn_error :
      (cs : List Cmp) (os : List Op) (s : e.State) (x : Error)
      → (e.txn cs os s).0 ≡ err x
      → IsClientError x
