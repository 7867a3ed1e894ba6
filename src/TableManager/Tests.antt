-- ===== src/TableManager/Tests.antt =====
-- The properties of the table manager on a storage in memory and allocators that count.
use ceresmeta.Storage.{Schema, Table, Storage}
use ceresmeta.Storage.Memory.{Mem, memory_storage}
use ceresmeta.TableManager.{
  IdAllocator, TableManagerImpl, Tables, World, get_table, create_table, drop_table,
  get_or_create_schema,
}
use ceresmeta.TableManager.Laws.{drop_table-get_or_create_schema}
use ceresmeta.TableManager.Coherence.{
  IsCoherent, IsFresh, create_table-IsCoherent, drop_table-IsCoherent, Agree,
}
use ceresmeta.Common.{
  nat_eq, lookup, ok, err, ℕ, ◌+◌, ◌≡◌, refl, sym, false, none, some, [], ◌∷◌, arith, Bytes,
  bytes_eq_iff, text_eq, panicked,
}

abbrev counter : IdAllocator
counter = record { State = ℕ; alloc = λ n. (ok n, n + 1) }

abbrev public : Schema
public = record { id = 1; cluster_id = 1; name = b'p' ∷ []; created_at = 0 }

abbrev old : Table
old = record { id = 2; name = b'o' ∷ []; schema_id = 1; created_at = 0; partition_info = none }

abbrev new : Table
new = record { id = 3; name = b'n' ∷ []; schema_id = 1; created_at = 9; partition_info = none }

abbrev tables_of_public : Tables
tables_of_public = record { tables = (b'o' ∷ [], old) ∷ []; tables_by_id = (2, old) ∷ [] }

abbrev manager : TableManagerImpl
manager = record {
  cluster_id = 1;
  schemas = (b'p' ∷ [], public) ∷ [];
  schema_tables = (1, tables_of_public) ∷ [];
}

abbrev nothing : Mem
nothing = record { cluster = λ c. none; shard = λ c k. none; shard_list = [] }

abbrev s : Storage
s = memory_storage

abbrev world : World s counter counter
world = (manager, (nothing, (2, 3)))

abbrev p : Bytes
p = b'p' ∷ []

abbrev q : Bytes
q = b'q' ∷ []

create_runs : (create_table s counter counter 9 p (b'n' ∷ []) none world).0 ≡ ok new
unfolding create_table get_table lookup
create_runs = refl

old_found : get_table p (b'o' ∷ []) manager ≡ ok (some old)
unfolding get_table lookup
old_found = refl

drop_runs : (drop_table s counter counter p (b'o' ∷ []) world).0 ≡ ok tt
unfolding drop_table lookup
drop_runs = refl

abbrev made : Schema
made = record { id = 2; cluster_id = 1; name = b'q' ∷ []; created_at = 9 }

schema_runs : (get_or_create_schema s counter counter 9 q world).0 ≡ ok (made, false)
unfolding get_or_create_schema lookup
schema_runs = refl

no_tables : lookup 2 manager.schema_tables ≡ none
unfolding lookup
no_tables = refl

drop_table-get_or_create_schema_example :
    let w' = (get_or_create_schema s counter counter 9 q world).1 in
    drop_table s counter counter q (b'o' ∷ []) w' ≡ (err panicked, w')
drop_table-get_or_create_schema_example =
    drop_table-get_or_create_schema s counter counter 9 q (b'o' ∷ []) world made schema_runs
      no_tables

tables_of_public-Agree : Agree tables_of_public
unfolding lookup
tables_of_public-Agree = record {
  by_name = λ n t h. ground (arith, bytes_eq_iff (b'o' ∷ []) n);
  by_id = λ i t h. ground arith;
}

manager-IsCoherent : IsCoherent manager
unfolding lookup
manager-IsCoherent k ts h =
    let same : tables_of_public ≡ ts = ground arith in rw (sym same) tables_of_public-Agree

new-IsFresh : (i : ℕ) → (counter.alloc 3).0 ≡ ok i → IsFresh i manager
unfolding lookup
new-IsFresh i h k ts e =
    let same : tables_of_public ≡ ts = ground arith in
    let three : 3 ≡ i = ground arith in rw (sym same) (rw (sym three) refl)

create_table-IsCoherent_example :
    IsCoherent (create_table s counter counter 9 p (b'n' ∷ []) none world).1.0
create_table-IsCoherent_example =
    create_table-IsCoherent s counter counter 9 p (b'n' ∷ []) none world manager-IsCoherent
      new-IsFresh

drop_table-IsCoherent_example : IsCoherent (drop_table s counter counter p (b'o' ∷ []) world).1.0
drop_table-IsCoherent_example =
    drop_table-IsCoherent s counter counter p (b'o' ∷ []) world manager-IsCoherent
