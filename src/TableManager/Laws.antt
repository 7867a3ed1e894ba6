-- ===== src/TableManager/Laws.antt =====
-- What the methods of server/cluster/metadata/table_manager.go promise.
use ceresmeta.Storage.{Schema, Table, Storage}
use ceresmeta.TableManager.{
  IdAllocator, Tables, TableManagerImpl, put_table, remember_table, or_empty, get_table, World,
  create_table, drop_table, get_or_create_schema, forget_table,
}
use ceresmeta.Common.{
  if◌then◌else◌, ◌==◌, nat_eq, Bool-cases, Option-cases, lookup, lookup-insert, lookup-delete,
  beq_refl, ok, err, ℕ, ◌≡◌, refl, inl, inr, Bool, true, false, ◌&&◌, Option, none, some, [], arith,
  table_already_exists, Bytes, text_eq, panicked, lookup-insert_same, lookup-delete_same,
}

abbrev put_found : Option Tables → Bytes → Table → Option Table
put_found none n t = if t.name == n then some t else none
put_found (some ts) n t = if t.name == n then some t else lookup n ts.tables

lookup-put_table :
    (o : Option Tables) (t : Table) (n : Bytes)
    → lookup n (put_table t (or_empty o)).tables ≡ put_found o n t
unfolding put_table lookup
lookup-put_table none t n = lookup-insert t.name n t []
lookup-put_table (some ts) t n = lookup-insert t.name n t ts.tables

-- A table that is remembered is found in its schema, and the others are found as before.
get_table-remember_table :
    (sn n : Bytes) (schema : Schema) (t : Table) (m : TableManagerImpl)
    → lookup sn m.schemas ≡ some schema
    → get_table sn n (remember_table t m)
      ≡ (if t.schema_id == schema.id && t.name == n then ok (some t) else get_table sn n m)
unfolding get_table remember_table
get_table-remember_table sn n schema t m h =
    let p =
      lookup-insert t.schema_id schema.id
        (put_table t (or_empty (lookup t.schema_id m.schema_tables))) m.schema_tables in
    let q = lookup-put_table (lookup t.schema_id m.schema_tables) t n in
    elim (Bool-cases (t.schema_id == schema.id)) [
      | inl e ↦
          let e' : t.schema_id ≡ schema.id = ground arith in
          elim (Option-cases (lookup t.schema_id m.schema_tables)) [
            | inl o ↦ let o' = rw e' at o in ground (arith, h, p, o', q)
            | inr (ts, o) ↦ let o' = rw e' at o in ground (arith, h, p, o', q)
          ]
      | inr e ↦ ground (arith, h, p)
    ]

pub create_table_inv :
    (s : Storage) (sa ta : IdAllocator) (now : ℕ) (sn n : Bytes) (info : Option Bytes)
    (w : World s sa ta) (t : Table)
    → (create_table s sa ta now sn n info w).0 ≡ ok t
    → ((create_table s sa ta now sn n info w).1.0 ≡ remember_table t w.0)
      × (get_table sn n w.0 ≡ ok none)
      × ((ta.alloc w.1.1.1).0 ≡ ok t.id)
      × (t.name ≡ n)
      × ((schema : Schema) × (lookup sn w.0.schemas ≡ some schema) × (t.schema_id ≡ schema.id))
unfolding create_table
create_table_inv s sa ta now sn n info w t h = ground arith

-- A table is created only when no table of its name is in the schema: then it has the id that was
-- allocated, it is found by its name from then on, and every other name is found, or not, as before.
pub create_table_ok :
    (s : Storage) (sa ta : IdAllocator) (now : ℕ) (sn n : Bytes) (info : Option Bytes)
    (w : World s sa ta) (t : Table)
    → (create_table s sa ta now sn n info w).0 ≡ ok t
    → (get_table sn n w.0 ≡ ok none)
      × ((ta.alloc w.1.1.1).0 ≡ ok t.id)
      × (get_table sn n (create_table s sa ta now sn n info w).1.0 ≡ ok (some t))
      × ((n' : Bytes)
          → (n == n') ≡ false
          → get_table sn n' (create_table s sa ta now sn n info w).1.0 ≡ get_table sn n' w.0)
create_table_ok s sa ta now sn n info w t h =
    let (p, absent, id, name, (schema, found, same)) =
      create_table_inv s sa ta now sn n info w t h in
    let at = λ (n' : Bytes). get_table-remember_table sn n' schema t w.0 found in
    (
      absent,
      id,
      rw p (rw (at n) (ground (arith, beq_refl n))),
      λ n' d. rw p (rw (at n') (ground arith)),
    )

-- A table that is there already is an error, and nothing changes: no id is allocated either.
pub create_table_exists :
    (s : Storage) (sa ta : IdAllocator) (now : ℕ) (sn n : Bytes) (info : Option Bytes)
    (w : World s sa ta) (t : Table)
    → get_table sn n w.0 ≡ ok (some t)
    → create_table s sa ta now sn n info w ≡ (err table_already_exists, w)
unfolding create_table
create_table_exists s sa ta now sn n info w t h = rw h refl

pub drop_table_inv :
    (s : Storage) (sa ta : IdAllocator) (sn n : Bytes) (w : World s sa ta) (t : Table)
    → get_table sn n w.0 ≡ ok (some t)
    → (drop_table s sa ta sn n w).0 ≡ ok tt
    → (schema : Schema) × (ts : Tables) × (lookup sn w.0.schemas ≡ some schema)
      × (lookup schema.id w.0.schema_tables ≡ some ts)
      × ((drop_table s sa ta sn n w).1.0 ≡ forget_table s sa ta t n schema ts w.0)
unfolding drop_table get_table
drop_table_inv s sa ta sn n w t found h = ground arith

-- A table that is found and whose deletion in the storage succeeds is not found any more, and the
-- other names of its schema are found, or not, as before.
pub drop_table_ok :
    (s : Storage) (sa ta : IdAllocator) (sn n : Bytes) (w : World s sa ta) (t : Table)
    → get_table sn n w.0 ≡ ok (some t)
    → (drop_table s sa ta sn n w).0 ≡ ok tt
    → (get_table sn n (drop_table s sa ta sn n w).1.0 ≡ ok none)
      × ((n' : Bytes)
          → (n == n') ≡ false
          → get_table sn n' (drop_table s sa ta sn n w).1.0 ≡ get_table sn n' w.0)
unfolding drop_table get_table
drop_table_ok s sa ta sn n w t found h =
    let (schema, ts, p, q, r) = drop_table_inv s sa ta sn n w t found h in
    let m = w.0.schema_tables in
    let after = λ (x : Tables). lookup-insert_same schema.id x m in
    (
      rw r (rw (p, get_table, after) (ground (arith, lookup-delete_same n ts.tables))),
      λ n' d. rw r (rw (p, get_table, after, q) (ground (arith, lookup-delete n n' ts.tables))),
    )

-- The drop of a table of a schema that was just made,
-- when no entry for its tables is in memory, panics and changes nothing.
pub drop_table-get_or_create_schema :
    (s : Storage) (sa ta : IdAllocator) (now : ℕ) (sn n : Bytes) (w : World s sa ta)
    (schema : Schema)
    → (get_or_create_schema s sa ta now sn w).0 ≡ ok (schema, false)
    → lookup schema.id w.0.schema_tables ≡ none
    → let w' = (get_or_create_schema s sa ta now sn w).1 in
      drop_table s sa ta sn n w' ≡ (err panicked, w')
unfolding drop_table get_or_create_schema
drop_table-get_or_create_schema s sa ta now sn n w schema h missing =
    ground (arith, lookup-insert_same sn schema w.0.schemas)

-- A schema that was given is given again, with the mark that it exists, and nothing changes.
pub get_or_create_schema_again :
    (s : Storage) (sa ta : IdAllocator) (now later : ℕ) (sn : Bytes) (w : World s sa ta)
    (schema : Schema) (existed : Bool)
    → (get_or_create_schema s sa ta now sn w).0 ≡ ok (schema, existed)
    → let w' = (get_or_create_schema s sa ta now sn w).1 in
      get_or_create_schema s sa ta later sn w' ≡ (ok (schema, true), w')
unfolding get_or_create_schema
get_or_create_schema_again s sa ta now later sn w schema existed h =
    ground (arith, lookup-insert_same sn schema w.0.schemas)
