-- ===== src/TableManager/Coherence.antt =====
-- The two maps of the tables of a schema, by name and by id, hold the same tables.
use ceresmeta.Storage.{Schema, Table, Storage}
use ceresmeta.TableManager.{
  IdAllocator, Tables, TableManagerImpl, put_table, remember_table, or_empty, empty_tables,
  get_table, World, create_table, drop_table, Tables,
}
use ceresmeta.TableManager.Laws.{create_table_inv, drop_table_inv}
use ceresmeta.Common.{
  ◌==◌, nat_eq, Bool-cases, Option-cases, lookup, insert, delete, lookup-insert, lookup-delete,
  Error, ok, err, ℕ, ◌≡◌, refl, sym, ◌⊎◌, inl, inr, Option, none, some, arith, Bytes, bytes_eq_refl,
  bytes_eq_iff, text_eq, Result-cases, lookup-insert_same,
}

pub record Agree (ts : Tables) : Type 0 where
  pub by_name :
      (n : Bytes) (t : Table)
      → lookup n ts.tables ≡ some t
      → (t.name ≡ n) × (lookup t.id ts.tables_by_id ≡ some t)
  pub by_id :
      (i : ℕ) (t : Table)
      → lookup i ts.tables_by_id ≡ some t
      → (t.id ≡ i) × (lookup t.name ts.tables ≡ some t)

-- Every schema's maps agree.
abbrev pub IsCoherent : TableManagerImpl → Type 0
IsCoherent m = (k : ℕ) (ts : Tables) → lookup k m.schema_tables ≡ some ts → Agree ts

-- No table has the id.
abbrev pub IsFresh : ℕ → TableManagerImpl → Type 0
IsFresh i m =
    (k : ℕ) (ts : Tables) → lookup k m.schema_tables ≡ some ts → lookup i ts.tables_by_id ≡ none

empty_tables-Agree : Agree empty_tables
unfolding lookup
empty_tables-Agree = record { by_name = λ n t h. cc; by_id = λ i t h. cc }

put_table-Agree :
    (t : Table) (ts : Tables)
    → Agree ts
    → lookup t.name ts.tables ≡ none
    → lookup t.id ts.tables_by_id ≡ none
    → Agree (put_table t ts)
unfolding put_table
put_table-Agree t ts a free fresh = record {
  by_name = λ n t' h. ground (
    arith,
    lookup-insert t.name n t ts.tables,
    lookup-insert t.id t'.id t ts.tables_by_id,
    a.by_name n t',
    bytes_eq_iff t.name n,
    lookup-insert_same t.id t ts.tables_by_id,
  );
  by_id = λ i t' h. ground (
    arith,
    lookup-insert t.id i t ts.tables_by_id,
    lookup-insert t.name t'.name t ts.tables,
    a.by_id i t',
    bytes_eq_iff t.name t'.name,
    lookup-insert_same t.name t ts.tables,
  );
}

delete-Agree :
    (t : Table) (n : Bytes) (ts : Tables)
    → Agree ts
    → lookup n ts.tables ≡ some t
    → Agree (record { tables = delete n ts.tables; tables_by_id = delete t.id ts.tables_by_id })
delete-Agree t n ts a found = record {
  by_name = λ n' t' h. ground (
    arith,
    lookup-delete n n' ts.tables,
    lookup-delete t.id t'.id ts.tables_by_id,
    a.by_name n t,
    a.by_name n' t',
    bytes_eq_iff n n',
    bytes_eq_refl n,
  );
  by_id = λ i t' h. ground (
    arith,
    lookup-delete n t'.name ts.tables,
    lookup-delete t.id i ts.tables_by_id,
    a.by_name n t,
    a.by_id i t',
    bytes_eq_iff n t'.name,
  );
}

-- A write of a schema's maps that agree.
insert-IsCoherent :
    (k : ℕ) (ts : Tables) (m : TableManagerImpl)
    → IsCoherent m
    → Agree ts
    → IsCoherent (record m { schema_tables = insert k ts m.schema_tables })
insert-IsCoherent k ts m inv a j us h = elim (Bool-cases (k == j)) [
  | inl e ↦ let p : ts ≡ us = ground (arith, lookup-insert k j ts m.schema_tables) in rw (sym p) a
  | inr e ↦ inv j us (ground (arith, lookup-insert k j ts m.schema_tables))
]

remember_table-IsCoherent :
    (t : Table) (m : TableManagerImpl)
    → IsCoherent m
    → IsFresh t.id m
    → ((ts : Tables)
        → lookup t.schema_id m.schema_tables ≡ some ts
        → lookup t.name ts.tables ≡ none)
    → IsCoherent (remember_table t m)
unfolding remember_table lookup
remember_table-IsCoherent t m inv fresh free =
    insert-IsCoherent t.schema_id (put_table t (or_empty (lookup t.schema_id m.schema_tables))) m
      inv
      (elim (Option-cases (lookup t.schema_id m.schema_tables)) [
        | inl e ↦ rw e (put_table-Agree t empty_tables empty_tables-Agree refl refl)
        | inr (ts, e) ↦
            rw e (put_table-Agree t ts (inv t.schema_id ts e) (free ts e) (fresh t.schema_id ts e))
      ])

create_table_err :
    (s : Storage) (sa ta : IdAllocator) (now : ℕ) (sn n : Bytes) (info : Option Bytes)
    (w : World s sa ta) (e : Error)
    → (create_table s sa ta now sn n info w).0 ≡ err e
    → (create_table s sa ta now sn n info w).1.0 ≡ w.0
unfolding create_table
create_table_err s sa ta now sn n info w e h = ground arith

get_table-lookup :
    (sn n : Bytes) (m : TableManagerImpl) (schema : Schema) (ts : Tables) (o : Option Table)
    → get_table sn n m ≡ ok o
    → lookup sn m.schemas ≡ some schema
    → lookup schema.id m.schema_tables ≡ some ts
    → lookup n ts.tables ≡ o
unfolding get_table
get_table-lookup sn n m schema ts o h p q = ground arith

-- `CreateTable` keeps the two maps of every schema in agreement, whether it succeeds or fails, when
-- an id that the allocator gives out belongs to no table yet.
pub create_table-IsCoherent :
    (s : Storage) (sa ta : IdAllocator) (now : ℕ) (sn n : Bytes) (info : Option Bytes)
    (w : World s sa ta)
    → IsCoherent w.0
    → ((i : ℕ) → (ta.alloc w.1.1.1).0 ≡ ok i → IsFresh i w.0)
    → IsCoherent (create_table s sa ta now sn n info w).1.0
create_table-IsCoherent s sa ta now sn n info w inv fresh =
    elim (Result-cases (create_table s sa ta now sn n info w).0) [
      | inr (e, h) ↦ rw (create_table_err s sa ta now sn n info w e h) inv
      | inl (t, h) ↦
          let (p, absent, id, name, (schema, found, same)) =
            create_table_inv s sa ta now sn n info w t h in
          rw p (
            remember_table-IsCoherent t w.0 inv (fresh t.id id) (λ ts q.
              rw name (get_table-lookup sn n w.0 schema ts none absent found (rw same at q))))
    ]

drop_table_err :
    (s : Storage) (sa ta : IdAllocator) (sn n : Bytes) (w : World s sa ta) (e : Error)
    → (drop_table s sa ta sn n w).0 ≡ err e
    → (drop_table s sa ta sn n w).1.0 ≡ w.0
unfolding drop_table
drop_table_err s sa ta sn n w e h = ground arith

drop_table_same :
    (s : Storage) (sa ta : IdAllocator) (sn n : Bytes) (w : World s sa ta)
    → ((drop_table s sa ta sn n w).1.0 ≡ w.0)
      ⊎ ((t : Table) × (get_table sn n w.0 ≡ ok (some t)) × ((drop_table s sa ta sn n w).0 ≡ ok tt))
unfolding drop_table get_table
drop_table_same s sa ta sn n w = elim (Result-cases (drop_table s sa ta sn n w).0) [
  | inr (e, h) ↦ inl (drop_table_err s sa ta sn n w e h)
  | inl (u, h) ↦ elim (Result-cases (get_table sn n w.0)) [
    | inr (e, g) ↦ inl (ground arith)
    | inl (o, g) ↦ elim (Option-cases o) [
      | inl q ↦ inl (ground arith)
      | inr (t, q) ↦ inr (t, rw g (rw q refl), h)
    ]
  ]
]

-- `DropTable` keeps the two maps of every schema in agreement, whatever it returns.
pub drop_table-IsCoherent :
    (s : Storage) (sa ta : IdAllocator) (sn n : Bytes) (w : World s sa ta)
    → IsCoherent w.0
    → IsCoherent (drop_table s sa ta sn n w).1.0
drop_table-IsCoherent s sa ta sn n w inv = elim (drop_table_same s sa ta sn n w) [
  | inl p ↦ rw p inv
  | inr (t, found, h) ↦
      let (schema, ts, p, q, r) = drop_table_inv s sa ta sn n w t found h in
      let a =
        delete-Agree t n ts (inv schema.id ts q)
          (get_table-lookup sn n w.0 schema ts (some t) found p q) in
      rw r (
        insert-IsCoherent schema.id
          (record { tables = delete n ts.tables; tables_by_id = delete t.id ts.tables_by_id }) w.0
          inv a)
]
