-- ===== src/TableManager.antt =====
-- server/cluster/metadata/table_manager.go: the schemas and tables of a cluster, kept in memory
-- beside the storage. Each method holds the lock from its first line to its last.
pub mod Laws
pub mod Coherence
mod Tests
use ceresmeta.Storage.{Schema, Table, Storage}
use ceresmeta.Common.{
  if◌then◌else◌, ◌==◌, nat_eq, length, Map, lookup, insert, delete, Result, ok, err, Exec, pure,
  ◌>>=◌, ◌>>◌, need, ℕ, zero, suc, ◌%◌, ◌^◌, Bool, true, false, Option, none, some, List, [], ◌∷◌,
  ◌++◌, map, schema_not_found, table_already_exists, Bytes, text_eq, panicked,
}

-- server/id/id.go: the allocators are behind an interface.
pub record IdAllocator : Type 1 where
  pub State : Type 0
  pub alloc : State → Result ℕ × State

-- `tables` is by name.
pub record Tables : Type 0 where
  pub tables : Map Bytes Table
  pub tables_by_id : Map ℕ Table

abbrev pub empty_tables : Tables
empty_tables = record { tables = []; tables_by_id = [] }

pub record TableManagerImpl : Type 0 where
  pub cluster_id : ℕ
  pub schemas : Map Bytes Schema
  pub schema_tables : Map ℕ Tables

abbrev T : Type 0
T = TableManagerImpl

unfoldable pub new_table_manager_impl : ℕ → T
new_table_manager_impl id = record { cluster_id = id; schemas = []; schema_tables = [] }

-- The entry of a schema, made when it is missing.
abbrev pub or_empty : Option Tables → Tables
or_empty none = empty_tables
or_empty (some ts) = ts

unfoldable pub put_table : Table → Tables → Tables
unfolding insert
put_table t ts = record {
  tables = insert t.name t ts.tables;
  tables_by_id = insert t.id t ts.tables_by_id;
}

-- The two writes at the end of `CreateTable`, and the body of the loop of `loadTables`.
unfoldable pub remember_table : Table → T → T
unfolding put_table insert lookup
remember_table t m = record m {
  schema_tables =
      insert t.schema_id (put_table t (or_empty (lookup t.schema_id m.schema_tables)))
        m.schema_tables;
}

pub remember_tables : List Table → T → T
unfolding remember_table
remember_tables [] m = m
remember_tables (t ∷ ts) m = remember_tables ts (remember_table t m)

pub remember_schemas : List Schema → Map Bytes Schema → Map Bytes Schema
unfolding insert
remember_schemas [] m = m
remember_schemas (s ∷ ss) m = remember_schemas ss (insert s.name s m)

-- `ok none` is a table that does not exist.
unfoldable pub get_table : Bytes → Bytes → T → Result (Option Table)
unfolding lookup
get_table schema_name name m = elim (lookup schema_name m.schemas) [
  | none ↦ err schema_not_found
  | some schema ↦ elim (lookup schema.id m.schema_tables) [
    | none ↦ ok none
    | some ts ↦ ok (lookup name ts.tables)
  ]
]

found_tables : List Bytes → Tables → List Table
unfolding lookup
found_tables [] ts = []
found_tables (n ∷ ns) ts =
    let rest = found_tables ns ts in elim (lookup n ts.tables) [ none ↦ rest | some t ↦ t ∷ rest ]

unfoldable pub get_tables : Bytes → List Bytes → T → Result (List Table)
unfolding found_tables lookup
get_tables schema_name names m = elim (lookup schema_name m.schemas) [
  | none ↦ err schema_not_found
  | some schema ↦ elim (lookup schema.id m.schema_tables) [
    | none ↦ ok []
    | some ts ↦ ok (found_tables names ts)
  ]
]

found_by_ids : List ℕ → Tables → List Table
unfolding lookup
found_by_ids [] ts = []
found_by_ids (i ∷ is) ts =
    let rest = found_by_ids is ts in
    elim (lookup i ts.tables_by_id) [ none ↦ rest | some t ↦ t ∷ rest ]

pub tables_by_ids : List ℕ → Map ℕ Tables → List Table
unfolding found_by_ids
tables_by_ids is [] = []
tables_by_ids is ((k, ts) ∷ m) = found_by_ids is ts ++ tables_by_ids is m

pub get_tables_by_ids : List ℕ → T → List Table
unfolding tables_by_ids
get_tables_by_ids is m = tables_by_ids is m.schema_tables

unfoldable pub get_schema : Bytes → T → Option Schema
unfolding lookup
get_schema name m = lookup name m.schemas

pub schema_by_id : ℕ → Map Bytes Schema → Option Schema
schema_by_id id [] = none
schema_by_id id ((n, s) ∷ m) = let rest = schema_by_id id m in if s.id == id then some s else rest

unfoldable pub get_schema_by_id : ℕ → T → Option Schema
unfolding schema_by_id
get_schema_by_id id m = schema_by_id id m.schemas

abbrev zero_schema : Schema
zero_schema = record { id = 0; cluster_id = 0; name = []; created_at = 0 }

zero_schemas : ℕ → List Schema
zero_schemas zero = []
zero_schemas (suc n) = zero_schema ∷ zero_schemas n

-- The slice is made with a length, and the schemas are appended to it.
pub get_schemas : T → List Schema
unfolding zero_schemas
get_schemas m = zero_schemas (length m.schemas) ++ map (λ e. e.1) m.schemas

module _ (s : Storage) (schema_alloc table_alloc : IdAllocator) where
  -- The manager, the storage, and the two allocators.
  abbrev pub World : Type 0
  World = T × (s.State × (schema_alloc.State × table_alloc.State))

  abbrev pub Action : Type 0 → Type 0
  Action A = Exec World A

  abbrev memory : Action T
  memory (m, w) = (ok m, (m, w))

  abbrev set_memory : T → Action (Unit {0})
  set_memory m' (m, w) = (ok tt, (m', w))

  abbrev on_storage : {A : Type 0} → (s.State → Result A × s.State) → Action A
  on_storage f (m, (t, w)) = let (r, t') = f t in (r, (m, (t', w)))

  abbrev alloc_schema_id : Action ℕ
  alloc_schema_id (m, (t, (x, y))) = let (r, x') = schema_alloc.alloc x in (r, (m, (t, (x', y))))

  abbrev alloc_table_id : Action ℕ
  alloc_table_id (m, (t, (x, y))) = let (r, y') = table_alloc.alloc y in (r, (m, (t, (x, y'))))

  abbrev is_absent : Option Table → Option (Unit {0})
  is_absent none = some tt
  is_absent (some t) = none

  -- The result of a lookup that may have failed.
  abbrev from_result : {A : Type 0} → Result A → Action A
  from_result r w = (r, w)

  unfoldable pub create_table : ℕ → Bytes → Bytes → Option Bytes → Action Table
  unfolding lookup get_table remember_table
  create_table now schema_name name info = do
    m ← memory
    found ← from_result (get_table schema_name name m)
    need table_already_exists (is_absent found)
    schema ← need schema_not_found (lookup schema_name m.schemas)
    id ← alloc_table_id
    let t : Table = record {
      id = id;
      name = name;
      schema_id = schema.id;
      created_at = now;
      partition_info = info;
    }
    on_storage (s.create_table m.cluster_id schema.id t)
    set_memory (remember_table t m)
    pure t

  -- The two deletions at the end of `DropTable`.
  abbrev pub forget_table : Table → Bytes → Schema → Tables → T → T
  forget_table t name schema ts m = record m {
    schema_tables =
        insert schema.id
          (record { tables = delete name ts.tables; tables_by_id = delete t.id ts.tables_by_id })
          m.schema_tables;
  }

  -- A schema without an entry for its tables is a nil dereference.
  unfoldable pub drop_table : Bytes → Bytes → Action (Unit {0})
  unfolding lookup insert delete
  drop_table schema_name name (m, w) = elim (lookup schema_name m.schemas) [
    | none ↦ (ok tt, (m, w))
    | some schema ↦ elim (lookup schema.id m.schema_tables) [
      | none ↦ (err panicked, (m, w))
      | some ts ↦ elim (lookup name ts.tables) [
        | none ↦ (ok tt, (m, w))
        | some t ↦
            (do
              on_storage (s.delete_table m.cluster_id schema.id name)
              set_memory (forget_table t name schema ts m))
              (m, w)
      ]
    ]
  ]

  -- The second component tells whether the schema existed. An id is cut to the 32 bits of a schema's.
  unfoldable pub get_or_create_schema : ℕ → Bytes → Action (Schema × Bool)
  unfolding lookup insert
  get_or_create_schema now name (m, w) = elim (lookup name m.schemas) [
    | some schema ↦ (ok (schema, true), (m, w))
    | none ↦
        (do
          id ← alloc_schema_id
          let schema : Schema = record {
            id = id % 2 ^ 32;
            cluster_id = m.cluster_id;
            name = name;
            created_at = now;
          }
          on_storage (s.create_schema m.cluster_id schema)
          set_memory (record m { schemas = insert name schema m.schemas })
          pure (schema, false))
          (m, w)
  ]

  pub load_schemas : Action (Unit {0})
  unfolding remember_schemas
  load_schemas = do
    m ← memory
    ss ← on_storage (s.list_schemas m.cluster_id)
    set_memory (record m { schemas = remember_schemas ss [] })

  -- The loop over the schemas; an error leaves the tables of the schemas before it.
  pub load_tables_of : Map Bytes Schema → Action (Unit {0})
  unfolding remember_tables
  load_tables_of [] = pure tt
  load_tables_of ((n, schema) ∷ ss) = do
    m ← memory
    ts ← on_storage (s.list_tables m.cluster_id schema.id)
    set_memory (remember_tables ts m)
    load_tables_of ss

  pub load_tables : Action (Unit {0})
  load_tables = do
    m ← memory
    set_memory (record m { schema_tables = [] })
    load_tables_of m.schemas

  pub load : Action (Unit {0})
  load = do load_schemas; load_tables
