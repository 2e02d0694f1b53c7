-- ===== src/Migrations.antt =====
-- The revisions under alembic/versions, as operations on a database: its tables with columns,
-- constraints, indexes and rows. Whether the columns that are named exist is not looked at. An operation
-- that PostgreSQL refuses ends the migration, which is one transaction.
pub mod Versions
pub mod Declared
pub mod Cleanup
mod Examples
use ping_gaurd.Prelude.{
  ℕ, Bool, true, false, not, ◌&&◌, ◌||◌, String, ◌==ˢ◌, str_in, Option, none, some, List, [], ◌∷◌,
  ◌++◌, map, if◌then◌else◌,
}
use ping_gaurd.Models.{Result, ok, raise}

pub data ColumnType : Type 0 where
  integer boolean float timestamp : ColumnType
  varchar : ℕ → ColumnType

pub record Column : Type 0 where
  pub name : String
  pub kind : ColumnType
  pub nullable : Bool
  pub server_default : Option String

pub record PrimaryKey : Type 0 where
  pub name : String
  pub column : String

pub record ForeignKey : Type 0 where
  pub name : String
  pub column : String
  pub target : String
  pub target_column : String
  pub cascades : Bool

-- The condition `column IN (values)`.
pub record Check : Type 0 where
  pub name : String
  pub column : String
  pub values : List String

pub record Index : Type 0 where
  pub name : String
  pub columns : List String

-- The columns of text of a row; `none` is NULL.
abbrev pub Row : Type 0
Row = String → Option String

pub record Table : Type 0 where
  pub columns : List Column
  pub primary_key : PrimaryKey
  pub foreign_keys : List ForeignKey
  pub checks : List Check
  pub indexes : List Index
  pub rows : List Row

abbrev pub Schema : Type 0
Schema = List (String × Table)

pub data MigrationError : Type 0 where
  table_exists no_table table_referenced index_exists no_index : MigrationError
  check_exists no_check check_violated : MigrationError

abbrev pub Step : Type 0
Step = Schema → Result MigrationError Schema

-- The operations of one revision, in order.
unfoldable pub run_steps : List Step → Step
run_steps [] db = ok db
run_steps (s ∷ steps) db = elim (s db) [ raise e ↦ raise e | ok next ↦ run_steps steps next ]

unfoldable pub has_table : String → Schema → Bool
has_table name [] = false
has_table name ((key, t) ∷ rest) = key ==ˢ name || has_table name rest

abbrev pub names_index : String → List Index → Bool
names_index name [] = false
names_index name (i ∷ indexes) = i.name ==ˢ name || names_index name indexes

unfoldable pub has_index : String → Schema → Bool
has_index name [] = false
has_index name ((key, t) ∷ rest) = names_index name t.indexes || has_index name rest

abbrev pub targets : String → List ForeignKey → Bool
targets name [] = false
targets name (k ∷ keys) = k.target ==ˢ name || targets name keys

-- Whether another table refers to a table.
unfoldable pub is_referenced : String → Schema → Bool
is_referenced name [] = false
is_referenced name ((key, t) ∷ rest) =
    (not (key ==ˢ name) && targets name t.foreign_keys) || is_referenced name rest

abbrev pub keep_entry : String × Table → Result MigrationError Schema → Result MigrationError Schema
keep_entry e (raise x) = raise x
keep_entry e (ok rest) = ok (e ∷ rest)

abbrev pub put_table : String → Schema → Result MigrationError Table → Result MigrationError Schema
put_table key rest (raise x) = raise x
put_table key rest (ok t) = ok ((key, t) ∷ rest)

unfoldable pub alter_table : String → (Table → Result MigrationError Table) → Step
alter_table name f [] = raise no_table
alter_table name f ((key, t) ∷ rest) =
    let others = alter_table name f rest in
    if key ==ˢ name then put_table key rest (f t) else keep_entry (key, t) others

unfoldable pub targets_exist : List ForeignKey → Schema → Bool
targets_exist [] db = true
targets_exist (k ∷ keys) db = has_table k.target db && targets_exist keys db

unfoldable pub create_table : String → List Column → PrimaryKey → List ForeignKey → Step
create_table name columns key foreign_keys db =
    if has_table name db
    then raise table_exists
    else if not (targets_exist foreign_keys db)
    then raise no_table
    else ok (
        (
          name,
          record {
            columns = columns;
            primary_key = key;
            foreign_keys = foreign_keys;
            checks = [];
            indexes = [];
            rows = [];
          },
        )
        ∷ db)

unfoldable pub remove_table : String → Step
remove_table name [] = raise no_table
remove_table name ((key, t) ∷ rest) =
    let others = remove_table name rest in
    if key ==ˢ name then ok rest else keep_entry (key, t) others

unfoldable pub drop_table : String → Step
drop_table name db = if is_referenced name db then raise table_referenced else remove_table name db

-- The names of indexes are those of the schema, not of the table.
unfoldable pub create_index : (name table : String) → List String → Step
create_index name table columns db =
    if has_index name db
    then raise index_exists
    else alter_table table
        (λ t.
          ok (record t { indexes = t.indexes ++ record { name = name; columns = columns } ∷ [] }))
        db

abbrev pub remove_index : String → List Index → List Index
remove_index name [] = []
remove_index name (i ∷ indexes) =
    let rest = remove_index name indexes in if i.name ==ˢ name then rest else i ∷ rest

unfoldable pub drop_index : String → Step
drop_index name [] = raise no_index
drop_index name ((key, t) ∷ rest) =
    let others = drop_index name rest in
    if names_index name t.indexes
    then ok ((key, record t { indexes = remove_index name t.indexes }) ∷ rest)
    else keep_entry (key, t) others

-- NULL satisfies a check.
abbrev pub satisfies : String → List String → Row → Bool
satisfies column values row = elim (row column) [ none ↦ true | some v ↦ str_in v values ]

unfoldable pub all_satisfy : String → List String → List Row → Bool
all_satisfy column values [] = true
all_satisfy column values (row ∷ rows) =
    satisfies column values row && all_satisfy column values rows

abbrev pub names_check : String → List Check → Bool
names_check name [] = false
names_check name (c ∷ checks) = c.name ==ˢ name || names_check name checks

unfoldable pub create_check : (name table column : String) → List String → Step
create_check name table column values = alter_table table (λ t.
    if names_check name t.checks
    then raise check_exists
    else if all_satisfy column values t.rows
    then ok (record t {
      checks = t.checks ++ record { name = name; column = column; values = values } ∷ [];
    })
    else raise check_violated)

abbrev pub remove_check : String → List Check → List Check
remove_check name [] = []
remove_check name (c ∷ checks) =
    let rest = remove_check name checks in if c.name ==ˢ name then rest else c ∷ rest

unfoldable pub drop_check : (name table : String) → Step
drop_check name table = alter_table table (λ t.
    if names_check name t.checks
    then ok (record t { checks = remove_check name t.checks })
    else raise no_check)

-- `UPDATE table SET column = value WHERE column NOT IN (values)`
unfoldable pub replace_invalid : (column value : String) → List String → Row → Row
replace_invalid column value values row =
    if satisfies column values row then row else (λ c. if c ==ˢ column then some value else row c)

unfoldable pub update_invalid : (table column value : String) → List String → Step
update_invalid table column value values =
    alter_table table
      (λ t. ok (record t { rows = map (replace_invalid column value values) t.rows }))
