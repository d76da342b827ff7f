-- ===== src/State/Migrations.antt =====
-- state/migrations.py: additive columns for databases that already exist. A schema is its tables and
-- the columns that each has, as PRAGMA table_info lists them.
use fund.Python.Actions.{Action, pure, ◌>>◌, ok, err, operational_error}
use fund.Base.{
  Bool, List, String, any, if◌then◌else◌, not, select, str_eq, ◌∷◌, [], map, ◌&&◌, ◌++◌,
}
pub mod Current

-- A column of a table.
abbrev pub Column : Type 0
Column = String × String

pub record Schema : Type 0 where
  pub tables : List String
  pub columns : List Column

-- MIGRATIONS: what each migration adds, by its name.
abbrev pub Migration : Type 0
Migration = String × List Column

unfoldable pub migrations : List Migration
migrations =
    (
      "0001_attribution",
      ("signals", "charter_version")
          ∷ ("signals", "model_id")
          ∷ ("decisions", "charter_version")
          ∷ ("decisions", "model_id")
          ∷ ("critiques", "charter_version")
          ∷ ("critiques", "model_id")
          ∷ [],
    )
    ∷ []

abbrev pub is_column : Column → Column → Bool
is_column (table, name) (t, n) = str_eq t table && str_eq n name

abbrev pub has_column : Schema → Column → Bool
has_column schema c = any (is_column c) schema.columns

abbrev pub is_missing : Schema → Column → Bool
is_missing schema c = not (has_column schema c)

-- The migrations that the database has not had in full.
unfoldable pub pending : Schema → List Migration → List Migration
pending schema ms = select (λ (m : Migration). any (is_missing schema) m.1) ms

-- ALTER TABLE … ADD COLUMN, which raises without the table.
abbrev pub add_column : Column → Action Schema (Unit {0})
add_column (table, name) schema =
    if any (str_eq table) schema.tables
    then (ok tt, record schema { columns = schema.columns ++ (table, name) ∷ [] })
    else (err operational_error, schema)

abbrev pub add_missing : Column → Action Schema (Unit {0})
add_missing c schema = if has_column schema c then (ok tt, schema) else add_column c schema

unfoldable pub apply_columns : List Column → Action Schema (Unit {0})
apply_columns [] = pure tt
apply_columns (c ∷ cs) = do add_missing c; apply_columns cs

unfoldable pub apply_all : List Migration → Action Schema (Unit {0})
unfolding apply_columns
apply_all [] = pure tt
apply_all (m ∷ ms) = do apply_columns m.1; apply_all ms

-- The names of the migrations that were applied.
unfoldable pub apply : List Migration → Action Schema (List String)
apply ms schema =
    (apply_all (pending schema ms) >> pure (map (λ (m : Migration). m.0) (pending schema ms)))
      schema
