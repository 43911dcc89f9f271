-- ===== src/Migrations/Running.antt =====
-- Running the bodies of migrations/versions/0001_initial_schema.py on a database. The database is a
-- parameter, `perform`; what is documented of its operations is `run`.
use flyrank_capstone_lead_ca.Prelude.{
  ◌≡◌, String, append, Bool, true, false, not, ◌&&◌, ◌||◌, Option, none, some, List, [], ◌∷◌, ◌++◌,
  map, Dict, where_, any, all, All, ◌==◌, if◌then◌else◌,
}
use flyrank_capstone_lead_ca.Migrations.{
  Column, Operation, create_table, create_index, create_unique_constraint, drop_table,
}

pub record Index : Type 0 where
  pub name : String
  pub table : String
  pub columns : List String
  pub unique : Bool

-- The newest table and the newest index come first.
pub record Schema : Type 0 where
  pub tables : Dict (List Column)
  pub indexes : List Index

abbrev pub has_table : String → Schema → Bool
has_table n s = any (λ e. e.0 == n) s.tables

-- Has the table all the columns?
abbrev pub has_columns : String → List String → Schema → Bool
has_columns table names s =
    all (λ n. any (λ e. e.0 == table && any (λ c. c.name == n) e.1) s.tables) names

-- Tables and indexes have their names from one space.
abbrev pub taken : String → Schema → Bool
taken n s = has_table n s || any (λ i. i.name == n) s.indexes

abbrev pub is_for : String → Option String → Bool
is_for n none = false
is_for n (some table) = table == n

-- Does a column of another table refer to the table?
abbrev pub referred : String → Dict (List Column) → Bool
referred n = any (λ e. not (e.0 == n) && any (λ c. is_for n c.foreign_key) e.1)

abbrev pub targets : List Column → List String
targets [] = []
targets (c ∷ cs) = elim c.foreign_key [ none ↦ targets cs | some n ↦ n ∷ targets cs ]

abbrev pub pkey : String → String
pkey n = append n "_pkey"

abbrev pub key_columns : List Column → List String
key_columns cs = map (λ c. c.name) (where_ (λ c. c.primary_key) cs)

abbrev pub with_index : String → String → List String → Bool → Schema → Schema
with_index n table columns unique s = record s {
  indexes = record { name = n; table = table; columns = columns; unique = unique } ∷ s.indexes;
}

abbrev pub with_table : String → List Column → Schema → Schema
with_table n cs s =
    with_index (pkey n) n (key_columns cs) true (record s { tables = (n, cs) ∷ s.tables })

abbrev pub without : String → Schema → Schema
without n s = record {
  tables = where_ (λ e. not (e.0 == n)) s.tables;
  indexes = where_ (λ i. not (i.table == n)) s.indexes;
}

abbrev pub only_if : Bool → Schema → Option Schema
only_if b s = if b then some s else none

-- What PostgreSQL documents of an operation; none where it is refused.
unfoldable pub run : Operation → Schema → Option Schema
unfolding where_
run (create_table n cs) s =
    only_if (not (taken n s) && not (taken (pkey n) s) && all (λ t. has_table t s) (targets cs))
      (with_table n cs s)
run (create_index n table columns unique) s =
    only_if (not (taken n s) && has_columns table columns s) (with_index n table columns unique s)
run (create_unique_constraint n table columns) s =
    only_if (not (taken n s) && has_columns table columns s) (with_index n table columns true s)
run (drop_table n) s = only_if (has_table n s && not (referred n s.tables)) (without n s)

abbrev pub and_then : Option Schema → (Schema → Option Schema) → Option Schema
and_then none f = none
and_then (some s) f = f s

-- The body of a migration on a database: the operations in their order, up to one that is refused.
unfoldable pub run_all :
    (Operation → Schema → Option Schema) → List Operation → Schema → Option Schema
run_all perform [] s = some s
run_all perform (o ∷ os) s = and_then (perform o s) (run_all perform os)

-- A database whose operations do what is documented of them.
pub record Performs (perform : Operation → Schema → Option Schema) : Type 0 where
  pub documented : (o : Operation) (s : Schema) → perform o s ≡ run o s

-- The names that an operation is about.
abbrev pub touches : Operation → List String
touches (create_table n cs) = n ∷ pkey n ∷ []
touches (create_index n table columns unique) = n ∷ []
touches (create_unique_constraint n table columns) = n ∷ []
touches (drop_table n) = n ∷ []

-- Nothing of the schema has the name, and nothing refers to a table of the name.
abbrev pub is_unrelated : Schema → String → Bool
is_unrelated s n =
    all (λ e. not (e.0 == n)) s.tables
    && all (λ i. not (i.name == n) && not (i.table == n)) s.indexes
    && not (referred n s.tables)

abbrev pub Unrelated : Schema → Operation → Type 0
Unrelated s o = All (λ n. is_unrelated s n ≡ true) (touches o)

-- A schema beside another one.
abbrev pub beside : Schema → Schema → Schema
beside s g = record { tables = g.tables ++ s.tables; indexes = g.indexes ++ s.indexes }
