-- ===== src/Migrations/RoundTrip.antt =====
-- The upgrade and the downgrade of migrations/versions/0001_initial_schema.py beside other tables.
use flyrank_capstone_lead_ca.Prelude.{
  all_mono, any-append, ◌≡◌, refl, ap, ◌∙◌, Option, none, inl, inr, Option-cases, String, Bool,
  true, false, not, ◌&&◌, some, List, [], ◌∷◌, ◌++◌, where_, where-append, any, all, All, arith,
  ◌==◌,
}
use flyrank_capstone_lead_ca.Migrations.{
  Column, Operation, create_table, create_index, create_unique_constraint, drop_table, upgrade,
  downgrade, tenants_columns, widgets_columns, submissions_columns, outbox_events_columns,
  spam_events_columns, downgrade,
}
use flyrank_capstone_lead_ca.Migrations.Running.{
  Index, Schema, has_table, has_columns, taken, is_for, referred, targets, pkey, with_index,
  without, only_if, run, and_then, Performs, run_all, is_unrelated, Unrelated, beside,
}

where-all : {A : Type 0} (p : A → Bool) (xs : List A) → all p xs ≡ true → where_ p xs ≡ xs
unfolding where_
where-all p [] h = refl
where-all p (x ∷ xs) h = ground (arith, where-all p xs)

any-none :
    {A : Type 0} (p q : A → Bool) (xs : List A)
    → ((x : A) → q x ≡ true → p x ≡ false)
    → all q xs ≡ true
    → any p xs ≡ false
any-none p q [] f h = refl
any-none p q (x ∷ xs) f h = ground (arith, any-none p q xs f, f x)

ok-only_if : (b : Bool) (s : Schema) {g : Schema} → only_if b s ≡ some g → (b ≡ true) × (s ≡ g)
ok-only_if true s h = (refl, cc)
ok-only_if false s h = absurd (cc)

taken-beside :
    (n : String) (s g : Schema) → is_unrelated s n ≡ true → taken n (beside s g) ≡ taken n g
taken-beside n s g h =
    let tables : any (λ (e : String × List Column). e.0 == n) s.tables ≡ false =
      any-none _ (λ (e : String × List Column). not (e.0 == n)) s.tables (λ e. ground arith)
        (ground arith) in
    let indexes : any (λ (i : Index). i.name == n) s.indexes ≡ false =
      any-none _ (λ (i : Index). not (i.name == n) && not (i.table == n)) s.indexes
        (λ i. ground arith) (ground arith) in
    ground (
      arith,
      any-append (λ (e : String × List Column). e.0 == n) g.tables s.tables,
      any-append (λ (i : Index). i.name == n) g.indexes s.indexes,
    )

has_table-beside :
    (n : String) (s g : Schema) → has_table n g ≡ true → has_table n (beside s g) ≡ true
has_table-beside n s g h =
    ground (arith, any-append (λ (e : String × List Column). e.0 == n) g.tables s.tables)

has_columns-beside :
    (table : String) (names : List String) (s g : Schema)
    → has_columns table names g ≡ true
    → has_columns table names (beside s g) ≡ true
has_columns-beside table names s g h =
    all_mono (λ n. any (λ e. e.0 == table && any (λ c. c.name == n) e.1) g.tables) _ names
      (λ n k. ground (
        arith,
        any-append (λ (e : String × List Column). e.0 == table && any (λ c. c.name == n) e.1)
            g.tables s.tables,
      ))
      h

where-beside :
    {A : Type 0} (p : A → Bool) (xs ys : List A)
    → all p ys ≡ true
    → where_ p (xs ++ ys) ≡ where_ p xs ++ ys
where-beside p xs ys h = rw (where-append p xs ys, where-all p ys h) refl

without-beside :
    (n : String) (s g : Schema)
    → is_unrelated s n ≡ true
    → without n (beside s g) ≡ beside s (without n g)
without-beside n s g h =
    let tables : all (λ (e : String × List Column). not (e.0 == n)) s.tables ≡ true =
      ground arith in
    let indexes : all (λ (i : Index). not (i.table == n)) s.indexes ≡ true =
      all_mono (λ (i : Index). not (i.name == n) && not (i.table == n)) _ s.indexes
        (λ i. ground arith) (ground arith) in
    rw
      (
        where-beside (λ (e : String × List Column). not (e.0 == n)) g.tables s.tables tables,
        where-beside (λ (i : Index). not (i.table == n)) g.indexes s.indexes indexes,
      )
      refl

only_if-accepts : (b : Bool) (x y : Schema) → b ≡ true → x ≡ y → only_if b x ≡ some y
only_if-accepts b x y h same = rw h (ap some same)

index-beside :
    (n table : String) (columns : List String) (unique : Bool) (s g : Schema) {g' : Schema}
    → is_unrelated s n ≡ true
    → only_if (not (taken n g) && has_columns table columns g) (with_index n table columns unique g)
      ≡ some g'
    → only_if
        (not (taken n (beside s g)) && has_columns table columns (beside s g))
        (with_index n table columns unique (beside s g))
      ≡ some (beside s g')
index-beside n table columns unique s g u h =
    let (free, same) = ok-only_if _ _ h in
    only_if-accepts _ _ _
      (rw (taken-beside n s g u, has_columns-beside table columns s g (ground arith))
        (ground arith))
      (ap (beside s) same)

-- What an operation does beside a schema that it is unrelated to, it does by itself.
run-beside :
    (o : Operation) (s g : Schema) {g' : Schema}
    → Unrelated s o
    → run o g ≡ some g'
    → run o (beside s g) ≡ some (beside s g')
unfolding run
run-beside (create_table n cs) s g u h =
    let (free, same) = ok-only_if _ _ h in
    let there : all (λ t. has_table t (beside s g)) (targets cs) ≡ true =
      all_mono (λ t. has_table t g) _ (targets cs) (λ t. has_table-beside t s g) (ground arith) in
    only_if-accepts _ _ _
      (rw (taken-beside n s g u.0, taken-beside (pkey n) s g u.1.0, there) (ground arith))
      (ap (beside s) same)
run-beside (create_index n table columns unique) s g u h =
    index-beside n table columns unique s g u.0 h
run-beside (create_unique_constraint n table columns) s g u h =
    index-beside n table columns true s g u.0 h
run-beside (drop_table n) s g u h =
    let (free, same) = ok-only_if _ _ h in
    let referred : referred n (g.tables ++ s.tables) ≡ false = ground (
      arith,
      any-append
          (λ (e : String × List Column). not (e.0 == n) && any (λ c. is_for n c.foreign_key) e.1)
          g.tables s.tables,
    ) in
    only_if-accepts _ _ _ (rw (has_table-beside n s g (ground arith), referred) refl)
      (rw (without-beside n s g u.0) (ap (beside s) same))

run_all-beside :
    (os : List Operation) (s g : Schema) {g' : Schema}
    → All (Unrelated s) os
    → run_all run os g ≡ some g'
    → run_all run os (beside s g) ≡ some (beside s g')
unfolding run_all
run_all-beside [] s g {g' = g'} u h = let same : g ≡ g' = cc h in ap (λ x. some (beside s x)) same
run_all-beside (o ∷ os) s g u h = elim (Option-cases (run o g)) [
  | inl n ↦ absurd (cc (rw n at h))
  | inr (x, n) ↦ rw (run-beside o s g u.0 n) (run_all-beside os s x u.1 (rw n at h))
]

abbrev no_tables : Schema
no_tables = record { tables = []; indexes = [] }

abbrev index_of : String → String → List String → Bool → Index
index_of n table columns unique = record {
  name = n;
  table = table;
  columns = columns;
  unique = unique;
}

-- The schema of the application: its tables, and the indexes with those of the keys.
abbrev pub initial_schema : Schema
initial_schema = record {
  tables =
      ("spam_events", spam_events_columns)
      ∷ ("outbox_events", outbox_events_columns)
      ∷ ("submissions", submissions_columns)
      ∷ ("widgets", widgets_columns)
      ∷ ("tenants", tenants_columns)
      ∷ [];
  indexes =
      index_of "ix_spam_events_tenant_created" "spam_events" ("tenant_id" ∷ "created_at" ∷ []) false
      ∷ index_of "spam_events_pkey" "spam_events" ("id" ∷ []) true
      ∷ index_of "ix_outbox_status_next_attempt" "outbox_events" ("status" ∷ "next_attempt_at" ∷ [])
          false
      ∷ index_of "outbox_events_pkey" "outbox_events" ("id" ∷ []) true
      ∷ index_of "uq_submissions_widget_idem" "submissions" ("widget_id" ∷ "idempotency_key" ∷ [])
          true
      ∷ index_of "ix_submissions_tenant_id_created_at" "submissions"
          ("tenant_id" ∷ "created_at" ∷ []) false
      ∷ index_of "ix_submissions_widget_id_created_at" "submissions"
          ("widget_id" ∷ "created_at" ∷ []) false
      ∷ index_of "submissions_pkey" "submissions" ("id" ∷ []) true
      ∷ index_of "ix_widgets_tenant_id_created_at" "widgets" ("tenant_id" ∷ "created_at" ∷ []) false
      ∷ index_of "ix_widgets_public_id" "widgets" ("public_id" ∷ []) true
      ∷ index_of "widgets_pkey" "widgets" ("id" ∷ []) true
      ∷ index_of "ix_tenants_email" "tenants" ("email" ∷ []) true
      ∷ index_of "tenants_pkey" "tenants" ("id" ∷ []) true
      ∷ [];
}

and_then-eq :
    (o : Option Schema) {f g : Schema → Option Schema}
    → ((s : Schema) → f s ≡ g s)
    → and_then o f ≡ and_then o g
and_then-eq none h = refl
and_then-eq (some s) h = h s

run_all-documented :
    (perform : Operation → Schema → Option Schema)
    → Performs perform
    → (os : List Operation) (s : Schema) → run_all perform os s ≡ run_all run os s
unfolding run_all
run_all-documented perform p [] s = refl
run_all-documented perform p (o ∷ os) s =
    rw (p.documented o s) (and_then-eq (run o s) (run_all-documented perform p os))

-- Where the database does what is documented: on a schema without the tables and without their names
-- the upgrade succeeds and puts the five tables and their indexes beside what is there, and the
-- downgrade after it succeeds and gives the schema back.
pub upgrade-downgrade :
    (perform : Operation → Schema → Option Schema)
    → Performs perform
    → (s : Schema) → All (Unrelated s) upgrade
    → (run_all perform upgrade s ≡ some (beside s initial_schema))
      × (run_all perform downgrade (beside s initial_schema) ≡ some s)
unfolding run_all upgrade downgrade run
upgrade-downgrade perform p s u = (
  run_all-documented perform p upgrade s ∙ run_all-beside upgrade s no_tables u refl,
  run_all-documented perform p downgrade (beside s initial_schema)
      ∙ run_all-beside downgrade s initial_schema {g' = no_tables}
          (
            (u.1.1.1.1.1.1.1.1.1.1.1.0.0, tt),
            (
              (u.1.1.1.1.1.1.1.1.1.0.0, tt),
              ((u.1.1.1.1.1.0.0, tt), ((u.1.1.0.0, tt), ((u.0.0, tt), tt))),
            ),
          )
          refl,
)
