-- ===== src/Dao.antt =====
-- onesql/dao.go: `FastDaoImpl`, `ComplexQuery` and `ComplexExec`. The builder, the scanner and the
-- database are parameters; a condition is a map from column names, known by numbers, to values.
pub mod Rows
pub mod Setup
use eins.Prelude.{
  ℕ, zero, suc, ◌≡◌, Bool, true, false, Option, none, some, List, [], ◌∷◌, if◌then◌else◌, ◌==◌, ◌⊎◌,
  inl, inr,
}
use eins.Prelude.Ending.{Ending, returns, fails, panics}

pub data SqlError : Type 0 where
  no_db : SqlError
  build_failed db_failed scan_failed : ℕ → SqlError

-- How an operation leaves the database, the rows that it got and those that it closed, what it returns,
-- and whether it panics instead.
pub record Run (D A : Type 0) : Type 0 where
  pub db : D
  pub opens : ℕ
  pub closes : ℕ
  pub value : A
  pub error : Option SqlError
  pub panics : Bool

-- The database, and what a driver returns. `Q` is a statement with its values.
pub record Driver (D Q R X : Type 0) : Type 0 where
  pub query : D → Q → (Option SqlError × Option R) × D
  pub exec : D → Q → (Option SqlError × Option X) × D
  pub last_insert_id : X → ℕ × Option SqlError
  pub rows_affected : X → ℕ × Option SqlError

-- `msql.Builder`, for the table and the omitted columns of the model. `limit` is the name `_limit`, and
-- `first_row` the value that asks for one row.
pub record Builder (V Q : Type 0) : Type 0 where
  pub limit : ℕ
  pub first_row : V
  pub build_select : (ℕ → Option V) → Ending SqlError Q
  pub build_insert : List (ℕ → Option V) → SqlError ⊎ Q
  pub build_upsert : (ℕ → Option V) → SqlError ⊎ Q
  pub build_update : (ℕ → Option V) → (ℕ → Option V) → SqlError ⊎ Q
  pub build_delete : (ℕ → Option V) → SqlError ⊎ Q
  pub build_count : (ℕ → Option V) → SqlError ⊎ Q

abbrev pub stop : {D A : Type 0} → D → A → Option SqlError → Run D A
stop d v e = record { db = d; opens = 0; closes = 0; value = v; error = e; panics = false }

abbrev pub or_else : {V : Type 0} → Option V → Option V → Option V
or_else (some v) _ = some v
or_else none v = v

-- The condition of `SelectOne`: one row, unless a limit is given.
unfoldable pub one_row : {V Q : Type 0} → Builder V Q → (ℕ → Option V) → ℕ → Option V
one_row b where' k = if b.limit == k then or_else (where' k) (some b.first_row) else where' k

module _ {D Q R X A : Type 0} (w : Driver D Q R X) (zero_value : A) where
  open w use {query, exec}

  -- What the scanner makes of rows that were got: a value with an error, or a panic, here `none`.
  unfoldable pub scanned : D → Option (A × Option SqlError) → Run D A
  scanned d none = record (stop d zero_value none) { opens = 1; panics = true }
  scanned d (some (v, e)) = record (stop d v e) { opens = 1 }

  -- `defer rows.Close()`, which is run after a panic too.
  unfoldable pub close_rows : Run D A → Run D A
  close_rows t = record t { closes = suc t.closes }

  -- The end of a selection.
  unfoldable pub scan_rows :
      (R → Option (A × Option SqlError)) → D → Option SqlError → Option R → Run D A
  unfolding scanned close_rows
  scan_rows scan d (some e) rows = stop d zero_value (some e)
  scan_rows scan d none none = stop d zero_value none
  scan_rows scan d none (some r) = close_rows (scanned d (scan r))

  -- `ComplexQuery`, and what the selections do with the statement that the builder makes.
  unfoldable pub complex_query :
      (R → Option (A × Option SqlError)) → Bool → D → Ending SqlError Q → Run D A
  unfolding scan_rows
  complex_query scan false d q = stop d zero_value (some no_db)
  complex_query scan true d (fails e) = stop d zero_value (some e)
  complex_query scan true d panics = record (stop d zero_value none) { panics = true }
  complex_query scan true d (returns q) =
      let ((err, rows), d') = query d q in scan_rows scan d' err rows

  -- `SelectOne` and `SelectMulti`. `there` says that the database is not nil.
  unfoldable pub select_one :
      {V : Type 0}
      → Builder V Q
      → (R → Option (A × Option SqlError))
      → Bool
      → D
      → (ℕ → Option V)
      → Run D A
  unfolding complex_query one_row
  select_one b scan there d where' =
      if there
      then complex_query scan true d (b.build_select (one_row b where'))
      else stop d zero_value (some no_db)

  unfoldable pub select_multi :
      {V : Type 0}
      → Builder V Q
      → (R → Option (A × Option SqlError))
      → Bool
      → D
      → (ℕ → Option V)
      → Run D A
  unfolding complex_query
  select_multi b scan there d where' =
      if there
      then complex_query scan true d (b.build_select where')
      else stop d zero_value (some no_db)

module _ {D Q R X : Type 0} (w : Driver D Q R X) where
  open w use {query, exec, last_insert_id, rows_affected}

  -- The end of `Insert` and `Upsert`.
  unfoldable pub inserted : D → Option SqlError → Option X → Run D ℕ
  inserted d (some e) x = stop d 0 (some e)
  inserted d none none = stop d 0 none
  inserted d none (some x) = stop d (last_insert_id x).0 (last_insert_id x).1

  unfoldable pub run_insert : Bool → D → SqlError ⊎ Q → Run D ℕ
  unfolding inserted
  run_insert false d q = stop d 0 (some no_db)
  run_insert true d (inl e) = stop d 0 (some e)
  run_insert true d (inr q) = let ((err, x), d') = exec d q in inserted d' err x

  -- `Insert` and `Upsert`.
  unfoldable pub insert : {V : Type 0} → Builder V Q → Bool → D → List (ℕ → Option V) → Run D ℕ
  unfolding run_insert
  insert b there d rows = run_insert there d (b.build_insert rows)

  unfoldable pub upsert : {V : Type 0} → Builder V Q → Bool → D → (ℕ → Option V) → Run D ℕ
  unfolding run_insert
  upsert b there d row = run_insert there d (b.build_upsert row)

  -- The end of `Update`, `Delete` and `ComplexExec`: a result that is nil panics.
  unfoldable pub affected : D → Option SqlError → Option X → Run D ℕ
  affected d (some e) x = stop d 0 (some e)
  affected d none none = record (stop d 0 none) { panics = true }
  affected d none (some x) = stop d (rows_affected x).0 (rows_affected x).1

  -- `ComplexExec`.
  unfoldable pub complex_exec : Bool → D → SqlError ⊎ Q → Run D ℕ
  unfolding affected
  complex_exec false d q = stop d 0 (some no_db)
  complex_exec true d (inl e) = stop d 0 (some e)
  complex_exec true d (inr q) = let ((err, x), d') = exec d q in affected d' err x

  -- `Update` and `Delete`.
  unfoldable pub update :
      {V : Type 0} → Builder V Q → Bool → D → (ℕ → Option V) → (ℕ → Option V) → Run D ℕ
  unfolding complex_exec
  update b there d where' row = complex_exec there d (b.build_update where' row)

  unfoldable pub delete : {V : Type 0} → Builder V Q → Bool → D → (ℕ → Option V) → Run D ℕ
  unfolding complex_exec
  delete b there d where' = complex_exec there d (b.build_delete where')

  -- The loop of `CountOf` over the rows, each read as a number or an error.
  unfoldable pub count_rows : List (SqlError ⊎ ℕ) → ℕ → ℕ × Option SqlError
  count_rows [] count = (count, none)
  count_rows (inl e ∷ rows) count = (count, some e)
  count_rows (inr n ∷ rows) count = count_rows rows n

  -- `CountOf` behind the query. Nil rows panic, and nothing closes the rows.
  unfoldable pub counted : (R → List (SqlError ⊎ ℕ)) → D → Option SqlError → Option R → Run D ℕ
  unfolding count_rows
  counted read d (some e) rows = stop d 0 (some e)
  counted read d none none = record (stop d 0 none) { panics = true }
  counted read d none (some r) = record {
    db = d;
    opens = 1;
    closes = 0;
    value = (count_rows (read r) 0).0;
    error = (count_rows (read r) 0).1;
    panics = false;
  }

  -- `CountOf`.
  unfoldable pub count_query : (R → List (SqlError ⊎ ℕ)) → Bool → D → SqlError ⊎ Q → Run D ℕ
  unfolding counted
  count_query read false d q = stop d 0 (some no_db)
  count_query read true d (inl e) = stop d 0 (some e)
  count_query read true d (inr q) = let ((err, rows), d') = query d q in counted read d' err rows

  unfoldable pub count_of :
      {V : Type 0} → Builder V Q → (R → List (SqlError ⊎ ℕ)) → Bool → D → (ℕ → Option V) → Run D ℕ
  unfolding count_query
  count_of b read there d where' = count_query read there d (b.build_count where')
