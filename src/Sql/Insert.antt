-- ===== src/Sql/Insert.antt =====
-- onesql/builder.go: `buildInsert` and what it is called by, and `BuildUpsert`. A column that a row does
-- not have is nil, here `none`.
use eins.Prelude.{ℕ, ◌≡◌, Option, none, some, List, [], ◌∷◌, if◌then◌else◌, ◌==◌, ◌⊎◌, inl, inr}
use eins.Sql.{Entries, BuildError, Squirrel}

module _ {V : Type 0} where
  abbrev pub lookup : Entries V → ℕ → Option V
  lookup [] j = none
  lookup ((k, v) ∷ es) j = if k == j then some v else lookup es j

  abbrev pub columns_of : Entries V → List ℕ
  columns_of [] = []
  columns_of ((k, v) ∷ es) = k ∷ columns_of es

  unfoldable pub values_of : Entries V → List (Option V)
  values_of [] = []
  values_of ((k, v) ∷ es) = some v ∷ values_of es

  -- The values of a row in the order of the columns.
  unfoldable pub picked : List ℕ → Entries V → List (Option V)
  picked [] d = []
  picked (k ∷ ks) d = lookup d k ∷ picked ks d

  -- The columns and the values after a row: as long as there are no columns they are those of the row.
  unfoldable pub row_of : List ℕ → Entries V → List ℕ × List (Option V)
  unfolding values_of picked
  row_of [] d = (columns_of d, values_of d)
  row_of (k ∷ ks) d = (k ∷ ks, picked (k ∷ ks) d)

  -- The loop of `buildInsert` over the rows.
  unfoldable pub table_of : List ℕ → List (Entries V) → List ℕ × List (List (Option V))
  unfolding row_of
  table_of columns [] = (columns, [])
  table_of columns (d ∷ ds) =
      let (columns', row) = row_of columns d in
      let (all, rows) = table_of columns' ds in (all, row ∷ rows)

module _ {S I O V Q : Type 0} (sq : Squirrel S I O V Q) where
  abbrev pub add_rows : I → List (List (Option V)) → I
  add_rows i [] = i
  add_rows i (row ∷ rows) = add_rows (sq.add_values i row) rows

  -- `buildInsert`.
  unfoldable pub build_rows : I → List (Entries V) → BuildError ⊎ Q
  unfolding table_of
  build_rows i ds =
      let (columns, rows) = table_of [] ds in sq.insert_sql (add_rows (sq.columns i columns) rows)

  -- `BuildInsert`.
  unfoldable pub build_insert : ℕ → List (Entries V) → BuildError ⊎ Q
  unfolding build_rows
  build_insert table ds = build_rows (sq.insert_into table) ds

  abbrev without_error : BuildError ⊎ Q → Q
  without_error (inl e) = sq.empty_query
  without_error (inr q) = q

  -- `BuildInsertIgnore` and `BuildReplaceIgnore`, which drop the error.
  unfoldable pub build_insert_ignore : ℕ → List (Entries V) → Q
  unfolding build_rows
  build_insert_ignore table ds = without_error (build_rows (sq.insert_into table) ds)

  unfoldable pub build_replace_ignore : ℕ → List (Entries V) → Q
  unfolding build_rows
  build_replace_ignore table ds = without_error (build_rows (sq.replace_into table) ds)

  abbrev plain_values : Entries V → List V
  plain_values [] = []
  plain_values ((k, v) ∷ es) = v ∷ plain_values es

  -- `BuildUpsert`. `update_order` is the order in which `data` comes up in the loop.
  unfoldable pub build_upsert : (Entries V → Entries V) → ℕ → Entries V → BuildError ⊎ Q
  build_upsert update_order table data' =
      let es = update_order data' in
      sq.insert_sql (
        sq.on_duplicate (sq.set_map (sq.insert_into table) data') (columns_of es) (plain_values es))

module _ {V : Type 0} where
  -- A row has one value for each column: what the data has under it, or nil.
  abbrev pub Fills : List ℕ → Entries V → List (Option V) → Type 0
  Fills [] d [] = Unit
  Fills (k ∷ ks) d (x ∷ xs) = (x ≡ lookup d k) × Fills ks d xs
  Fills [] d (x ∷ xs) = ⊥
  Fills (k ∷ ks) d [] = ⊥

  abbrev pub FillsAll : List ℕ → List (Entries V) → List (List (Option V)) → Type 0
  FillsAll columns [] [] = Unit
  FillsAll columns (d ∷ ds) (row ∷ rows) = Fills columns d row × FillsAll columns ds rows
  FillsAll columns [] (row ∷ rows) = ⊥
  FillsAll columns (d ∷ ds) [] = ⊥
