-- ===== src/Sql.antt =====
-- onesql/builder.go: what the builder of statements uses of squirrel and sqlutils, which are parameters,
-- with the statements that it only hands over. Names and texts are known by numbers.
pub mod Select
pub mod Insert
pub mod Scanner
pub mod Connections
mod Tests
use eins.Prelude.{ℕ, Bool, Option, List, [], ◌∷◌, ◌⊎◌, inl, inr}

-- A Go map, as its entries in the order in which they come up.
abbrev pub Entries : Type 0 → Type 0
Entries V = List (ℕ × V)

-- The dynamic types of a value in `where` that `buildSelect` tells apart.
pub data Value (V : Type 0) : Type 0 where
  uints : List ℕ → Value V
  string : ℕ → Value V
  other : V → Value V

-- Errors: the two of the builder, with those of the libraries.
pub data BuildError : Type 0 where
  invalid_limit unsupported_operator : BuildError
  library_error : ℕ → BuildError

-- `sq.SelectBuilder` and `sq.InsertBuilder` are `S` and `I`, a condition is an `O`, a statement with its
-- values a `Q`. The fields to select are joined; none are `*`.
pub record Squirrel (S I O V Q : Type 0) : Type 0 where
  pub select : Option (List ℕ) → ℕ → S
  pub limit : S → ℕ → S
  pub offset : S → ℕ → S
  pub order_by : S → ℕ → S
  pub having : S → ℕ → S
  pub group_by : S → ℕ → S
  pub add_condition : S → O → S
  pub select_sql : S → BuildError ⊎ Q
  pub insert_into : ℕ → I
  pub replace_into : ℕ → I
  pub columns : I → List ℕ → I
  pub add_values : I → List (Option V) → I
  pub set_map : I → Entries V → I
  pub on_duplicate : I → List ℕ → List V → I
  pub insert_sql : I → BuildError ⊎ Q
  pub update_sql : ℕ → Entries V → Entries V → BuildError ⊎ Q
  pub delete_sql : ℕ → Entries V → BuildError ⊎ Q
  pub empty_query : Q

-- What the builder uses of sqlutils: a key as its field and operator, the operators of `OpOrder`, and
-- the condition that `OpOp` makes.
pub record Operators (V O : Type 0) : Type 0 where
  pub split_key : ℕ → (ℕ × ℕ) × Option BuildError
  pub is_operator : ℕ → Bool
  pub make_condition : ℕ → ℕ → Value V → BuildError ⊎ O

module _ {S I O V Q : Type 0} (sq : Squirrel S I O V Q) where
  -- `BuildUpdate`.
  unfoldable build_update : ℕ → Entries V → Entries V → BuildError ⊎ Q
  build_update table where' update = sq.update_sql table update where'

  -- `BuildDelete`.
  unfoldable build_delete : ℕ → Entries V → BuildError ⊎ Q
  build_delete table where' = sq.delete_sql table where'
