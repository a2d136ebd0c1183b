-- ===== src/Sql/Select.antt =====
-- onesql/builder.go: `buildSelect` and `formatWhere`. A map comes up in any order: the copy of `where` in
-- an order of its own.
pub mod Order
use eins.Prelude.{
  ℕ, ◌≡◌, ◌≢◌, refl, sym, ap, ◌∙◌, Bool, true, false, ◌||◌, not, Option, none, some, List, [], ◌∷◌,
  arith, if◌then◌else◌, ◌==◌, ==_iff,
}
use eins.Prelude.Ending.{Ending, returns, fails, panics, ◌>>=◌, of_result, of_error}
use eins.Sql.{
  Entries, Value, uints, string, other, BuildError, invalid_limit, unsupported_operator, Squirrel,
  Operators,
}
use mathlib.Core.List.{Permᴰ}

-- The names `_limit`, `_orderby`, `_having` and `_groupby`.
abbrev pub limit_key : ℕ
limit_key = 0

abbrev pub orderby_key : ℕ
orderby_key = 1

abbrev pub having_key : ℕ
having_key = 2

abbrev pub groupby_key : ℕ
groupby_key = 3

-- The cases of the switch over a key.
pub data Clause : Type 0 where
  limit_clause orderby_clause having_clause groupby_clause condition : Clause

abbrev pub clause_of : ℕ → Clause
clause_of k =
    if k == limit_key
    then limit_clause
    else if k == orderby_key
    then orderby_clause
    else if k == having_key
    then having_clause
    else if k == groupby_key
    then groupby_clause
    else condition

-- What a case calls of the selector.
pub data Part : Type 0 where
  limit_to : ℕ → Part
  page : ℕ → ℕ → Part
  ordered having_text grouped : ℕ → Part
  no_part : Part

module _ {V : Type 0} where
  -- The type assertion and the check of a case: another type panics.
  unfoldable pub part : Clause → Value V → Ending BuildError Part
  part limit_clause (uints []) = fails invalid_limit
  part limit_clause (uints (n ∷ [])) = returns (limit_to n)
  part limit_clause (uints (o ∷ n ∷ [])) = returns (page o n)
  part limit_clause (uints (o ∷ n ∷ m ∷ ms)) = fails invalid_limit
  part limit_clause (string s) = panics
  part limit_clause (other v) = panics
  part orderby_clause (string s) = returns (ordered s)
  part orderby_clause (uints ns) = panics
  part orderby_clause (other v) = panics
  part having_clause (string s) = returns (having_text s)
  part having_clause (uints ns) = panics
  part having_clause (other v) = panics
  part groupby_clause (string s) = returns (grouped s)
  part groupby_clause (uints ns) = panics
  part groupby_clause (other v) = panics
  part condition v = returns no_part

  -- `copiedWhere` after the loop.
  unfoldable pub conditions : Entries (Value V) → Entries (Value V)
  conditions [] = []
  conditions ((k, v) ∷ es) =
      let rest = conditions es in elim (clause_of k) [ condition ↦ (k, v) ∷ rest | _ ↦ rest ]

module _ {S I O V Q : Type 0} (sq : Squirrel S I O V Q) (ops : Operators V O) where
  open sq use {select, limit, offset, order_by, having, group_by, add_condition, select_sql}
  open ops use {split_key, is_operator, make_condition}

  unfoldable pub set_part : S → Part → S
  set_part s (limit_to n) = limit s n
  set_part s (page o n) = offset (limit s n) o
  set_part s (ordered x) = order_by s x
  set_part s (having_text x) = having s x
  set_part s (grouped x) = group_by s x
  set_part s no_part = s

  -- The loop over `where`.
  unfoldable pub set_clauses : S → Entries (Value V) → Ending BuildError S
  unfolding part set_part
  set_clauses s [] = returns s
  set_clauses s ((k, v) ∷ es) = do p ← part (clause_of k) v; set_clauses (set_part s p) es

  -- `formatWhere`: the operator is looked at before the error of `SplitKey`.
  unfoldable pub format_where : Entries (Value V) → S → Ending BuildError S
  format_where [] s = returns s
  format_where ((k, v) ∷ es) s =
      let ((field, operator), err) = split_key k in
      if not (is_operator operator) then fails unsupported_operator else do
        ok ← of_error err
        op ← of_result (make_condition field operator v)
        format_where es (add_condition s op)

  abbrev pub fields_of : List ℕ → Option (List ℕ)
  fields_of [] = none
  fields_of (f ∷ fs) = some (f ∷ fs)

  -- `buildSelect`, which `BuildSelect` and `BuildSelectWithContext` call.
  unfoldable pub build_select :
      (Entries (Value V) → Entries (Value V)) → ℕ → Entries (Value V) → List ℕ → Ending BuildError Q
  unfolding set_clauses conditions format_where
  build_select order table where' fields = do
    s ← set_clauses (select (fields_of fields) table) where'
    s' ← format_where (order (conditions where')) s
    of_result (select_sql s')
