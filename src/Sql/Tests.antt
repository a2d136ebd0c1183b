-- ===== src/Sql/Tests.antt =====
-- A squirrel that keeps what it is given, concrete rows, and the theorems about statements and scans
-- applied to them.
use eins.Prelude.{ℕ, ◌≡◌, refl, true, Option, none, some, List, [], ◌∷◌, ◌⊎◌, inl, inr, ℕ_discrete}
use mathlib.Core.List.{Permᴰ}
use eins.Sql.{Entries, Value, uints, string, other, Squirrel, Operators}
use eins.Sql.Select.{limit_key, orderby_key, conditions, part, build_select}
use eins.Sql.Select.Order.{IsSelector, build_select-Perm}
use eins.Sql.Scanner.{close_failed, ScanError, Source, a_slice, a_value}

record Selector : Type 0 where
  limit : Option ℕ
  offset : Option ℕ
  orders : List ℕ
  havings : List ℕ
  groups : List ℕ
  conditions : List ℕ

abbrev Statement : Type 0
Statement = Selector ⊎ (List ℕ × List (List (Option ℕ)))

abbrev keeping : Squirrel Selector (List ℕ × List (List (Option ℕ))) ℕ ℕ Statement
keeping = record {
  select = λ fields table. record {
    limit = none;
    offset = none;
    orders = [];
    havings = [];
    groups = [];
    conditions = [];
  };
  limit = λ s n. record s { limit = some n };
  offset = λ s n. record s { offset = some n };
  order_by = λ s x. record s { orders = x ∷ s.orders };
  having = λ s x. record s { havings = x ∷ s.havings };
  group_by = λ s x. record s { groups = x ∷ s.groups };
  add_condition = λ s o. record s { conditions = o ∷ s.conditions };
  select_sql = λ s. inr (inl s);
  insert_into = λ table. ([], []);
  replace_into = λ table. ([], []);
  columns = λ i cs. (cs, i.1);
  add_values = λ i row. (i.0, row ∷ i.1);
  set_map = λ i es. i;
  on_duplicate = λ i ks vs. i;
  insert_sql = λ i. inr (inr i);
  update_sql = λ table es fs. inr (inr ([], []));
  delete_sql = λ table es. inr (inr ([], []));
  empty_query = inr ([], []);
}

keeping-IsSelector : IsSelector keeping
keeping-IsSelector = record {
  limit_order_by = λ s x y. refl;
  limit_having = λ s x y. refl;
  limit_group_by = λ s x y. refl;
  offset_order_by = λ s x y. refl;
  offset_having = λ s x y. refl;
  offset_group_by = λ s x y. refl;
  order_by_having = λ s x y. refl;
  order_by_group_by = λ s x y. refl;
  having_group_by = λ s x y. refl;
}

abbrev equals : Operators ℕ ℕ
equals = record {
  split_key = λ k. ((k, 0), none);
  is_operator = λ o. true;
  make_condition = λ field operator v. inr field;
}

abbrev same_order : Entries (Value ℕ) → Entries (Value ℕ)
same_order es = es

abbrev limit_first : Entries (Value ℕ)
limit_first = (limit_key, uints (10 ∷ 20 ∷ [])) ∷ (orderby_key, string 7) ∷ (9, other 5) ∷ []

abbrev order_first : Entries (Value ℕ)
order_first = (orderby_key, string 7) ∷ (limit_key, uints (10 ∷ 20 ∷ [])) ∷ (9, other 5) ∷ []

build_select-Perm_example :
    build_select keeping equals same_order 1 limit_first []
    ≡ build_select keeping equals same_order 1 order_first []
unfolding conditions ℕ_discrete part
build_select-Perm_example =
    build_select-Perm keeping equals keeping-IsSelector same_order same_order 1 limit_first
      order_first [] (Permᴰ.swap refl refl) refl refl refl

abbrev row : Entries ℕ
row = (3, 30) ∷ (4, 40) ∷ []

abbrev overwrite : Source ℕ → List ℕ → Option ℕ × List ℕ
overwrite (a_slice xs) c = (none, xs)
overwrite (a_value b) c = (some 8, c)

abbrev closing_error : Option ℕ → Option ScanError
closing_error none = none
closing_error (some e) = some (close_failed e)
