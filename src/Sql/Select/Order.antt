-- ===== src/Sql/Select/Order.antt =====
-- onesql/builder.go: the order in which a Go map comes up does not matter to the clauses of `buildSelect`.
use eins.Prelude.{
  ℕ, ◌≡◌, refl, sym, ap, subst, ◌∙◌, Bool, true, false, ◌&&◌, ◌||◌, not, List, [], ◌∷◌, arith, ◌==◌,
  ==_iff,
}
use eins.Prelude.Ending.{Ending, returns, fails, panics, bind_same}
use eins.Sql.{Entries, Value, uints, string, other, BuildError, Squirrel, Operators}
use eins.Sql.Select.{
  Clause, limit_clause, orderby_clause, having_clause, groupby_clause, condition, clause_of, Part,
  limit_to, page, ordered, having_text, grouped, no_part, part, conditions, set_part, set_clauses,
  fields_of, build_select,
}
use mathlib.Core.List.{Permᴰ}

abbrev pub has_key : {V : Type 0} → ℕ → Entries V → Bool
has_key j [] = false
has_key j ((k, v) ∷ es) = (k == j) || has_key j es

-- No key comes up twice, as in a Go map.
abbrev pub distinct : {V : Type 0} → Entries V → Bool
distinct [] = true
distinct ((k, v) ∷ es) = not (has_key k es) && distinct es

-- What the documentation of squirrel says of a selector: its parts are set apart from each other.
pub record IsSelector {S I O V Q : Type 0} (sq : Squirrel S I O V Q) : Type 0 where
  pub limit_order_by :
      (s : S) (x y : ℕ) → sq.order_by (sq.limit s x) y ≡ sq.limit (sq.order_by s y) x
  pub limit_having : (s : S) (x y : ℕ) → sq.having (sq.limit s x) y ≡ sq.limit (sq.having s y) x
  pub limit_group_by :
      (s : S) (x y : ℕ) → sq.group_by (sq.limit s x) y ≡ sq.limit (sq.group_by s y) x
  pub offset_order_by :
      (s : S) (x y : ℕ) → sq.order_by (sq.offset s x) y ≡ sq.offset (sq.order_by s y) x
  pub offset_having : (s : S) (x y : ℕ) → sq.having (sq.offset s x) y ≡ sq.offset (sq.having s y) x
  pub offset_group_by :
      (s : S) (x y : ℕ) → sq.group_by (sq.offset s x) y ≡ sq.offset (sq.group_by s y) x
  pub order_by_having :
      (s : S) (x y : ℕ) → sq.having (sq.order_by s x) y ≡ sq.order_by (sq.having s y) x
  pub order_by_group_by :
      (s : S) (x y : ℕ) → sq.group_by (sq.order_by s x) y ≡ sq.order_by (sq.group_by s y) x
  pub having_group_by :
      (s : S) (x y : ℕ) → sq.group_by (sq.having s x) y ≡ sq.having (sq.group_by s y) x

-- A value has the type that its clause asserts, and a limit has one number or two.
abbrev pub is_part : Ending BuildError Part → Bool
is_part (returns p) = true
is_part (fails e) = false
is_part panics = false

abbrev pub fits : {V : Type 0} → Entries (Value V) → Bool
fits [] = true
fits ((k, v) ∷ es) = is_part (part (clause_of k) v) && fits es

abbrev clause_of_part : Part → Clause
clause_of_part (limit_to _) = limit_clause
clause_of_part (page _ _) = limit_clause
clause_of_part (ordered _) = orderby_clause
clause_of_part (having_text _) = having_clause
clause_of_part (grouped _) = groupby_clause
clause_of_part no_part = condition

same_clause : (j k : ℕ) → (j == k) ≡ false → clause_of j ≡ clause_of k → clause_of j ≡ condition
same_clause j k apart e = ground (arith, ==_iff j k)

part-returns : (m : Ending BuildError Part) → is_part m ≡ true → (p : Part) × (m ≡ returns p)
part-returns (returns p) e = (p, refl)
part-returns (fails x) e = ground arith
part-returns panics e = ground arith

module _ {V : Type 0} where
  Perm-has_key : {a b : Entries V} (j : ℕ) → Permᴰ a b → has_key j a ≡ has_key j b
  Perm-has_key j Permᴰ.nil = refl
  Perm-has_key j (Permᴰ.cons e p) = ground (arith, Perm-has_key j p)
  Perm-has_key j (Permᴰ.swap e f) = ground arith
  Perm-has_key j (Permᴰ.trans p q) = Perm-has_key j p ∙ Perm-has_key j q

  part-clause : (c : Clause) (v : Value V) (p : Part) → part c v ≡ returns p → clause_of_part p ≡ c
  unfolding part
  part-clause limit_clause (uints []) p e = ground arith
  part-clause limit_clause (uints (n ∷ [])) p e = ground arith
  part-clause limit_clause (uints (o ∷ n ∷ [])) p e = ground arith
  part-clause limit_clause (uints (o ∷ n ∷ m ∷ ms)) p e = ground arith
  part-clause limit_clause (string s) p e = ground arith
  part-clause limit_clause (other v) p e = ground arith
  part-clause orderby_clause (uints ns) p e = ground arith
  part-clause orderby_clause (string s) p e = ground arith
  part-clause orderby_clause (other v) p e = ground arith
  part-clause having_clause (uints ns) p e = ground arith
  part-clause having_clause (string s) p e = ground arith
  part-clause having_clause (other v) p e = ground arith
  part-clause groupby_clause (uints ns) p e = ground arith
  part-clause groupby_clause (string s) p e = ground arith
  part-clause groupby_clause (other v) p e = ground arith
  part-clause condition (uints ns) p e = ground arith
  part-clause condition (string s) p e = ground arith
  part-clause condition (other v) p e = ground arith

  Perm-distinct : {a b : Entries V} → Permᴰ a b → distinct a ≡ distinct b
  Perm-distinct Permᴰ.nil = refl
  Perm-distinct (Permᴰ.cons {a = (k, v)} {b = (j, w)} {l₁ = l} e p) =
      ground (arith, Perm-distinct p, Perm-has_key k p)
  Perm-distinct (Permᴰ.swap {a = (k, v)} {b = (j, w)} e f) = ground (arith, ==_iff k j, ==_iff j k)
  Perm-distinct (Permᴰ.trans p q) = Perm-distinct p ∙ Perm-distinct q

module _ {S I O V Q : Type 0} (sq : Squirrel S I O V Q) (ops : Operators V O)
    (laws : IsSelector sq) where
  Perm-fits : {a b : Entries (Value V)} → Permᴰ a b → fits a ≡ fits b
  Perm-fits Permᴰ.nil = refl
  Perm-fits (Permᴰ.cons e p) = ground (arith, Perm-fits p)
  Perm-fits (Permᴰ.swap e f) = ground arith
  Perm-fits (Permᴰ.trans p q) = Perm-fits p ∙ Perm-fits q

  -- Two parts of different clauses may be set in either order.
  set_part-swap :
      (s : S) (p q : Part)
      → (clause_of_part p ≡ clause_of_part q → clause_of_part p ≡ condition)
      → set_part sq ops (set_part sq ops s p) q ≡ set_part sq ops (set_part sq ops s q) p
  unfolding set_part
  set_part-swap s (limit_to n) (limit_to n2) apart = ground (arith, apart refl)
  set_part-swap s (limit_to n) (page o2 n2) apart = ground (arith, apart refl)
  set_part-swap s (limit_to n) (ordered x2) apart = laws.limit_order_by s n x2
  set_part-swap s (limit_to n) (having_text x2) apart = laws.limit_having s n x2
  set_part-swap s (limit_to n) (grouped x2) apart = laws.limit_group_by s n x2
  set_part-swap s (limit_to n) no_part apart = refl
  set_part-swap s (page o n) (limit_to n2) apart = ground (arith, apart refl)
  set_part-swap s (page o n) (page o2 n2) apart = ground (arith, apart refl)
  set_part-swap s (page o n) (ordered x2) apart =
      rw (laws.offset_order_by (sq.limit s n) o x2, laws.limit_order_by s n x2) refl
  set_part-swap s (page o n) (having_text x2) apart =
      rw (laws.offset_having (sq.limit s n) o x2, laws.limit_having s n x2) refl
  set_part-swap s (page o n) (grouped x2) apart =
      rw (laws.offset_group_by (sq.limit s n) o x2, laws.limit_group_by s n x2) refl
  set_part-swap s (page o n) no_part apart = refl
  set_part-swap s (ordered x) (limit_to n2) apart = sym (laws.limit_order_by s n2 x)
  set_part-swap s (ordered x) (page o2 n2) apart =
      rw (laws.offset_order_by (sq.limit s n2) o2 x, laws.limit_order_by s n2 x) refl
  set_part-swap s (ordered x) (ordered x2) apart = ground (arith, apart refl)
  set_part-swap s (ordered x) (having_text x2) apart = laws.order_by_having s x x2
  set_part-swap s (ordered x) (grouped x2) apart = laws.order_by_group_by s x x2
  set_part-swap s (ordered x) no_part apart = refl
  set_part-swap s (having_text x) (limit_to n2) apart = sym (laws.limit_having s n2 x)
  set_part-swap s (having_text x) (page o2 n2) apart =
      rw (laws.offset_having (sq.limit s n2) o2 x, laws.limit_having s n2 x) refl
  set_part-swap s (having_text x) (ordered x2) apart = sym (laws.order_by_having s x2 x)
  set_part-swap s (having_text x) (having_text x2) apart = ground (arith, apart refl)
  set_part-swap s (having_text x) (grouped x2) apart = laws.having_group_by s x x2
  set_part-swap s (having_text x) no_part apart = refl
  set_part-swap s (grouped x) (limit_to n2) apart = sym (laws.limit_group_by s n2 x)
  set_part-swap s (grouped x) (page o2 n2) apart =
      rw (laws.offset_group_by (sq.limit s n2) o2 x, laws.limit_group_by s n2 x) refl
  set_part-swap s (grouped x) (ordered x2) apart = sym (laws.order_by_group_by s x2 x)
  set_part-swap s (grouped x) (having_text x2) apart = sym (laws.having_group_by s x2 x)
  set_part-swap s (grouped x) (grouped x2) apart = ground (arith, apart refl)
  set_part-swap s (grouped x) no_part apart = refl
  set_part-swap s no_part (limit_to n2) apart = refl
  set_part-swap s no_part (page o2 n2) apart = refl
  set_part-swap s no_part (ordered x2) apart = refl
  set_part-swap s no_part (having_text x2) apart = refl
  set_part-swap s no_part (grouped x2) apart = refl
  set_part-swap s no_part no_part apart = refl

  set_clauses-swap :
      (s : S) (j k : ℕ) (v w : Value V) (es : Entries (Value V))
      → (j == k) ≡ false
      → is_part (part (clause_of j) v) ≡ true
      → is_part (part (clause_of k) w) ≡ true
      → set_clauses sq ops s ((j, v) ∷ (k, w) ∷ es) ≡ set_clauses sq ops s ((k, w) ∷ (j, v) ∷ es)
  unfolding set_clauses
  set_clauses-swap s j k v w es apart fit fit' =
      let (p, e) = part-returns (part (clause_of j) v) fit in
      let (q, e') = part-returns (part (clause_of k) w) fit' in
      let both : clause_of_part p ≡ clause_of_part q → clause_of_part p ≡ condition = λ h.
        part-clause (clause_of j) v p e
        ∙ same_clause j k apart
            (sym (part-clause (clause_of j) v p e) ∙ h ∙ part-clause (clause_of k) w q e') in
      rw (e, e', set_part-swap s p q both) refl

  set_clauses-Perm :
      {a b : Entries (Value V)} (s : S)
      → Permᴰ a b
      → distinct a ≡ true
      → fits a ≡ true
      → set_clauses sq ops s a ≡ set_clauses sq ops s b
  unfolding set_clauses
  set_clauses-Perm s Permᴰ.nil d f = refl
  set_clauses-Perm s (Permᴰ.cons {a = (k, v)} {b = (j, w)} {l₁ = l} {l₂ = l'} e p) d f =
      subst (λ (x : ℕ × Value V). set_clauses sq ops s ((k, v) ∷ l) ≡ set_clauses sq ops s (x ∷ l'))
        e
        (bind_same (part (clause_of k) v) _ _
          λ r er. set_clauses-Perm (set_part sq ops s r) p (ground arith) (ground arith))
  set_clauses-Perm s (Permᴰ.swap {a = (k, v)} {b = (j, w)} {a' = a'} {b' = b'} {l = l} e e') d f =
      set_clauses-swap s k j v w l (ground arith) (ground arith) (ground arith)
      ∙ ap (λ (x : ℕ × Value V). set_clauses sq ops s ((j, w) ∷ x ∷ l)) e
      ∙ ap (λ (x : ℕ × Value V). set_clauses sq ops s (x ∷ b' ∷ l)) e'
  set_clauses-Perm s (Permᴰ.trans p q) d f =
      set_clauses-Perm s p d f
      ∙ set_clauses-Perm s q (sym (Perm-distinct p) ∙ d) (sym (Perm-fits p) ∙ f)

  -- Two maps with the same entries give the same statement, in whatever order their entries come up, if
  -- the values of the clauses have the types that the code asserts, a limit one number or two, squirrel
  -- sets the parts of a selector apart, and the other conditions come up in the same order.
  pub build_select-Perm :
      (order order' : Entries (Value V) → Entries (Value V)) (table : ℕ) (a b : Entries (Value V))
      (fields : List ℕ)
      → Permᴰ a b
      → distinct a ≡ true
      → fits a ≡ true
      → order (conditions a) ≡ order' (conditions b)
      → build_select sq ops order table a fields ≡ build_select sq ops order' table b fields
  unfolding build_select
  build_select-Perm order order' table a b fields p d f same =
      rw (same, set_clauses-Perm (sq.select (fields_of sq ops fields) table) p d f) refl
