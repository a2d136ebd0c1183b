-- ===== src/Dao/Rows.antt =====
-- onesql/dao.go: what becomes of the rows and the results that a driver returns.
use eins.Prelude.{ℕ, ◌≡◌, refl, Bool, true, false, Option, none, some, arith, ◌⊎◌, inr, List}
use eins.Prelude.Ending.{Ending, returns, fails, panics}
use eins.Dao.{
  SqlError, Driver, Builder, scanned, close_rows, scan_rows, complex_query, select_one,
  select_multi, one_row, inserted, run_insert, insert, affected, complex_exec, delete, counted,
  count_query, count_of,
}

module _ {D Q R X A V : Type 0} (w : Driver D Q R X) (b : Builder V Q) where
  scan_rows_closes :
      (zero_value : A) (scan : R → Option (A × Option SqlError)) (d : D) (err : Option SqlError)
      (rows : Option R)
      → let t = scan_rows w zero_value scan d err rows in t.opens ≡ t.closes
  unfolding scan_rows scanned close_rows
  scan_rows_closes zero_value scan d (some e) rows = refl
  scan_rows_closes zero_value scan d none none = refl
  scan_rows_closes zero_value scan d none (some r) = ground arith

  complex_query_closes :
      (zero_value : A) (scan : R → Option (A × Option SqlError)) (there : Bool) (d : D)
      (q : Ending SqlError Q)
      → let t = complex_query w zero_value scan there d q in t.opens ≡ t.closes
  unfolding complex_query
  complex_query_closes zero_value scan false d q = refl
  complex_query_closes zero_value scan true d (fails e) = refl
  complex_query_closes zero_value scan true d panics = refl
  complex_query_closes zero_value scan true d (returns q) =
      let r = w.query d q in scan_rows_closes zero_value scan r.1 r.0.0 r.0.1

  -- `SelectOne` and `SelectMulti` close the rows that they get, also if the scanner panics.
  select_closes :
      (zero_value : A) (scan : R → Option (A × Option SqlError)) (there : Bool) (d : D)
      (where' : ℕ → Option V)
      → let one = select_one w zero_value b scan there d where' in
        let multi = select_multi w zero_value b scan there d where' in
        (one.opens ≡ one.closes) × (multi.opens ≡ multi.closes)
  unfolding select_one select_multi
  select_closes zero_value scan there d where' = ground (
    arith,
    complex_query_closes zero_value scan true d (b.build_select (one_row b where')),
    complex_query_closes zero_value scan true d (b.build_select where'),
  )

module _ {D Q R X V : Type 0} (w : Driver D Q R X) (b : Builder V Q) where
  -- If the driver returns rows for the statement of `CountOf`, it leaves them open, where a driver that
  -- returns neither rows nor an error makes it panic.
  count_of_untidy :
      (read : R → List (SqlError ⊎ ℕ)) (d e : D) (where' : ℕ → Option V) {q : Q} (rows : Option R)
      → b.build_count where' ≡ inr q
      → w.query d q ≡ ((none, rows), e)
      → let t = count_of w b read true d where' in
        ((t.opens ≡ 1) × (t.closes ≡ 0)) ⊎ ((rows ≡ none) × (t.panics ≡ true))
  unfolding count_of count_query counted
  count_of_untidy read d e where' none built answer = ground arith
  count_of_untidy read d e where' (some r) built answer = ground arith

  -- If the driver returns neither a result nor an error, `Insert` returns 0 and no error, and `Delete`
  -- panics.
  nil_result :
      (d e : D) (rows : List (ℕ → Option V)) (where' : ℕ → Option V) {q p : Q}
      → b.build_insert rows ≡ inr q
      → b.build_delete where' ≡ inr p
      → w.exec d q ≡ ((none, none), e)
      → w.exec d p ≡ ((none, none), e)
      → let i = insert w b true d rows in
        (i.value ≡ 0)
        × (i.error ≡ none)
        × (i.panics ≡ false)
        × ((delete w b true d where').panics ≡ true)
  unfolding insert run_insert inserted delete complex_exec affected
  nil_result d e rows where' built removed answer answer' = ground arith
