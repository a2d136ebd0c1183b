-- ===== src/Sql/Scanner/Scans.antt =====
-- onesql/scanner.go: what a scan leaves in its target, what it closes, and what is left of bytes.
use eins.Prelude.{
  ℕ, ◌≡◌, refl, not, Bool, true, false, ◌&&◌, Option, some, List, [], ◌∷◌, map, arith, ◌⊎◌, inr,
}
use eins.Prelude.Ending.{Ending, returns, fails, panics, ◌>>=◌, of_error}
use eins.Sql.{Entries}
use eins.Sql.Insert.{columns_of}
use eins.Sql.Scanner.{
  Bound, pointer, ScanTarget, ScanError, Source, scan, close_after, scan_close, Cell, raw, text,
  int, float, any, Numbers, decode_cell, decode_row, decode_rows,
}

-- Rows that are bound to pointers to the values.
abbrev pub pointers : {A : Type 0} → List A → List (ℕ ⊎ Bound A)
pointers [] = []
pointers (a ∷ rest) = inr (pointer a) ∷ pointers rest

abbrev pub closes_of : {B : Type 0} → Ending ScanError B → ℕ
closes_of panics = 0
closes_of (returns b) = 1
closes_of (fails e) = 1

bind-unit : (m : Ending ScanError (Unit {0})) → (m >>= λ (ok : Unit {0}). returns ok) ≡ m
bind-unit (returns ok) = refl
bind-unit (fails e) = refl
bind-unit panics = refl

module _ {A T : Type 0} (mirroring : Source A → T → Option ℕ × T)
    (close_error : Option ℕ → Option ScanError) where
  close_after_lem :
      (m : Ending ScanError (Unit {0})) (closing : Option ℕ)
      → let r = close_after close_error m true closing in
        (r.closes ≡ closes_of m) × (r.ending ≡ (m >>= λ ok. of_error (close_error closing)))
  unfolding close_after
  close_after_lem panics closing = (refl, refl)
  close_after_lem (fails e) closing = (refl, refl)
  close_after_lem (returns ok) closing = (refl, bind-unit (of_error (close_error closing)))

  -- `ScanClose` of rows that are not nil closes them once whatever `Scan` returns, and not if it panics;
  -- it returns the error of `Scan`, or if there is none that of closing.
  scan_close_closes :
      (target : ScanTarget) (has_bind : Bool) (rows : List (ℕ ⊎ Bound A)) (closing : Option ℕ)
      (c : T)
      → let ending = (scan mirroring target has_bind (some rows) c).0 in
        let r = (scan_close mirroring close_error target has_bind (some rows) closing c).0 in
        (r.closes ≡ closes_of ending)
        × (r.ending ≡ (ending >>= λ ok. of_error (close_error closing)))
  unfolding scan_close
  scan_close_closes target has_bind rows closing c =
      close_after_lem (scan mirroring target has_bind (some rows) c).0 closing

module _ {B F V : Type 0} where
  -- Bytes, as they come from the database.
  abbrev is_raw : Cell B F V → Bool
  is_raw (raw s) = true
  is_raw (text s) = false
  is_raw (int n) = false
  is_raw (float x) = false
  is_raw (any v) = false

  abbrev row_decoded : Entries (Cell B F V) → Bool
  row_decoded [] = true
  row_decoded ((k, v) ∷ es) = not (is_raw v) && row_decoded es

  abbrev pub rows_decoded : List (Entries (Cell B F V)) → Bool
  rows_decoded [] = true
  rows_decoded (d ∷ ds) = row_decoded d && rows_decoded ds

module _ {B F V : Type 0} (numbers : Numbers B F) where
  decode_cell-raw : (v : Cell B F V) → is_raw (decode_cell numbers v) ≡ false
  unfolding decode_cell
  decode_cell-raw (raw s) = ground arith
  decode_cell-raw (text s) = refl
  decode_cell-raw (int n) = refl
  decode_cell-raw (float x) = refl
  decode_cell-raw (any v) = refl

  decode_row-decoded : (d : Entries (Cell B F V)) → row_decoded (decode_row numbers d) ≡ true
  unfolding decode_row
  decode_row-decoded [] = refl
  decode_row-decoded ((k, v) ∷ es) = ground (arith, decode_cell-raw v, decode_row-decoded es)

  decode_row-columns : (d : Entries (Cell B F V)) → columns_of (decode_row numbers d) ≡ columns_of d
  unfolding decode_row
  decode_row-columns [] = refl
  decode_row-columns ((k, v) ∷ es) = ground (arith, decode_row-columns es)

  -- `ScanMapDecode` leaves no bytes in any row, and each row has the columns that it had.
  decode_rows-decoded :
      (ds : List (Entries (Cell B F V)))
      → (rows_decoded (decode_rows numbers ds) ≡ true)
        × (map (λ (d : Entries (Cell B F V)). columns_of d) (decode_rows numbers ds)
            ≡ map (λ (d : Entries (Cell B F V)). columns_of d) ds)
  unfolding decode_rows
  decode_rows-decoded [] = (refl, refl)
  decode_rows-decoded (d ∷ ds) =
      ground (arith, decode_row-decoded d, decode_row-columns d, decode_rows-decoded ds)
