-- ===== src/Sql/Scanner.antt =====
-- onesql/scanner.go: `fastScanner`. The rows are what the binding function makes of them, in their order;
-- `Mirroring` of xreflect and the functions of sqlutils are parameters.
pub mod Scans
use eins.Prelude.{
  ℕ, suc, ◌≡◌, ◌≤◌, refl, Bool, true, false, Option, none, some, List, [], ◌∷◌, ◌++◌, map, length,
  arith, ◌⊎◌, inl, inr, if◌then◌else◌,
}
use eins.Prelude.Int.{ℤ}
use eins.Sql.{Entries}
use eins.Prelude.Ending.{Ending, returns, fails, panics, ◌>>=◌, of_error}

-- What the binding function returns for a row: a nil interface, a pointer to a value, or a value.
pub data Bound (A : Type 0) : Type 0 where
  nil_value : Bound A
  pointer : A → Bound A
  plain : A → Bound A

-- The target of `Scan`. `plain_value` is of a kind that is never nil, `reference` of another kind that is
-- not a pointer and not nil.
pub data ScanTarget : Type 0 where
  nil_target nil_pointer plain_value reference slice_pointer value_pointer : ScanTarget

pub data ScanError : Type 0 where
  not_settable nil_function empty_result : ScanError
  bind_failed mirror_failed close_failed : ℕ → ScanError

-- What is mirrored into the target: a slice, or a value that is not nil.
pub data Source (A : Type 0) : Type 0 where
  a_slice : List A → Source A
  a_value : Bound A → Source A

module _ {A : Type 0} where
  abbrev of_bind : ℕ ⊎ Bound A → Ending ScanError (Bound A)
  of_bind (inl e) = fails (bind_failed e)
  of_bind (inr b) = returns b

  -- `reflect.ValueOf(r).Elem()`, which panics on anything but a pointer.
  unfoldable pub elem_of : Bound A → Ending ScanError A
  elem_of nil_value = panics
  elem_of (pointer a) = returns a
  elem_of (plain a) = panics

  -- The loop for a slice, with what it has appended so far.
  unfoldable pub collect : List A → List (ℕ ⊎ Bound A) → Ending ScanError (List A)
  unfolding elem_of
  collect done [] = returns done
  collect done (r ∷ rs) = do b ← of_bind r; a ← elem_of b; collect (done ++ (a ∷ [])) rs

  unfoldable pub found : Bound A → Ending ScanError (Source A)
  found nil_value = fails empty_result
  found (pointer a) = returns (a_value (pointer a))
  found (plain a) = returns (a_value (plain a))

  -- The loop for any other target, which returns on the first row.
  unfoldable pub first_row : List (ℕ ⊎ Bound A) → Ending ScanError (Source A)
  unfolding found
  first_row [] = fails empty_result
  first_row (r ∷ rs) = do b ← of_bind r; found b

  -- The branches of `Scan` after its checks; nil rows panic at `Next`.
  unfoldable pub source_of : Bool → Option (List (ℕ ⊎ Bound A)) → Ending ScanError (Source A)
  unfolding collect first_row
  source_of is_slice none = panics
  source_of true (some rows) = do xs ← collect [] rows; returns (a_slice xs)
  source_of false (some rows) = first_row rows

module _ {A T : Type 0} (mirroring : Source A → T → Option ℕ × T) where
  abbrev of_mirroring : Option ℕ → Ending ScanError (Unit {0})
  of_mirroring none = returns tt
  of_mirroring (some e) = fails (mirror_failed e)

  -- How `Scan` ends, and what the target then holds.
  unfoldable pub mirrored : Ending ScanError (Source A) → T → Ending ScanError (Unit {0}) × T
  mirrored (fails e) c = (fails e, c)
  mirrored panics c = (panics, c)
  mirrored (returns s) c = (of_mirroring (mirroring s c).0, (mirroring s c).1)

  -- `Scan`: `IsNil` panics on a value that is never nil, before the kind is looked at.
  unfoldable pub scan :
      ScanTarget → Bool → Option (List (ℕ ⊎ Bound A)) → T → Ending ScanError (Unit {0}) × T
  unfolding source_of mirrored
  scan nil_target has_bind rows c = (fails not_settable, c)
  scan nil_pointer has_bind rows c = (fails not_settable, c)
  scan plain_value has_bind rows c = (panics, c)
  scan reference has_bind rows c = (fails not_settable, c)
  scan slice_pointer has_bind rows c =
      if has_bind then mirrored (source_of true rows) c else (fails nil_function, c)
  scan value_pointer has_bind rows c =
      if has_bind then mirrored (source_of false rows) c else (fails nil_function, c)

-- How an operation that closes the rows ends, the value that it returns also beside an error of closing,
-- and how often it has closed the rows.
pub record Closing (B : Type 0) : Type 0 where
  pub ending : Ending ScanError B
  pub value : Option B
  pub closes : ℕ

module _ {B : Type 0} (close_error : Option ℕ → Option ScanError) where
  -- The error of closing counts if there was none before; without a `defer` a panic closes nothing.
  unfoldable pub close_after : Ending ScanError B → Bool → Option ℕ → Closing B
  close_after panics there closing = record { ending = panics; value = none; closes = 0 }
  close_after (fails e) there closing = record {
    ending = fails e;
    value = none;
    closes = if there then 1 else 0;
  }
  close_after (returns b) false closing = record { ending = returns b; value = some b; closes = 0 }
  close_after (returns b) true closing = record {
    ending = of_error (close_error closing) >>= λ ok. returns b;
    value = some b;
    closes = 1;
  }

abbrev pub is_some : {B : Type 0} → Option B → Bool
is_some none = false
is_some (some b) = true

module _ {A T : Type 0} (mirroring : Source A → T → Option ℕ × T)
    (close_error : Option ℕ → Option ScanError) where
  -- `ScanClose`. `closing` is what `rows.Close` returns.
  unfoldable pub scan_close :
      ScanTarget → Bool → Option (List (ℕ ⊎ Bound A)) → Option ℕ → T → Closing (Unit {0}) × T
  unfolding scan close_after
  scan_close target has_bind rows closing c =
      let (ending, c') = scan mirroring target has_bind rows c in
      (close_after close_error ending (is_some rows) closing, c')

-- The dynamic types of a value that `ScanMapDecode` tells apart or makes; `B` are byte strings.
pub data Cell (B F V : Type 0) : Type 0 where
  raw text : B → Cell B F V
  int : ℤ → Cell B F V
  float : F → Cell B F V
  any : V → Cell B F V

-- `strconv.Atoi` and `strconv.ParseFloat`, where a text that they refuse is `none`.
pub record Numbers (B F : Type 0) : Type 0 where
  pub atoi : B → Option ℤ
  pub parse_float : B → Option F

module _ {B F V : Type 0} (numbers : Numbers B F) where
  open numbers use {atoi, parse_float}

  abbrev or_float : Option F → B → Cell B F V
  or_float (some x) s = float x
  or_float none s = text s

  abbrev or_int : Option ℤ → B → Cell B F V
  or_int (some n) s = int n
  or_int none s = or_float (parse_float s) s

  unfoldable pub decode_cell : Cell B F V → Cell B F V
  decode_cell (raw s) = or_int (atoi s) s
  decode_cell (text s) = text s
  decode_cell (int n) = int n
  decode_cell (float x) = float x
  decode_cell (any v) = any v

  -- The loop over a row, which writes to the places that it goes through.
  unfoldable pub decode_row : Entries (Cell B F V) → Entries (Cell B F V)
  unfolding decode_cell
  decode_row [] = []
  decode_row ((k, v) ∷ es) = (k, decode_cell v) ∷ decode_row es

  unfoldable pub decode_rows : List (Entries (Cell B F V)) → List (Entries (Cell B F V))
  unfolding decode_row
  decode_rows [] = []
  decode_rows (d ∷ ds) = decode_row d ∷ decode_rows ds

  -- `ScanMapDecode`, on what `ResolveDataFromRows` returns, which is what `ScanMap` returns.
  unfoldable pub scan_map_decode :
      Ending ScanError (List (Entries (Cell B F V)))
      → Ending ScanError (List (Entries (Cell B F V)))
  unfolding decode_rows
  scan_map_decode resolved = do ds ← resolved; returns (decode_rows ds)

module _ {B F V : Type 0} (close_error : Option ℕ → Option ScanError) where
  -- `ScanMapDecodeClose` and `ScanMapClose`.
  unfoldable pub scan_map_decode_close :
      Numbers B F
      → Ending ScanError (List (Entries (Cell B F V)))
      → Bool
      → Option ℕ
      → Closing (List (Entries (Cell B F V)))
  unfolding scan_map_decode close_after
  scan_map_decode_close numbers resolved there closing =
      close_after close_error (scan_map_decode numbers resolved) there closing

  unfoldable pub scan_map_close :
      Ending ScanError (List (Entries (Cell B F V)))
      → Bool
      → Option ℕ
      → Closing (List (Entries (Cell B F V)))
  unfolding close_after
  scan_map_close resolved there closing = close_after close_error resolved there closing
