-- ===== src/Log.antt =====
-- onelog/onelog.go: the default logger, and the fields that a context's logger is given.
use eins.Prelude.{
  ℕ, Bool, true, ◌||◌, Option, none, some, List, [], ◌∷◌, ◌++◌, length, take, if◌then◌else◌,
}
use eins.Prelude.Int.{ℤ, pos, ltb_ℤ, eqb_ℤ, pos_part}
use eins.Env.{Environment, is_prod}

pub data Level : Type 0 where
  debug_level info_level other_level : Level

-- The value of a field of a log line: a text, texts, numbers, bytes, an error, or anything else.
pub data Field : Type 0 where
  text bytes : List ℕ → Field
  texts : List (List ℕ) → Field
  int64 : ℤ → Field
  int64s : List ℤ → Field
  error any : ℕ → Field

-- `zerolog.Logger`: its level, and its fields with the newest last.
pub record Logger : Type 0 where
  pub level : Level
  pub fields : List (ℕ × Field)

-- What the package holds: whether `_once` is done, and `defaultLogger`.
pub record Package : Type 0 where
  pub once : Bool
  pub default_logger : Option Logger

abbrev app_field : ℕ
app_field = 0

abbrev env_field : ℕ
env_field = 1

-- `Init`, which never fails; only its first call counts.
unfoldable pub init : Package → Environment → Package
init p cfg = if p.once then p else record {
  once = true;
  default_logger = some (record {
    level = if is_prod cfg then info_level else debug_level;
    fields = (app_field, text (cfg.app ∷ [])) ∷ (env_field, text (cfg.env ∷ [])) ∷ [];
  });
}

-- `Level`, and the functions that add a field: the logger of the new context.
abbrev with_level : Logger → Level → Logger
with_level l lvl = record l { level = lvl }

abbrev pub with_field : Logger → ℕ → Field → Logger
with_field l key v = record l { fields = l.fields ++ (key, v) ∷ [] }

abbrev str : Logger → ℕ → List ℕ → Logger
str l key val = with_field l key (text val)

abbrev strs : Logger → ℕ → List (List ℕ) → Logger
strs l key val = with_field l key (texts val)

abbrev int64_field : Logger → ℕ → ℤ → Logger
int64_field l key val = with_field l key (int64 val)

abbrev int64s_field : Logger → ℕ → List ℤ → Logger
int64s_field l key val = with_field l key (int64s val)

abbrev bytes_field : Logger → ℕ → List ℕ → Logger
bytes_field l key val = with_field l key (bytes val)

abbrev any_field : Logger → ℕ → ℕ → Logger
any_field l key val = with_field l key (any val)

abbrev err_field : Logger → ℕ → ℕ → Logger
err_field l key val = with_field l key (error val)

-- The test of both functions with a size.
abbrev pub short : List ℕ → ℤ → Bool
short val max_size = eqb_ℤ max_size (pos 0) || ltb_ℤ (pos (length val)) max_size

-- `StrWithSize`; `none` is the panic of a slice up to a negative bound.
unfoldable pub str_with_size : Logger → ℕ → List ℕ → ℤ → Option Logger
str_with_size l key val max_size =
    if short val max_size
    then some (with_field l key (text val))
    else if ltb_ℤ max_size (pos 0)
    then none
    else some (with_field l key (text (take (pos_part max_size) val)))

-- `BytesWithSize`.
unfoldable pub bytes_with_size : Logger → ℕ → List ℕ → ℤ → Logger
bytes_with_size l key val max_size = if short val max_size then with_field l key (bytes val) else l
