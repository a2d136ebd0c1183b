-- ===== src/Governor/Middleware.antt =====
-- onegovernor/http.go: `Recover`, `Prom` and `Logger`, which wrap a handler. The name of a handler, what
-- the wrapper of chi says of the status, and a new id are parameters; an `Ignore` is a test of the request.
use eins.Prelude.{ℕ, Bool, false, ◌||◌, Option, none, some, List, [], ◌∷◌, if◌then◌else◌, ◌==◌}
use eins.Governor.{
  Response, request_id_header, write_header, set_header, request_id, text, Request, with_value,
  request_with_values,
}

-- What a handler panics with: `http.ErrAbortHandler`, or another value.
pub data Panic : Type 0 where
  abort : Panic
  value : ℕ → Panic

-- The response, and what has been counted and logged: the names of started handlers, and the names of
-- handled ones with their status.
pub record Server : Type 0 where
  pub response : Response
  pub started : List ℕ
  pub handled : List (ℕ × ℕ)
  pub logged : List (ℕ × ℕ)

-- A handler ends with a panic or without one.
abbrev pub Handler : Type 0
Handler = Request → Server → Option Panic × Server

abbrev pub Ignore : Type 0
Ignore = Request → Bool

unfoldable pub recovered : Option Panic → Server → Option Panic × Server
unfolding write_header
recovered none s = (none, s)
recovered (some abort) s = (some abort, s)
recovered (some (value v)) s = (none, record s { response = write_header s.response 500 })

-- `Recover`.
unfoldable pub recover : Handler → Handler
unfolding recovered
recover h r s = let (p, s') = h r s in recovered p s'

abbrev pub ignored : List Ignore → Request → Bool
ignored [] r = false
ignored (ignore ∷ ignores) r = ignore r || ignored ignores r

abbrev pub id_of : ℕ → ℕ → ℕ
id_of header new_id = if header == 0 then new_id else header

abbrev pub identified : ℕ → Request → Request
identified new_id r = record r {
  ctx = with_value r.ctx request_id (text (id_of r.id_header new_id));
}

abbrev pub answering : ℕ → Request → Server → Server
answering new_id r s = record s {
  response = set_header s.response request_id_header (id_of r.id_header new_id);
}

module _ (name_of : ℕ → ℕ → ℕ) (status_of : Response → ℕ) where
  abbrev pub start : Request → Server → Server
  start r s = record s { started = name_of r.path r.method ∷ s.started }

  unfoldable pub count_handled : ℕ → Option Panic × Server → Option Panic × Server
  count_handled name (none, s) =
      (none, record s { handled = (name, status_of s.response) ∷ s.handled })
  count_handled name (some p, s) = (some p, s)

  -- `Prom`. A panic of the handler passes by the counters.
  unfoldable pub prom : List Ignore → Handler → Handler
  unfolding count_handled
  prom ignores h r s =
      if ignored ignores r then h r s else count_handled (name_of r.path r.method) (h r (start r s))

  unfoldable pub log_request : ℕ → Option Panic × Server → Option Panic × Server
  log_request path (none, s) = (none, record s { logged = (path, status_of s.response) ∷ s.logged })
  log_request path (some p, s) = (some p, s)

  -- `Logger`. `new_id` is what `uuid.NewString` would return.
  unfoldable pub logger : ℕ → List Ignore → Handler → Handler
  unfolding log_request with_value
  logger new_id ignores h r s =
      let r' = identified new_id r in
      let s' = answering new_id r s in
      if ignored ignores r' then h r' s' else log_request r.path (h r' s')

-- `Request`.
unfoldable pub request : Handler → Handler
unfolding request_with_values
request h r s = h (request_with_values r) s
