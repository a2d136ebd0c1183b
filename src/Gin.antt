-- ===== src/Gin.antt =====
-- onegin/gin.go, response.go, ginerr/err.go: the routes of an engine and the answers. gin is a parameter:
-- an engine is known by the routes that it was given, with the newest last.
pub mod Request
mod Tests
use eins.Prelude.{
  ℕ, ◌≡◌, Bool, true, false, Option, none, some, List, [], ◌∷◌, ◌++◌, if◌then◌else◌, ◌==◌,
}

-- The methods of net/http, and any other text.
pub data Method : Type 0 where
  get head post put patch delete connect options trace other : Method

-- `Route`; a handler is known by a number.
pub record Route : Type 0 where
  pub status : ℕ
  pub method : Method
  pub path : List ℕ
  pub handler : ℕ

-- What gin was told: the method, the whole path and the handler.
pub record Registered : Type 0 where
  pub method : Method
  pub path : List ℕ
  pub handler : ℕ

-- `EngineImpl`.
pub record EngineImpl : Type 0 where
  pub engine : List Registered
  pub prefix_path : List ℕ

-- `accepts` says that gin takes a route beside those that it has: it panics on a path without a slash in
-- front, and on one that is there already or conflicts with another.
module _ (accepts : List Registered → Registered → Bool) where
  -- What gin's own methods do; `none` is the panic.
  unfoldable pub register : EngineImpl → Route → Option EngineImpl
  register i r =
      let new : Registered = record {
        method = r.method;
        path = i.prefix_path ++ r.path;
        handler = r.handler;
      } in
      if accepts i.engine new then some (record i { engine = i.engine ++ new ∷ [] }) else none

  abbrev pub by_method : EngineImpl → Route → Method → Option EngineImpl
  by_method i r get = register i r
  by_method i r post = register i r
  by_method i r put = register i r
  by_method i r patch = register i r
  by_method i r delete = register i r
  by_method i r options = register i r
  by_method i r head = some i
  by_method i r connect = some i
  by_method i r trace = some i
  by_method i r other = some i

  -- `AddRoutes`: a route with another method is left out.
  unfoldable pub add_routes : EngineImpl → Route → Option EngineImpl
  unfolding register
  add_routes i r = by_method i r r.method

-- `GinError`, and `XError` of ginerr with its constructor and its message.
pub record GinError : Type 0 where
  pub code : ℕ
  pub msg : ℕ

pub record XError : Type 0 where
  pub code : ℕ
  pub msg : ℕ

abbrev new_error : ℕ → ℕ → XError
new_error code msg = record { code = code; msg = msg }

abbrev error_text : XError → ℕ
error_text x = x.msg

-- The text `ok`.
abbrev ok_msg : ℕ
ok_msg = 1

-- What `c.JSON` is given: an error, or the code and the message of a success with its data.
pub data Answer (D : Type 0) : Type 0 where
  error_answer : GinError → Answer D
  success_answer : ℕ → ℕ → Option D → Answer D

module _ {D C : Type 0} (send_json : C → ℕ → Answer D → C) where
  -- `Error`, `Success` and `JustSuccess`.
  unfoldable error : C → ℕ → GinError → C
  error c status err = send_json c status (error_answer err)

  unfoldable success : C → ℕ → Option D → C
  success c status result = send_json c status (success_answer 0 ok_msg result)

  unfoldable just_success : C → ℕ → C
  just_success c status = send_json c status (success_answer 0 ok_msg none)
