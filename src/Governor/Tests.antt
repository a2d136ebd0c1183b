-- ===== src/Governor/Tests.antt =====
-- A request, handlers that answer or panic, and the theorems about the wrappers applied to them.
use eins.Prelude.{ℕ, ◌≡◌, refl, Option, none, some, [], ◌∷◌, inr}
use eins.Governor.{Response, json, Request}
use eins.Governor.Middleware.{value, Server, Handler}
use eins.Prom.{Package, init}
use eins.Prom.{Prom as Metrics}
use eins.Prom.Labels.{run}
use eins.Governor.Metrics.{starts_made, serve, requests_to, serve-counts}

abbrev untouched : Response
untouched = record { status = none; sent = λ j. none; header = λ j. none; body = [] }

abbrev get_users : Request
get_users = record {
  method = 11;
  host = 12;
  path = 13;
  raw_query = 14;
  querys = (21, 31 ∷ 32 ∷ []) ∷ (22, []) ∷ [];
  body = 1 ∷ 2 ∷ [];
  ip = 15;
  ua = 16;
  refer = 17;
  id_header = 0;
  ctx = λ k. none;
}

abbrev server : Server
server = record { response = untouched; started = []; handled = []; logged = [] }

-- It answers in JSON and then panics.
abbrev failing : Handler
failing r s = (some (value 3), record s { response = json s.response 200 (inr (7 ∷ [])) })

abbrev name_of : ℕ → ℕ → ℕ
name_of path method = path

abbrev status_or_zero : Option ℕ → ℕ
status_or_zero none = 0
status_or_zero (some c) = c

abbrev status_of : Response → ℕ
status_of w = status_or_zero w.status

abbrev unset : Package
unset = record { default_prom = none; cfg = record { app = 0; env = 0 } }

serve-counts_example :
    let rs = get_users ∷ get_users ∷ [] in
    (m : Metrics) × (q : Package) × (run
        (init unset (record { app = 1; env = 2 }))
        (starts_made (serve name_of status_of [] failing untouched rs server).started)
      ≡ some q)
    × (q.default_prom ≡ some m)
    × (m.server_started_counter (1 ∷ 1 ∷ 13 ∷ []) ≡ requests_to name_of status_of [] failing 13 rs)
serve-counts_example =
    serve-counts name_of status_of [] failing (record { app = 1; env = 2 }) unset untouched
      (get_users ∷ get_users ∷ []) server 13 refl refl (λ r s. refl)
