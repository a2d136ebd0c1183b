-- ===== src/Governor/Served.antt =====
-- onegovernor/http.go, request.go, response.go: what a handler behind the wrappers finds, what is counted
-- of it, and which headers a response has.
use eins.Prelude.{
  ℕ, ◌≡◌, refl, false, Option, none, some, List, [], ◌∷◌, ◌++◌, ◌⊎◌, inl, inr, ℕ_discrete,
  Bool-cases,
}
use eins.Governor.{
  Response, content_type, json_content_type, request_id_header, write_header, write, json,
  marshalled, request_id, method_key, host_key, path_key, query_key, ip_key, ua_key, refer_key,
  with_value, Request, first_values, request_with_values, string_value, request_querys,
  request_body,
}
use eins.Governor.Middleware.{
  Panic, abort, value, Server, Handler, Ignore, ignored, recovered, recover, start, count_handled,
  prom, id_of, identified, answering, log_request, logger, request,
}

-- `Json` to a response that nothing was sent of sends the status and the headers as they were before, so
-- that the content type that it sets is not among them; the body is written.
json_sends :
    (w : Response) (code : ℕ) (obj : ℕ ⊎ List ℕ)
    → w.status ≡ none
    → let w' = json w code obj in
      (w'.status ≡ some code)
      × (w'.sent ≡ w.header)
      × (w'.header content_type ≡ some json_content_type)
      × (w'.body ≡ w.body ++ marshalled obj)
unfolding json write write_header ℕ_discrete
json_sends w code obj fresh = rw fresh (refl, refl, refl, refl)

-- A handler behind `Request` finds each part of the request under its accessor, and the id that was in the
-- context before; but nothing is left to read of the body.
request_values :
    (r : Request)
    → let r' = request_with_values r in
      (string_value r'.ctx method_key ≡ r.method)
      × (string_value r'.ctx host_key ≡ r.host)
      × (string_value r'.ctx path_key ≡ r.path)
      × (string_value r'.ctx query_key ≡ r.raw_query)
      × (request_querys r'.ctx ≡ some (first_values r.querys))
      × (request_body r'.ctx ≡ some r.body)
      × (string_value r'.ctx ip_key ≡ r.ip)
      × (string_value r'.ctx ua_key ≡ r.ua)
      × (string_value r'.ctx refer_key ≡ r.refer)
      × (string_value r'.ctx request_id ≡ string_value r.ctx request_id)
      × (r'.body ≡ [])
unfolding request_with_values with_value string_value request_querys request_body ℕ_discrete
request_values r = (refl, refl, refl, refl, refl, refl, refl, refl, refl, refl, refl)

abbrev pub after_panic : Response → Option Panic → Response
after_panic w none = w
after_panic w (some abort) = w
after_panic w (some (value v)) = write_header w 500

module _ (name_of : ℕ → ℕ → ℕ) (status_of : Response → ℕ) where
  abbrev pub handled_after : ℕ → Server → Option Panic → List (ℕ × ℕ)
  handled_after name s none = (name, status_of s.response) ∷ s.handled
  handled_after name s (some p) = s.handled

  recovered_counts :
      (name : ℕ) (p : Option Panic) (s : Server)
      → let (q, s') = count_handled name_of status_of name (p, s) in
        let t = (recovered q s').1 in
        (t.handled ≡ handled_after name s p)
        × (t.started ≡ s.started)
        × (t.response ≡ after_panic s.response p)
  unfolding recovered count_handled
  recovered_counts name none s = (refl, refl, refl)
  recovered_counts name (some abort) s = (refl, refl, refl)
  recovered_counts name (some (value v)) s = (refl, refl, refl)

  -- Behind `Recover` and `Prom` a handler that is not ignored is counted as started; as handled only if it
  -- does not panic. After a panic other than that of `http.ErrAbortHandler` the status 500 is written.
  recover-prom_counts :
      (ignores : List Ignore) (h : Handler) (r : Request) (s : Server)
      → ignored ignores r ≡ false
      → let (p, s') = h r (start name_of status_of r s) in
        let t = (recover (prom name_of status_of ignores h) r s).1 in
        (t.handled ≡ handled_after (name_of r.path r.method) s' p)
        × (t.started ≡ s'.started)
        × (t.response ≡ after_panic s'.response p)
  unfolding recover prom
  recover-prom_counts ignores h r s counted =
      let (p, s') = h r (start name_of status_of r s) in
      rw counted (recovered_counts (name_of r.path r.method) p s')

  log_request-panic :
      (path : ℕ) (m : Option Panic × Server) → (log_request name_of status_of path m).0 ≡ m.0
  unfolding log_request
  log_request-panic path (none, s) = refl
  log_request-panic path (some p, s) = refl

  -- Behind `Logger` and `Request` a handler finds the id of the request in its context, which is that of
  -- its header, or a new one if the header is empty, and the response has the same id as its header.
  logger_identifies :
      (new_id : ℕ) (ignores : List Ignore) (h : Handler) (r : Request) (s : Server)
      → let r' = request_with_values (identified new_id r) in
        let s' = answering new_id r s in
        let id = id_of r.id_header new_id in
        ((logger name_of status_of new_id ignores (request h) r s).0 ≡ (h r' s').0)
        × (string_value r'.ctx request_id ≡ id)
        × (s'.response.header request_id_header ≡ some id)
  unfolding logger request request_with_values with_value string_value ℕ_discrete
  logger_identifies new_id ignores h r s =
      let r' = identified new_id r in
      let m = h (request_with_values r') (answering new_id r s) in
      (
        elim (Bool-cases (ignored ignores r')) [
          | inl skips ↦ rw skips refl
          | inr counts ↦ rw counts (log_request-panic r.path m)
        ],
        refl,
        refl,
      )
