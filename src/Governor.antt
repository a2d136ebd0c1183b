-- ===== src/Governor.antt =====
-- onegovernor/response.go, request.go: what is written to a response, and the values of a request that go
-- into its context. Texts are known by numbers, the empty one by 0; the names of headers too.
pub mod Middleware
pub mod Served
pub mod Metrics
mod Tests
use eins.Prelude.{
  ℕ, Bool, Option, none, some, List, [], ◌∷◌, ◌++◌, if◌then◌else◌, ◌==◌, ◌⊎◌, inl, inr,
}

-- `http.ResponseWriter`. `status` and `sent` are the status and the headers as they have been sent, and
-- `header` is the map that `Header` returns. Informational statuses are not told apart.
pub record Response : Type 0 where
  pub status : Option ℕ
  pub sent : ℕ → Option ℕ
  pub header : ℕ → Option ℕ
  pub body : List ℕ

abbrev pub content_type : ℕ
content_type = 0

abbrev pub request_id_header : ℕ
request_id_header = 1

-- `WriteHeader`, of which only the first call counts.
unfoldable pub write_header : Response → ℕ → Response
write_header w code = elim w.status [
  | none ↦ record w { status = some code; sent = w.header }
  | some c ↦ w
]

abbrev pub set_header : Response → ℕ → ℕ → Response
set_header w name v = record w { header = λ j. if name == j then some v else w.header j }

-- `Write`, which sends the status 200 if none was sent.
unfoldable pub write : Response → List ℕ → Response
unfolding write_header
write w bs = let w' = write_header w 200 in record w' { body = w'.body ++ bs }

-- The bytes of `Marshal`, whose error is dropped.
abbrev pub marshalled : ℕ ⊎ List ℕ → List ℕ
marshalled (inl e) = []
marshalled (inr bs) = bs

-- `Status`, `String`, `Json` and `Proto`. A text is given as formatted, an object as marshalled.
unfoldable pub status : Response → ℕ → Response
unfolding write_header
status w code = write_header w code

unfoldable pub string : Response → ℕ → List ℕ → Response
unfolding write_header write
string w code text = write (write_header w code) text

abbrev pub json_content_type : ℕ
json_content_type = 1

abbrev pub protobuf_content_type : ℕ
protobuf_content_type = 2

unfoldable pub json : Response → ℕ → ℕ ⊎ List ℕ → Response
unfolding write_header write
json w code obj =
    write (set_header (write_header w code) content_type json_content_type) (marshalled obj)

unfoldable pub proto : Response → ℕ → ℕ ⊎ List ℕ → Response
unfolding write_header write
proto w code obj =
    write (set_header (write_header w code) content_type protobuf_content_type) (marshalled obj)

-- The keys of the context.
pub data ContextKey : Type 0 where
  request_id method_key host_key path_key query_key querys_key body_key ip_key ua_key refer_key :
      ContextKey

abbrev pub number_of : ContextKey → ℕ
number_of request_id = 0
number_of method_key = 1
number_of host_key = 2
number_of path_key = 3
number_of query_key = 4
number_of querys_key = 5
number_of body_key = 6
number_of ip_key = 7
number_of ua_key = 8
number_of refer_key = 9

-- The dynamic types of a value of the context.
pub data ContextValue : Type 0 where
  text : ℕ → ContextValue
  texts : List (ℕ × ℕ) → ContextValue
  bytes : List ℕ → ContextValue

abbrev pub Context : Type 0
Context = ContextKey → Option ContextValue

unfoldable pub with_value : Context → ContextKey → ContextValue → Context
with_value ctx k v j = if number_of k == number_of j then some v else ctx j

-- A request. `id_header` is its header `X-Request-ID`, `querys` is `URL.Query`, and `body` is what is left
-- to read of its body.
pub record Request : Type 0 where
  pub method : ℕ
  pub host : ℕ
  pub path : ℕ
  pub raw_query : ℕ
  pub querys : List (ℕ × List ℕ)
  pub body : List ℕ
  pub ip : ℕ
  pub ua : ℕ
  pub refer : ℕ
  pub id_header : ℕ
  pub ctx : Context

-- The first value under each name that has one.
unfoldable pub first_values : List (ℕ × List ℕ) → List (ℕ × ℕ)
first_values [] = []
first_values ((k, []) ∷ qs) = first_values qs
first_values ((k, v ∷ vs) ∷ qs) = (k, v) ∷ first_values qs

-- The request that `Request` gives to its handler. Reading the body leaves nothing of it.
unfoldable pub request_with_values : Request → Request
unfolding with_value first_values
request_with_values r =
    let c1 = with_value r.ctx method_key (text r.method) in
    let c2 = with_value c1 host_key (text r.host) in
    let c3 = with_value c2 path_key (text r.path) in
    let c4 = with_value c3 query_key (text r.raw_query) in
    let c5 = with_value c4 querys_key (texts (first_values r.querys)) in
    let c6 = with_value c5 body_key (bytes r.body) in
    let c7 = with_value c6 ip_key (text r.ip) in
    let c8 = with_value c7 ua_key (text r.ua) in
    let c9 = with_value c8 refer_key (text r.refer) in record r { body = []; ctx = c9 }

-- `StringValue`, which is empty for a value of another type.
abbrev text_or_empty : Option ContextValue → ℕ
text_or_empty (some (text t)) = t
text_or_empty (some (texts ts)) = 0
text_or_empty (some (bytes bs)) = 0
text_or_empty none = 0

unfoldable pub string_value : Context → ContextKey → ℕ
string_value ctx k = text_or_empty (ctx k)

abbrev texts_or_nil : Option ContextValue → Option (List (ℕ × ℕ))
texts_or_nil (some (texts ts)) = some ts
texts_or_nil (some (text t)) = none
texts_or_nil (some (bytes bs)) = none
texts_or_nil none = none

-- `RequestQuerys`, whose nil map is `none`.
unfoldable pub request_querys : Context → Option (List (ℕ × ℕ))
request_querys ctx = texts_or_nil (ctx querys_key)

abbrev bytes_or_nil : Option ContextValue → Option (List ℕ)
bytes_or_nil (some (bytes bs)) = some bs
bytes_or_nil (some (text t)) = none
bytes_or_nil (some (texts ts)) = none
bytes_or_nil none = none

-- `RequestBody`, whose nil slice is `none`.
unfoldable pub request_body : Context → Option (List ℕ)
request_body ctx = bytes_or_nil (ctx body_key)
