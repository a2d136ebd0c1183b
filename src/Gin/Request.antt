-- ===== src/Gin/Request.antt =====
-- onegin/ginreq/req.go, args.go: a request whose body and query are read once. Texts other than bodies
-- are known by numbers, the empty one by 0. `none` is a panic; what is logged is left out.
pub mod Reads
use eins.Prelude.{ℕ, ◌≡◌, Bool, true, false, Option, none, some, List, [], ◌∷◌, if◌then◌else◌, ◌==◌}
use eins.Prelude.Int.{ℤ, pos, eqb_ℤ}

-- `url.Values`: the first value under each name.
abbrev pub Values : Type 0
Values = List (ℕ × ℕ)

abbrev pub value_of : Values → ℕ → ℕ
value_of [] key = 0
value_of ((k, v) ∷ q) key = if k == key then v else value_of q key

-- The URL of the request that `Xargs` has: there may be no request, or a request without a URL.
pub data Url : Type 0 where
  no_request no_url : Url
  raw_query : ℕ → Url

-- `Xargs`.
pub record Xargs : Type 0 where
  pub url : Url
  pub q : Option Values

-- `XRequest` and its request: the body as far as it was read, what is left to read of it, the headers, and
-- the arguments.
pub record XRequest : Type 0 where
  pub body : Option (List ℕ)
  pub left : List ℕ
  pub header : ℕ → ℕ
  pub query : Xargs

-- What the code uses of `url.ParseQuery`, of gzip (the bytes that are read and those that are left, or
-- none if the head is not that of gzip), of the JSON decoder, and of `cast`.
pub record Readers (J : Type 0) : Type 0 where
  pub parse_query : ℕ → Values
  pub gunzip : List ℕ → Option (List ℕ × List ℕ)
  pub decode : List ℕ → Option ℕ × J
  pub to_int : ℕ → ℤ
  pub to_int32 : ℕ → ℤ
  pub to_int64 : ℕ → ℤ
  pub to_bool : ℕ → Bool

module _ {J : Type 0} (w : Readers J) where
  open w use {parse_query, gunzip, decode, to_int, to_int32, to_int64, to_bool}

  -- The first `Get` parses the query. Without a request or a URL it panics, in spite of its tests.
  abbrev parsed : Url → Option Values
  parsed no_request = none
  parsed no_url = none
  parsed (raw_query raw) = some (parse_query raw)

  abbrev parse_and_get : Xargs → Option Values → ℕ → Option (ℕ × Xargs)
  parse_and_get x none key = none
  parse_and_get x (some q) key = some (value_of q key, record x { q = some q })

  -- `Xargs.Get`.
  unfoldable pub get : Xargs → ℕ → Option (ℕ × Xargs)
  get x key = elim x.q [
    | some q ↦ some (value_of q key, x)
    | none ↦ parse_and_get x (parsed x.url) key
  ]

  -- `XHeaders.Get`.
  abbrev get_header : XRequest → ℕ → ℕ
  get_header x key = x.header key

  -- The methods of `XKeys` on what `Get` returned.
  abbrev key_int : ℕ → ℤ
  key_int v = to_int v

  abbrev key_string : ℕ → ℕ
  key_string v = v

  abbrev key_bool : ℕ → Bool
  key_bool v = to_bool v

  abbrev key_int32 : ℕ → ℤ
  key_int32 v = to_int32 v

  abbrev key_int64 : ℕ → ℤ
  key_int64 v = to_int64 v

  -- `NewXRequest`.
  abbrev pub new_xrequest : Url → (ℕ → ℕ) → List ℕ → XRequest
  new_xrequest url header body = record {
    body = none;
    left = body;
    header = header;
    query = record { url = url; q = none };
  }

  -- `Binary`. The error of reading is only logged.
  unfoldable pub binary : XRequest → List ℕ × XRequest
  binary x = elim x.body [
    | some bs ↦ (bs, x)
    | none ↦ (x.left, record x { body = some x.left; left = [] })
  ]

  abbrev inflated : XRequest → Option (List ℕ × List ℕ) → Option (List ℕ × XRequest)
  inflated x none = none
  inflated x (some (bs, rest)) = some (bs, record x { body = some bs; left = rest })

  -- `BinaryGzip`: without the head of gzip the reader is nil, and panics.
  unfoldable pub binary_gzip : XRequest → Option (List ℕ × XRequest)
  binary_gzip x = elim x.body [ some bs ↦ some (bs, x) | none ↦ inflated x (gunzip x.left) ]

  -- `Json` and `JsonUnGzip`, with what the decoder says and leaves.
  unfoldable pub json : XRequest → (Option ℕ × J) × XRequest
  unfolding binary
  json x = let (bs, x') = binary x in (decode bs, x')

  abbrev decoded : Option (List ℕ × XRequest) → Option ((Option ℕ × J) × XRequest)
  decoded none = none
  decoded (some (bs, x)) = some (decode bs, x)

  unfoldable pub json_ungzip : XRequest → Option ((Option ℕ × J) × XRequest)
  unfolding binary_gzip
  json_ungzip x = decoded (binary_gzip x)

  -- The text `gzip`.
  abbrev pub gzip_key : ℕ
  gzip_key = 1

  abbrev by_flag : XRequest → Option (ℕ × Xargs) → Option (Option ℕ × J)
  by_flag x none = none
  by_flag x (some (flag, query)) =
      let y = record x { query = query } in
      let zipped : Option (Option ℕ × J) = elim (json_ungzip y) [
        | none ↦ none
        | some (r, y') ↦ some r
      ] in
      if eqb_ℤ (to_int flag) (pos 1) then zipped else some (json y).0

  -- `JsonWrapper` on a request.
  unfoldable pub json_wrapper : Url → (ℕ → ℕ) → List ℕ → Option (Option ℕ × J)
  unfolding get json json_ungzip
  json_wrapper url header body =
      let x = new_xrequest url header body in by_flag x (get x.query gzip_key)
