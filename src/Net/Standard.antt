-- ===== src/Net/Standard.antt =====
-- onenet/standard.go: the client over net/http. `exchange` is what the library's client does with a
-- request; what is logged is left out, but for the panic of a text that is cut at a negative size.
use eins.Prelude.{
  ℕ, Bool, ◌&&◌, ◌||◌, not, Option, none, some, List, [], ◌∷◌, ◌++◌, length, take, leb,
  if◌then◌else◌, ◌⊎◌,
}
use eins.Prelude.Int.{ℤ, pos, pos_part, ltb_ℤ, eqb_ℤ}
use eins.Net.{
  Text, same_text, content_type_header, content_encoding, gzip, json_content_type, default_timeout,
  Body, reader, form, text, bytes, proto, other, Header, OneRequest, set_header, contains, has_name,
}
use eins.Net.Wire.{
  Payload, stream, content, nothing, Sent, Reply, header_value, Target, writer, string_ptr,
  bytes_ptr, proto_message, other_value, OneResponse, Value, as_string, as_bytes, written, decoded,
  Answer, Libraries,
}
use eins.Prelude.Ending.{Ending, returns, panics, ◌>>=◌, of_result, of_error}

module _ {Q P J V : Type 0} (w : Libraries Q P J V) where
  open w use {
    query_is_empty, encode_query, marshal_proto, marshal_json, new_request, gzip_head, inflate,
    write, unmarshal_proto, unmarshal_json,
  }

  joined : Text → Text → Text
  joined url query = if contains b'?' url then url ++ b'&' ∷ query else url ++ b'?' ∷ query

  -- The change that a call makes to `req.URL`.
  unfoldable pub full_url : Text → Option Q → Text
  unfolding joined
  full_url url none = url
  full_url url (some q) = if query_is_empty q then url else joined url (encode_query q)

  -- `onelog.StrWithSize` cuts a text that is too long.
  abbrev logged : ℤ → Text → Ending ℕ Text
  logged size s =
      if not (eqb_ℤ size (pos 0)) && not (ltb_ℤ (pos (length s)) size) && ltb_ℤ size (pos 0)
      then panics
      else returns s

  marshalled : Text → J → Ending ℕ Payload
  marshalled content_type j =
      if same_text content_type json_content_type
      then (do bs ← of_result (marshal_json j); returns (content bs))
      else returns nothing

  -- The switch over the body.
  unfoldable pub payload : Text → ℤ → Body Q P J → Ending ℕ Payload
  unfolding marshalled
  payload content_type size (reader r) = returns (stream r)
  payload content_type size (form q) = do s ← logged size (encode_query q); returns (content s)
  payload content_type size (text s) = do s' ← logged size s; returns (content s')
  payload content_type size (bytes bs) = returns (content bs)
  payload content_type size (proto m) = do bs ← of_result (marshal_proto m); returns (content bs)
  payload content_type size (other j) = marshalled content_type j

  -- The change that a call makes to `req.Header`.
  unfoldable pub full_header : Header → Text → Header
  full_header h [] = h
  full_header h (c ∷ cs) = set_header h content_type_header (some (c ∷ cs))

  -- The headers of the reply go into `res.Header`, where a nil map panics.
  unfoldable pub received : List (ℕ × Text) → Option Header → Ending ℕ (Option Header)
  received [] h = returns h
  received (n ∷ ns) none = panics
  received (n ∷ ns) (some h) =
      returns (some (λ j. if has_name j (n ∷ ns) then some (header_value (n ∷ ns) j) else h j))

  ended : Reply → Ending ℕ Text
  ended r = do ok ← of_error r.broken; returns r.body

  -- `io.LimitReader` and `io.ReadAll`: a limit that is reached hides what is wrong behind it.
  unfoldable pub limited : ℤ → Reply → Ending ℕ Text
  unfolding ended
  limited size r =
      if eqb_ℤ size (pos 0)
      then ended r
      else if leb (pos_part size) (length r.body)
      then returns (take (pos_part size) r.body)
      else ended r

  -- `GetGzipReader` and the reading: without a reader in the pool a new one is made, which is nil if the
  -- head is not that of gzip, and panics.
  unfoldable pub gunzip : Bool → Text → Ending ℕ Text
  gunzip pooled bs = if pooled || gzip_head bs then of_result (inflate bs) else panics

  -- The switch over `res.Res`.
  unfoldable pub store : Target → Text → Ending ℕ (Value V)
  store writer bs = returns (written bs)
  store string_ptr bs = returns (as_string bs)
  store bytes_ptr bs = returns (as_bytes bs)
  store proto_message bs = do v ← of_result (unmarshal_proto bs); returns (decoded v)
  store other_value bs = do v ← of_result (unmarshal_json bs); returns (decoded v)

  -- What follows the headers, where `res.Res` is no writer.
  unfoldable pub read_reply : Bool → ℤ → Reply → Target → Ending ℕ (Value V)
  unfolding limited gunzip store
  read_reply pooled size r into = do
    bs ← limited size r
    plain ←
        (if same_text (header_value r.header content_encoding) gzip
          then gunzip pooled bs
          else returns bs)
    store into plain

  -- `io.Copy` to a writer.
  unfoldable pub write_reply : Reply → Ending ℕ (Value V)
  write_reply r = do ok ← of_error (write r.body); ok' ← of_error r.broken; returns (written r.body)

  unfoldable pub read_answer : Bool → ℤ → Reply → Target → Ending ℕ (Value V)
  unfolding write_reply read_reply
  read_answer pooled size r writer = write_reply r
  read_answer pooled size r string_ptr = read_reply pooled size r string_ptr
  read_answer pooled size r bytes_ptr = read_reply pooled size r bytes_ptr
  read_answer pooled size r proto_message = read_reply pooled size r proto_message
  read_answer pooled size r other_value = read_reply pooled size r other_value

  abbrev pub sent : OneRequest Q P J → Payload → Sent
  sent req p = record {
    method = req.method;
    url = full_url req.url req.query;
    header = full_header req.header req.content_type;
    payload = p;
  }

  -- `do`. `pooled` tells whether the pool has a reader.
  unfoldable pub do_request :
      (Sent → ℕ ⊎ Reply) → Bool → OneRequest Q P J → OneResponse → Ending ℕ (Answer V)
  unfolding payload full_url full_header received read_answer
  do_request exchange pooled req res = do
    p ← payload req.content_type req.max_log_body_size req.body
    ok ← of_error (new_request req.method (full_url req.url req.query))
    r ← of_result (exchange (sent req p))
    h ← received r.header res.header
    v ← read_answer pooled req.max_res_body_size r res.res
    returns (record { header = h; value = v })

  -- The request as `do` leaves it, if it comes to send it.
  unfoldable pub request_after : OneRequest Q P J → OneRequest Q P J
  unfolding full_url full_header
  request_after req = record req {
    url = full_url req.url req.query;
    header = full_header req.header req.content_type;
  }

  -- The timeout with which `Call` runs `do`.
  unfoldable pub call_timeout : OneRequest Q P J → ℤ
  call_timeout req = if eqb_ℤ req.timeout (pos 0) then default_timeout else req.timeout
