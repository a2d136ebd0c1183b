-- ===== src/Net/Wire.antt =====
-- What the clients of onenet use of libraries, and what a call ends in.
use eins.Prelude.{ℕ, Bool, Option, List, [], ◌∷◌, if◌then◌else◌, ◌==◌, ◌⊎◌}
use eins.Net.{Text, Header}

-- The body as it is sent: a stream, bytes, or none.
pub data Payload : Type 0 where
  stream : ℕ → Payload
  content : Text → Payload
  nothing : Payload

pub record Sent : Type 0 where
  pub method : Text
  pub url : Text
  pub header : Header
  pub payload : Payload

-- A reply. `broken` is the error with which reading ends after the bytes of `body`.
pub record Reply : Type 0 where
  pub header : List (ℕ × Text)
  pub body : Text
  pub broken : Option ℕ

-- The first value of a header, which is empty if there is none.
abbrev pub header_value : List (ℕ × Text) → ℕ → Text
header_value [] name = []
header_value ((n, v) ∷ hs) name = if n == name then v else header_value hs name

-- What a caller puts into `OneResponse.Res`.
pub data Target : Type 0 where
  writer string_ptr bytes_ptr proto_message other_value : Target

-- `OneResponse`; a nil map of headers is `none`.
pub record OneResponse : Type 0 where
  pub res : Target
  pub header : Option Header

-- What a call leaves in `OneResponse`: a text, bytes, a message or a value `V`, or what was written to
-- the writer, and the headers.
pub data Value (V : Type 0) : Type 0 where
  as_string as_bytes written : Text → Value V
  decoded : V → Value V

pub record Answer (V : Type 0) : Type 0 where
  pub header : Option Header
  pub value : Value V

-- The libraries: encodings, `http.NewRequestWithContext`, whether `gzip.NewReader` accepts the head of
-- a stream, and what a reader makes of it, the writer of the caller, and the decodings.
pub record Libraries (Q P J V : Type 0) : Type 0 where
  pub query_is_empty : Q → Bool
  pub encode_query : Q → Text
  pub marshal_proto : P → ℕ ⊎ Text
  pub marshal_json : J → ℕ ⊎ Text
  pub new_request : Text → Text → Option ℕ
  pub gzip_head : Text → Bool
  pub inflate : Text → ℕ ⊎ Text
  pub write : Text → Option ℕ
  pub unmarshal_proto : Text → ℕ ⊎ V
  pub unmarshal_json : Text → ℕ ⊎ V
