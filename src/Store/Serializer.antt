-- ===== src/Store/Serializer.antt =====
-- onecache/store/serializer.go: `JsonSerializer`. The packages encoding/json and compress/gzip are
-- parameters; `B` are byte strings.
use eins.Prelude.{ℕ, ◌≡◌, refl, Bool, Option, none, some, ◌⊎◌, inl, inr, if◌then◌else◌, arith}

-- `encode_json` is `json.Encoder`, which escapes HTML or not; `unmarshal` decodes a whole text into a
-- place of a type, `decode_next` the first value of a stream, each with the value that it leaves there;
-- `flush` are the bytes that `gzip.Writer` has written at its `Flush`, `inflate` is `gzip.NewReader`
-- and what can be read from it.
pub record Codec (V T B : Type 0) : Type 0 where
  pub encode_json : Bool → V → ℕ ⊎ B
  pub unmarshal : B → T → Option ℕ × Option V
  pub decode_next : B → T → Option ℕ × Option V
  pub flush : B → ℕ ⊎ B
  pub inflate : B → ℕ ⊎ B

-- `JsonSerializer`.
pub record JsonSerializer : Type 0 where
  pub compress : Bool
  pub escape_html : Bool

module _ {V T B : Type 0} (p : Codec V T B) where
  open p use {encode_json, unmarshal, decode_next, flush, inflate}

  unfoldable pub decode_stream : ℕ ⊎ B → T → Option ℕ × Option V
  decode_stream (inl e) t = (some e, none)
  decode_stream (inr text) t = decode_next text t

  -- `decode`.
  unfoldable pub decode : JsonSerializer → B → T → Option ℕ × Option V
  unfolding decode_stream
  decode j src t = if j.compress then decode_stream (inflate src) t else unmarshal src t

  unfoldable pub finish : Bool → ℕ ⊎ B → ℕ ⊎ B
  finish compress (inl e) = inl e
  finish compress (inr text) = if compress then flush text else inr text

  -- `encode`.
  unfoldable pub encode : JsonSerializer → V → ℕ ⊎ B
  unfolding finish
  encode j v = finish j.compress (encode_json j.escape_html v)

  -- What the packages document: a value of a type comes back from what it was encoded to, also with
  -- the line break that the encoder adds, and so does a text from a flushed stream.
  pub record IsFaithful (HasType : V → T → Type 0) : Type 0 where
    pub unmarshal_encoded :
        (escape : Bool) (v : V) (t : T) (text : B)
        → HasType v t
        → encode_json escape v ≡ inr text
        → unmarshal text t ≡ (none, some v)
    pub decode_encoded :
        (escape : Bool) (v : V) (t : T) (text : B)
        → HasType v t
        → encode_json escape v ≡ inr text
        → decode_next text t ≡ (none, some v)
    pub inflate_flushed : (text src : B) → flush text ≡ inr src → inflate src ≡ inr text

  finished :
      {HasType : V → T → Type 0} (h : IsFaithful HasType) (j : JsonSerializer) (v : V) (t : T)
      (src : B) (coded : ℕ ⊎ B)
      → HasType v t
      → encode_json j.escape_html v ≡ coded
      → finish j.compress coded ≡ inr src
      → decode j src t ≡ (none, some v)
  unfolding decode finish
  finished h j v t src (inl e) typed coded done = ground arith
  finished h j v t src (inr text) typed coded done = ground (
    arith,
    h.unmarshal_encoded j.escape_html v t text typed coded,
    h.decode_encoded j.escape_html v t text typed coded,
    h.inflate_flushed text src,
  )

  -- What `encode` made of a value without an error, `decode` brings back as that value, compressed or
  -- not, if the packages do so with texts and streams.
  decode-encode :
      {HasType : V → T → Type 0} (j : JsonSerializer) (v : V) (t : T) (src : B)
      → IsFaithful HasType
      → HasType v t
      → encode j v ≡ inr src
      → decode j src t ≡ (none, some v)
  unfolding encode
  decode-encode j v t src h typed coded =
      finished h j v t src (encode_json j.escape_html v) typed refl coded
