-- ===== src/Net/Tests.antt =====
-- Concrete libraries, a concrete request and reply, and the theorems about the clients applied to them.
use eins.Prelude.{ℕ, ◌≡◌, refl, Bool, true, false, none, some, [], ◌∷◌, ◌⊎◌, inl, inr, arith}
use eins.Prelude.Int.{pos}
use eins.Net.{Text, bytes, OneRequest, content_encoding, gzip}
use eins.Net.Wire.{Sent, Reply, string_ptr, OneResponse, Libraries}
use eins.Net.Standard
use eins.Net.Fast
use eins.Net.Calls.{fast-standard}

abbrev is_nil : Text → Bool
is_nil [] = true
is_nil (c ∷ cs) = false

-- A library that takes every request, does not change what it encodes and puts a byte before what it packs.
abbrev inflate_one : Text → ℕ ⊎ Text
inflate_one [] = inl 4
inflate_one (c ∷ cs) = inr cs

abbrev plain_libraries : Libraries Text Text Text Text
plain_libraries = record {
  query_is_empty = is_nil;
  encode_query = λ q. q;
  marshal_proto = λ m. inr m;
  marshal_json = λ j. inr j;
  new_request = λ m u. none;
  gzip_head = λ bs. true;
  inflate = inflate_one;
  write = λ bs. none;
  unmarshal_proto = λ bs. inr bs;
  unmarshal_json = λ bs. inr bs;
}

abbrev url : Text
url = b'h' ∷ b'/' ∷ []

abbrev query : Text
query = b'a' ∷ b'=' ∷ b'1' ∷ []

abbrev request : OneRequest Text Text Text
request = record {
  method = b'G' ∷ [];
  url = url;
  query = some query;
  header = λ _. none;
  content_type = [];
  body = bytes (1 ∷ 2 ∷ []);
  timeout = pos 5;
  log_level = none;
  max_log_body_size = pos 1024;
  max_res_body_size = pos 3;
  prom_key = [];
}

abbrev packed : Reply
packed = record {
  header = (content_encoding, gzip) ∷ [];
  body = 31 ∷ 7 ∷ 8 ∷ 9 ∷ [];
  broken = none;
}

abbrev response : OneResponse
response = record { res = string_ptr; header = some (λ _. none) }

abbrev by_http : Sent → ℕ ⊎ Reply
by_http s = inr packed

-- It brings back something else for a URL that is empty.
abbrev by_fasthttp : Sent → ℕ ⊎ Reply
by_fasthttp s = elim s.url [ [] ↦ inl 3 | c ∷ cs ↦ inr packed ]

fast-standard_example :
    Fast.do_request plain_libraries by_fasthttp false request response
    ≡ Standard.do_request plain_libraries by_http false request response
unfolding Standard.full_url
fast-standard_example =
    fast-standard plain_libraries by_fasthttp by_http false request response refl (omega arith) refl
      (λ p e. refl) (λ p r e got. ground arith)
