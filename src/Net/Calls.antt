-- ===== src/Net/Calls.antt =====
-- onenet/standard.go, fast.go: what the two clients have in common, and what a call does to its request.
use eins.Prelude.{
  ℕ, zero, suc, take, ◌≡◌, ◌≢◌, refl, ap, Bool, true, false, Option, none, some, List, [], ◌∷◌,
  ◌++◌, length, arith, ◌⊎◌, inl, inr,
}
use eins.Prelude.Int.{ℤ, pos, negsuc, ◌≤ℤ◌}
use eins.Net.{
  Text, Header, Body, reader, form, text, bytes, proto, other, OneRequest, ReqSetting, with_timeout,
  min_ℤ, apply, apply_settings, new_one_request, default_timeout, contains,
}
use eins.Net.Wire.{
  Sent, Reply, Target, OneResponse, Libraries, Value, Answer, writer, string_ptr, bytes_ptr,
  proto_message, other_value, Payload,
}
use eins.Prelude.Ending.{returns, ◌>>=◌, of_result, bind_same}
use eins.Net.Standard
use eins.Net.Fast

of_result-inr : {A : Type 0} (x : ℕ ⊎ A) (a : A) → of_result x ≡ returns a → x ≡ inr a
of_result-inr (inl e) a h = ground arith
of_result-inr (inr b) a h = ground arith

take_all : {A : Type 0} (n : ℕ) (xs : List A) → n ≡ length xs → take n xs ≡ xs
take_all {A} n [] e = rw e refl
take_all {A} zero (x ∷ xs) e = absurd (omega arith)
take_all {A} (suc n) (x ∷ xs) e = ap (λ (ys : List A). x ∷ ys) (take_all n xs (omega arith))

module _ {Q P J V : Type 0} (w : Libraries Q P J V) where
  open w use {query_is_empty, encode_query, new_request}

  contains_query : (url query : Text) → contains b'?' (url ++ b'?' ∷ query) ≡ true
  contains_query [] query = refl
  contains_query (c ∷ url) query = ground (arith, contains_query url query)

  full_url_same :
      (url : Text) (q : Option Q)
      → contains b'?' url ≡ false
      → Fast.full_url w url q ≡ Standard.full_url w url q
  unfolding Fast.full_url Standard.full_url
  full_url_same url none h = refl
  full_url_same url (some q) h = ground arith

  payload_same :
      (content_type : Text) (size : ℤ) (b : Body Q P J)
      → Fast.payload w content_type size b ≡ Standard.payload w content_type size b
  unfolding Fast.payload Standard.payload
  payload_same content_type size (reader r) = refl
  payload_same content_type size (form q) = refl
  payload_same content_type size (text s) = refl
  payload_same content_type size (bytes bs) = refl
  payload_same content_type size (proto m) = refl
  payload_same content_type size (other j) = refl

  full_header_same :
      (h : ℕ → Option Text) (t : Text) → Fast.full_header w h t ≡ Standard.full_header w h t
  unfolding Fast.full_header Standard.full_header
  full_header_same h [] = refl
  full_header_same h (c ∷ cs) = refl

  limited_same :
      (size : ℤ) (r : Reply)
      → pos 0 ≤ℤ size
      → r.broken ≡ none
      → Fast.limited w size r ≡ Standard.limited w size r
  unfolding Fast.limited Standard.limited
  limited_same (pos n) r h whole = ground (arith, take_all n r.body)
  limited_same (negsuc n) r h whole = absurd (omega arith)

  store_same : (into : Target) (bs : Text) → Fast.store w into bs ≡ Standard.store w into bs
  unfolding Fast.store Standard.store
  store_same writer bs = refl
  store_same string_ptr bs = refl
  store_same bytes_ptr bs = refl
  store_same proto_message bs = refl
  store_same other_value bs = refl

  write_reply_same : (r : Reply) → r.broken ≡ none → Fast.write_reply w r ≡ Standard.write_reply w r
  unfolding Fast.write_reply Standard.write_reply
  write_reply_same r whole = rw whole refl

  read_reply_same :
      (pooled : Bool) (size : ℤ) (r : Reply) (into : Target)
      → pos 0 ≤ℤ size
      → r.broken ≡ none
      → Fast.read_reply w pooled size r into ≡ Standard.read_reply w pooled size r into
  unfolding Fast.read_reply Standard.read_reply Fast.gunzip Standard.gunzip
  read_reply_same pooled size r into h whole = rw (limited_same size r h whole) (
      bind_same (Standard.limited w size r) _ _
        λ bs e. bind_same _ _ _ λ plain e'. store_same into plain)

  read_answer_same :
      (pooled : Bool) (size : ℤ) (r : Reply) (into : Target)
      → pos 0 ≤ℤ size
      → r.broken ≡ none
      → Fast.read_answer w pooled size r into ≡ Standard.read_answer w pooled size r into
  unfolding Fast.read_answer Standard.read_answer
  read_answer_same pooled size r writer h whole = write_reply_same r whole
  read_answer_same pooled size r string_ptr h whole =
      read_reply_same pooled size r string_ptr h whole
  read_answer_same pooled size r bytes_ptr h whole = read_reply_same pooled size r bytes_ptr h whole
  read_answer_same pooled size r proto_message h whole =
      read_reply_same pooled size r proto_message h whole
  read_answer_same pooled size r other_value h whole =
      read_reply_same pooled size r other_value h whole

  received_same :
      (ns : List (ℕ × Text)) (h : Option Header) → Fast.received w ns h ≡ Standard.received w ns h
  unfolding Fast.received Standard.received
  received_same [] h = refl
  received_same (n ∷ ns) none = refl
  received_same (n ∷ ns) (some h) = refl

  abbrev answer : Option Header → Value V → Answer V
  answer h v = record { header = h; value = v }

  replied_same :
      (pooled : Bool) (size : ℤ) (res : OneResponse) (x : ℕ ⊎ Reply)
      → pos 0 ≤ℤ size
      → ((r : Reply) → x ≡ inr r → r.broken ≡ none)
      → (of_result x >>= λ r. Fast.received w r.header res.header >>= λ h.
          Fast.read_answer w pooled size r res.res >>= λ v. returns (answer h v))
        ≡ (of_result x >>= λ r. Standard.received w r.header res.header >>= λ h.
            Standard.read_answer w pooled size r res.res >>= λ v. returns (answer h v))
  replied_same pooled size res (inl e) limit whole = refl
  replied_same pooled size res (inr r) limit whole =
      rw
        (
          received_same r.header res.header,
          read_answer_same pooled size r res.res limit (whole r refl),
        )
        refl

  -- On a URL without a question mark and a limit that is not negative, and if net/http takes the request,
  -- and both libraries bring back the same reply to what is sent, with a whole body, both clients end in
  -- the same way: with the same answer, the same error or a panic. The libraries differ where net/http
  -- follows a redirect or unpacks a body by itself, and fasthttp does not.
  pub fast-standard :
      (by_fasthttp by_http : Sent → ℕ ⊎ Reply) (pooled : Bool) (req : OneRequest Q P J)
      (res : OneResponse)
      → contains b'?' req.url ≡ false
      → pos 0 ≤ℤ req.max_res_body_size
      → new_request req.method (Standard.full_url w req.url req.query) ≡ none
      → ((p : Payload)
          → Standard.payload w req.content_type req.max_log_body_size req.body ≡ returns p
          → by_fasthttp (Standard.sent w req p) ≡ by_http (Standard.sent w req p))
      → ((p : Payload) (r : Reply)
          → Standard.payload w req.content_type req.max_log_body_size req.body ≡ returns p
          → by_http (Standard.sent w req p) ≡ inr r
          → r.broken ≡ none)
      → Fast.do_request w by_fasthttp pooled req res ≡ Standard.do_request w by_http pooled req res
  unfolding Fast.do_request Standard.do_request
  fast-standard by_fasthttp by_http pooled req res plain limit taken same whole =
      rw
        (
          payload_same req.content_type req.max_log_body_size req.body,
          taken,
          full_url_same req.url req.query plain,
          full_header_same req.header req.content_type,
        )
        (bind_same (Standard.payload w req.content_type req.max_log_body_size req.body) _ _ λ p e.
          rw (same p e) (
            replied_same pooled req.max_res_body_size res (by_http (Standard.sent w req p)) limit
              (λ r. whole p r e)))

  -- A call leaves the query in the URL of its request: called twice, with a URL without a question mark
  -- and a query that is not empty, the standard client sends the query two times.
  calling_twice_repeats_query :
      (req : OneRequest Q P J) (q : Q)
      → contains b'?' req.url ≡ false
      → req.query ≡ some q
      → query_is_empty q ≡ false
      → (Standard.sent w (Standard.request_after w req) Payload.nothing).url
        ≡ (req.url ++ b'?' ∷ encode_query q) ++ b'&' ∷ encode_query q
  unfolding Standard.request_after Standard.full_url
  calling_twice_repeats_query req q plain has some_query =
      rw (has, some_query, plain, contains_query req.url (encode_query q)) refl

min_ℤ-le : (a b c : ℤ) → a ≤ℤ c → min_ℤ a b ≤ℤ c
min_ℤ-le a b c h = ground arith

module _ {Q P J V : Type 0} (w : Libraries Q P J V) where
  apply_settings-timeout :
      (r : OneRequest Q P J) (ss : List (ReqSetting Q P J))
      → r.timeout ≤ℤ default_timeout
      → (apply_settings r ss).timeout ≤ℤ default_timeout
  unfolding apply_settings
  apply_settings-timeout r [] h = h
  apply_settings-timeout r (s ∷ ss) h = apply_settings-timeout (apply r s) ss (applied s)
    where
      applied : (s : ReqSetting Q P J) → (apply r s).timeout ≤ℤ default_timeout
      applied (with_timeout t) = min_ℤ-le r.timeout t default_timeout h
      applied _ = h

  call_timeout_bounds :
      (req : OneRequest Q P J)
      → req.timeout ≤ℤ default_timeout
      → let t = Standard.call_timeout w req in (t ≤ℤ default_timeout) × (t ≢ pos 0)
  unfolding Standard.call_timeout
  call_timeout_bounds req h = ground arith

  -- Whatever the settings, a new request runs for an hour at most, and never without a timeout.
  new_request_timeout :
      (nil_body : J) (method url : Text) (ss : List (ReqSetting Q P J))
      → let t = Standard.call_timeout w (new_one_request nil_body method url ss) in
        (t ≤ℤ default_timeout) × (t ≢ pos 0)
  unfolding new_one_request
  new_request_timeout nil_body method url ss =
      call_timeout_bounds (new_one_request nil_body method url ss)
        (apply_settings-timeout _ ss (omega arith))
