-- ===== src/Net.antt =====
-- onenet/http.go: the request and its settings. A text is the list of its bytes, the name of a header
-- is a number; `Q`, `P` and `J` are the types of a query, of a proto message and of any other body.
pub mod Wire
pub mod Standard
pub mod Fast
pub mod Calls
pub mod Shared
pub mod Readers
mod Tests
use eins.Prelude.{
  ℕ, ◌≡◌, ◌*◌, Bool, true, false, ◌&&◌, ◌||◌, not, Option, none, some, List, [], ◌∷◌, ◌++◌,
  if◌then◌else◌, ◌==◌,
}
use eins.Prelude.Int.{ℤ, pos, negsuc, ltb_ℤ}

abbrev pub Text : Type 0
Text = List ℕ

abbrev pub same_text : Text → Text → Bool
same_text [] [] = true
same_text (a ∷ rest) (b ∷ bs) = a == b && same_text rest bs
same_text [] (b ∷ bs) = false
same_text (a ∷ rest) [] = false

-- `strings.Contains` of one byte.
abbrev pub contains : ℕ → Text → Bool
contains c [] = false
contains c (d ∷ ds) = d == c || contains c ds

abbrev pub has_name : ℕ → List (ℕ × Text) → Bool
has_name name [] = false
has_name name ((n, v) ∷ hs) = n == name || has_name name hs

-- `AcceptEncodingHeader`, `ContentTypeHeader` and `ContentEncodingHeader`.
abbrev pub accept_encoding : ℕ
accept_encoding = 0

abbrev pub content_type_header : ℕ
content_type_header = 1

abbrev pub content_encoding : ℕ
content_encoding = 2

abbrev pub gzip : Text
gzip = b'g' ∷ b'z' ∷ b'i' ∷ b'p' ∷ []

-- `JsonContentType`, which is `application/json`.
abbrev pub json_content_type : Text
json_content_type =
    b'a' ∷ b'p' ∷ b'p' ∷ b'l' ∷ b'i' ∷ b'c' ∷ b'a' ∷ b't' ∷ b'i' ∷ b'o' ∷ b'n' ∷ b'/' ∷ b'j' ∷ b's'
    ∷ b'o' ∷ b'n' ∷ []

-- `defaultTimeout` is an hour, in nanoseconds.
abbrev pub default_timeout : ℤ
default_timeout = pos 3600000000000

-- The dynamic types of a body that the clients tell apart.
pub data Body (Q P J : Type 0) : Type 0 where
  reader : ℕ → Body Q P J
  form : Q → Body Q P J
  text : Text → Body Q P J
  bytes : Text → Body Q P J
  proto : P → Body Q P J
  other : J → Body Q P J

abbrev pub Header : Type 0
Header = ℕ → Option Text

-- `OneRequest`. A query that was not set is `none`.
pub record OneRequest (Q P J : Type 0) : Type 0 where
  pub method : Text
  pub url : Text
  pub query : Option Q
  pub header : Header
  pub content_type : Text
  pub body : Body Q P J
  pub timeout : ℤ
  pub log_level : Option ℕ
  pub max_log_body_size : ℤ
  pub max_res_body_size : ℤ
  pub prom_key : Text

-- The settings, as the functions `With…` make them.
pub data ReqSetting (Q P J : Type 0) : Type 0 where
  with_gzip : Bool → ReqSetting Q P J
  with_query : Option Q → ReqSetting Q P J
  with_header : Header → ReqSetting Q P J
  with_content_type : Text → ReqSetting Q P J
  with_body : Body Q P J → ReqSetting Q P J
  with_timeout : ℤ → ReqSetting Q P J
  with_log_level : ℕ → ReqSetting Q P J
  with_max_log_body_size : ℤ → ReqSetting Q P J
  with_max_res_body_size : ℤ → ReqSetting Q P J
  with_prom_key : Text → ReqSetting Q P J

abbrev pub set_header : Header → ℕ → Option Text → Header
set_header h name v j = if name == j then v else h j

abbrev pub or_header : Option Text → Option Text → Option Text
or_header (some v) _ = some v
or_header none v = v

-- `maps.Copy`: the source's entries over those of the destination.
abbrev pub copy_header : Header → Header → Header
copy_header dst src j = or_header (src j) (dst j)

abbrev pub min_ℤ : ℤ → ℤ → ℤ
min_ℤ a b = if ltb_ℤ b a then b else a

module _ {Q P J : Type 0} where
  unfoldable pub apply : OneRequest Q P J → ReqSetting Q P J → OneRequest Q P J
  apply r (with_gzip enable) = record r {
    header = set_header r.header accept_encoding (if enable then some gzip else none);
  }
  apply r (with_query q) = record r { query = q }
  apply r (with_header h) = record r { header = copy_header r.header h }
  apply r (with_content_type t) = record r { content_type = t }
  apply r (with_body b) = record r { body = b }
  apply r (with_timeout t) = record r { timeout = min_ℤ r.timeout t }
  apply r (with_log_level l) = record r { log_level = some l }
  apply r (with_max_log_body_size n) = record r { max_log_body_size = n }
  apply r (with_max_res_body_size n) = record r { max_res_body_size = n }
  apply r (with_prom_key k) = record r { prom_key = k }

  unfoldable pub apply_settings : OneRequest Q P J → List (ReqSetting Q P J) → OneRequest Q P J
  unfolding apply
  apply_settings r [] = r
  apply_settings r (s ∷ ss) = apply_settings (apply r s) ss

  -- `NewOneRequest`. `nil_body` is the nil interface.
  unfoldable pub new_one_request : J → Text → Text → List (ReqSetting Q P J) → OneRequest Q P J
  unfolding apply_settings
  new_one_request nil_body method url settings =
      apply_settings
        (record {
          method = method;
          url = url;
          query = none;
          header = set_header (λ _. none) accept_encoding (some gzip);
          content_type = [];
          body = other nil_body;
          timeout = default_timeout;
          log_level = none;
          max_log_body_size = pos 1024;
          max_res_body_size = pos (64 * 1024 * 1024);
          prom_key = [];
        })
        settings
