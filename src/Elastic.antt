-- ===== src/Elastic.antt =====
-- onees/onees.go: the options of the client for Elasticsearch. The library is a parameter; texts are known by
-- numbers, and times are in seconds. The log of errors and the proxy of the environment are left out.
use eins.Prelude.{ℕ, Bool, true, false, ◌⊎◌}
use eins.Prelude.Ending.{Ending}
use eins.Sql.Connections.{must_connect}

-- `http.Client` with its transport and its dialer.
pub record HttpClient : Type 0 where
  pub dial_timeout : ℕ
  pub keep_alive : ℕ
  pub force_attempt_http2 : Bool
  pub max_idle_conns_per_host : ℕ
  pub idle_conn_timeout : ℕ
  pub tls_handshake_timeout : ℕ
  pub expect_continue_timeout : ℕ
  pub timeout : ℕ

-- What `elastic.NewClient` is given.
pub record Options : Type 0 where
  pub url : ℕ
  pub user : ℕ
  pub pwd : ℕ
  pub healthcheck : Bool
  pub gzip : Bool
  pub sniff : Bool
  pub http_client : HttpClient

abbrev http_settings : HttpClient
http_settings = record {
  dial_timeout = 30;
  keep_alive = 30;
  force_attempt_http2 = true;
  max_idle_conns_per_host = 1024;
  idle_conn_timeout = 90;
  tls_handshake_timeout = 10;
  expect_continue_timeout = 1;
  timeout = 10;
}

module _ {B : Type 0} (new_client : Options → ℕ ⊎ B) where
  -- `Connect`.
  unfoldable pub connect : ℕ → ℕ → ℕ → ℕ ⊎ B
  connect dsn user pwd = new_client (record {
    url = dsn;
    user = user;
    pwd = pwd;
    healthcheck = false;
    gzip = true;
    sniff = false;
    http_client = http_settings;
  })

  -- `MustConnect`.
  unfoldable connect_or_panic : ℕ → ℕ → ℕ → Ending ℕ B
  unfolding connect must_connect
  connect_or_panic dsn user pwd = must_connect (connect dsn user pwd)
