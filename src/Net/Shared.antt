-- ===== src/Net/Shared.antt =====
-- onenet/global.go: the clients that a process shares, as their settings; times are in minutes.
use eins.Prelude.{ℕ, ◌≡◌, refl, Bool, true, false}

-- The settings of `http.Client` with its transport, and of `fasthttp.Client`.
pub record StandardClient : Type 0 where
  pub max_idle_conns_per_host : ℕ
  pub max_conns_per_host : ℕ
  pub idle_conn_timeout : ℕ
  pub insecure_skip_verify : Bool
  pub timeout : ℕ

pub record FastClient : Type 0 where
  pub max_conns_per_host : ℕ
  pub max_idle_conn_duration : ℕ
  pub read_timeout : ℕ
  pub write_timeout : ℕ
  pub insecure_skip_verify : Bool

-- `stdCli`, `stdInsecureCli`, `fastCli` and `fastInsecureCli`. `defaultTimeout` is an hour.
abbrev std_cli : StandardClient
std_cli = record {
  max_idle_conns_per_host = 1024;
  max_conns_per_host = 16384;
  idle_conn_timeout = 10;
  insecure_skip_verify = false;
  timeout = 60;
}

abbrev std_insecure_cli : StandardClient
std_insecure_cli = record {
  max_idle_conns_per_host = 1024;
  max_conns_per_host = 16384;
  idle_conn_timeout = 10;
  insecure_skip_verify = true;
  timeout = 60;
}

abbrev fast_cli : FastClient
fast_cli = record {
  max_conns_per_host = 16384;
  max_idle_conn_duration = 10;
  read_timeout = 60;
  write_timeout = 60;
  insecure_skip_verify = false;
}

abbrev fast_insecure_cli : FastClient
fast_insecure_cli = record {
  max_conns_per_host = 16384;
  max_idle_conn_duration = 10;
  read_timeout = 60;
  write_timeout = 60;
  insecure_skip_verify = true;
}

-- `GetStd` hands out the insecure client, and so does `GetStdInsecure`.
abbrev get_std : StandardClient
get_std = std_insecure_cli

abbrev get_std_insecure : StandardClient
get_std_insecure = std_insecure_cli

abbrev get_fast : FastClient
get_fast = fast_cli

abbrev get_fast_insecure : FastClient
get_fast_insecure = fast_insecure_cli

-- No standard client that is handed out verifies certificates, where the fast one does unless asked not to.
std_never_verifies :
    (get_std.insecure_skip_verify ≡ true)
    × (get_std_insecure.insecure_skip_verify ≡ true)
    × (get_fast.insecure_skip_verify ≡ false)
std_never_verifies = (refl, refl, refl)
