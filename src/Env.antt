-- ===== src/Env.antt =====
-- oneenv/env.go: the environment that a service runs in. Texts are known by numbers, the empty one by 0.
use eins.Prelude.{ℕ, Bool, Option, if◌then◌else◌, ◌==◌}

-- `EnvDev`, `EnvTest`, `EnvPre` and `EnvProd`.
abbrev pub env_dev : ℕ
env_dev = 1

abbrev pub env_test : ℕ
env_test = 2

abbrev pub env_pre : ℕ
env_pre = 3

abbrev pub env_prod : ℕ
env_prod = 4

-- `Environment`, with its getters as fields.
pub record Environment : Type 0 where
  pub env : ℕ
  pub app : ℕ

abbrev pub is_prod : Environment → Bool
is_prod c = c.env == env_prod

abbrev is_pre : Environment → Bool
is_pre c = c.env == env_pre

abbrev is_test : Environment → Bool
is_test c = c.env == env_test

abbrev is_dev : Environment → Bool
is_dev c = c.env == env_dev

-- `Init`, which hands `envconfig` a copy: `process` is what the library says to a struct that is no pointer.
abbrev init : (Environment → Option ℕ) → Environment → Option ℕ
init process env = process env

-- `GetEnvWithDefault`.
unfoldable get_env_with_default : (ℕ → ℕ) → ℕ → ℕ → ℕ
get_env_with_default get_env key default_value =
    let val = get_env key in if val == 0 then default_value else val
