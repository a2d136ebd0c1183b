-- ===== src/Sql/Connections.antt =====
-- onesql/fastsql.go, manager.go, oneredis/redis.go, onees/onees.go: `ComplexSelect` and `ComplexExec` on
-- a database, and the connections to databases, Redis and Elasticsearch. The libraries are parameters.
use eins.Prelude.{ℕ, ◌*◌, true, Option, none, some, ◌⊎◌, inl, inr}
use eins.Prelude.Ending.{Ending, returns, panics}
use eins.Dao.{SqlError, Run, Driver, stop}

module _ {D Q R X : Type 0} (w : Driver D Q R X) where
  open w use {query, exec}

  -- `dbx.QueryContext` gives rows whenever it gives no error; nil rows would panic at their `Close`.
  unfoldable pub bind_rows :
      (R → Option SqlError) → D → Option SqlError → Option R → Run D (Unit {0})
  bind_rows bind d (some e) rows = stop d tt (some e)
  bind_rows bind d none none = record (stop d tt none) { panics = true }
  bind_rows bind d none (some r) = record (stop d tt (bind r)) { opens = 1; closes = 1 }

  -- `ComplexSelect`, for what `ToSql` returned.
  unfoldable pub complex_select : (R → Option SqlError) → D → SqlError ⊎ Q → Run D (Unit {0})
  unfolding bind_rows
  complex_select bind d (inl e) = stop d tt (some e)
  complex_select bind d (inr q) = let ((err, rows), d') = query d q in bind_rows bind d' err rows

  -- `ComplexExec`.
  unfoldable pub constructor_exec : D → SqlError ⊎ Q → Run D (Unit {0})
  constructor_exec d (inl e) = stop d tt (some e)
  constructor_exec d (inr q) = let ((err, result), d') = exec d q in stop d' tt err

-- The settings of a pool of connections that `Connect` makes; times are in minutes.
pub record DbSettings : Type 0 where
  pub conn_max_idle_time : ℕ
  pub conn_max_lifetime : ℕ
  pub max_idle_conns : ℕ
  pub max_open_conns : ℕ

abbrev mysql_settings : DbSettings
mysql_settings = record {
  conn_max_idle_time = 10;
  conn_max_lifetime = 30;
  max_idle_conns = 128;
  max_open_conns = 1024 * 16;
}

module _ {B : Type 0} where
  -- `Connect` of onesql: `sql.Open`, and the settings.
  unfoldable pub connect : (ℕ → ℕ ⊎ B) → (B → DbSettings → B) → ℕ → ℕ ⊎ B
  connect sql_open configure dsn = elim (sql_open dsn) [
    | inl e ↦ inl e
    | inr db ↦ inr (configure db mysql_settings)
  ]

  -- What every `MustConnect` makes of the result of its `Connect`.
  unfoldable pub must_connect : ℕ ⊎ B → Ending ℕ B
  must_connect (inl e) = panics
  must_connect (inr b) = returns b

  -- `Connect` of oneredis: `redis.ParseURL` and `redis.NewClient`.
  unfoldable redis_connect : {O : Type 0} → (ℕ → ℕ ⊎ O) → (O → B) → ℕ → ℕ ⊎ B
  redis_connect parse_url new_client dsn = elim (parse_url dsn) [
    | inl e ↦ inl e
    | inr options ↦ inr (new_client options)
  ]
