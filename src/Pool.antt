-- ===== src/Pool.antt =====
-- onepool/pool.go: the configuration, the pooled item, and the errors of both pools.
pub mod Order
pub mod ListPool
pub mod SlicePool
use eins.Prelude.{ℕ, ◌+◌, Bool, ltb, if◌then◌else◌, true, false}
use eins.Prelude.Int.{ℤ, pos, negsuc, leb_ℤ, pos_part}

-- `Config`. Durations are counted in nanoseconds.
pub record Config : Type 0 where
  pub active : ℤ
  pub idle : ℤ
  pub idle_timeout : ℤ
  pub wait_timeout : ℤ
  pub wait : Bool

-- `item`: an `io.Closer` is known by a number.
pub record Item : Type 0 where
  pub created_at : ℕ
  pub c : ℕ

-- The errors that the pools return; `dial` is the error of `New`, `done` that of a context.
pub data PoolError : Type 0 where
  exhausted closed : PoolError
  dial : ℕ → PoolError
  done : PoolError

-- `expired`: the timeout counts from the creation, and the bound itself is not yet late.
unfoldable pub expired : ℕ → ℤ → Item → Bool
expired now timeout i =
    if leb_ℤ timeout (pos 0) then false else ltb (i.created_at + pos_part timeout) now

-- The test that both constructors panic on.
unfoldable pub config_ok : Config → Bool
config_ok conf = leb_ℤ conf.idle conf.active
