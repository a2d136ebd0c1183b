-- ===== src/Pool/SlicePool/Cleaner/Tests.antt =====
-- An item that is put back just after the cleaner has gone to sleep.
use eins.Prelude.{◌≡◌, refl, false, some, arith, get_elem?, ℕ_discrete}
use eins.Prelude.Int.{pos, ◌+ℤ◌, ◌≤ℤ◌}
use eins.Pool.SlicePool.Session.{session_step, get, dial_ok, put_back, get_entry, pop_free, request}
use eins.Pool.SlicePool.{put, put_item, place_item, max_idle}
use eins.Pool.SlicePool.System.{System, after_turn, runs}
use eins.Pool.SlicePool.Tests.{two, new_pool, two_pool_made, served}
use eins.Pool.SlicePool.Cleaner.{
  Clocked, interval, start_cleaner, Runs, begins, later, passes, acts,
}
use eins.Pool.SlicePool.Cleaner.Ages.{free_ages}

abbrev returned_item : System
returned_item =
    after_turn served 0 (session_step served.pool 6 (served.sessions 0) (put_back 0 false))

-- The timer is about to fire.
abbrev before_turn : Clocked
before_turn = record {
  system = returned_item;
  cleaner = start_cleaner 5 two.idle_timeout;
  clock = 100000005;
}

before_turn-Runs : Runs 2 two before_turn
unfolding start_cleaner
before_turn-Runs =
    later
      (later
        (later
          (later (later (begins new_pool 5 two_pool_made) (acts (runs 0 5 get (omega arith)) refl))
            (passes 6 (omega arith) (omega arith)))
          (acts (runs 0 6 (dial_ok 7) (omega arith)) refl))
        (acts (runs 0 6 (put_back 0 false) (omega arith)) refl))
      (passes 100000005 (omega arith) (omega arith))

returned_first : get_elem? returned_item.pool.free 0 ≡ some (record { created_at = 6; c = 7 })
unfolding session_step get_entry pop_free request put put_item place_item max_idle ℕ_discrete
returned_first = refl

free_ages_example : pos 100000005 ≤ℤ pos 6 +ℤ (pos 10 +ℤ interval (pos 10))
free_ages_example = free_ages before_turn-Runs (omega arith) 0 returned_first
