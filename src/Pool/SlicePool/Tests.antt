-- ===== src/Pool/SlicePool/Tests.antt =====
-- onepool/slice.go: runs of the pool at concrete inputs.
use eins.Prelude.{
  zero, suc, ◌<◌, ◌≢◌, ◌≤◌, count, ℕ_discrete, ℕ, ◌+◌, ◌≡◌, refl, true, false, some, List, [], ◌∷◌,
  length, arith, keep_if, ◌⊎◌, inl,
}
use mathlib.Core.List.{Perm}
use eins.Prelude.Int.{pos, ◌≤ℤ◌, ◌-ℤ◌}
use eins.Prelude.Family.{total}
use eins.Pool.{Config, Item}
use eins.Pool.SlicePool.{SlicePool, new_slice, conns, put, put_item, place_item, pick_key}
use eins.Pool.SlicePool.Session.{
  outside, get, get_entry, pop_free, request, proceed, put_back, ctx_done, dial_ok, session_step,
  holding,
}
use eins.Pool.SlicePool.System.{System, runs, Reach, begins, later, after_turn, start}
use eins.Pool.SlicePool.Accounting.{slice_active_counts, stock, places, opener_places}
use eins.Pool.SlicePool.Ownership.{Owns, holds, stocked, slice-Owns, slice_held_exclusive}
use eins.Pool.Order.{puts, takes}
use eins.Pool.SlicePool.{max_idle}
use eins.Pool.SlicePool.Queue.{IsQueue, run, run-queue}
use eins.Pool.SlicePool.Waiting.{slice_waits_full}
use eins.Pool.SlicePool.Limits.{slice_active_bounded}
use eins.Pool.SlicePool.Cleaning.{stale, fresh, clean_pass, clean_pass_lem}
use eins.Pool.SlicePool.Settings.{
  Guarded, set_idle, set_idle_trims, returns, IsTrimmed, reload, reload_never_returns, blocks,
  panics,
}
use eins.Pool.SlicePool.Abandoned.{Elsewhere, IsAbandoned, Step-IsAbandoned}

abbrev pub two : Config
two = record {
  active = pos 2;
  idle = pos 1;
  idle_timeout = pos 10;
  wait_timeout = pos 0;
  wait = true;
}

abbrev pub new_pool : SlicePool
new_pool = record {
  closed = false;
  active = pos 0;
  free = [];
  requests = [];
  mail = [];
  closed_keys = [];
  next_request = 0;
  opener = 0;
  cleaner_ch = true;
  conf = two;
}

pub two_pool_made : new_slice (some two) ≡ some new_pool
unfolding new_slice
two_pool_made = refl

-- The first goroutine calls `Get`, has to dial, and has the item 7.
abbrev pub asked : System
asked = after_turn (start new_pool) 0 (session_step new_pool 5 outside get)

abbrev pub served : System
served = after_turn asked 0 (session_step asked.pool 6 (asked.sessions 0) (dial_ok 7))

served-Reach : Reach 2 two served
served-Reach =
    later (later (begins new_pool two_pool_made) (runs 0 5 get (omega arith)))
      (runs 0 6 (dial_ok 7) (omega arith))

served_open : served.pool.closed ≡ false
unfolding session_step ℕ_discrete
served_open = refl

slice_active_counts_example :
    served.pool.active
    ≡ pos (stock served.pool + (opener_places served.opener + total places 2 served.sessions))
slice_active_counts_example = slice_active_counts served-Reach served_open

slice_active_bounded_example : served.pool.active ≤ℤ pos 3
slice_active_bounded_example = slice_active_bounded served-Reach (ground arith)

-- Three free items, the first and the last of which are stale at the time 15.
abbrev at_time : ℕ → ℕ → Item
at_time t c = record { created_at = t; c = c }

abbrev filled : SlicePool
filled = record new_pool { active = pos 3; free = at_time 1 3 ∷ at_time 8 4 ∷ at_time 2 5 ∷ [] }

clean_pass_example :
    let (r, stops) = clean_pass filled 15 in
    (stops ≡ false)
    × Perm r.pool.free (keep_if (fresh 15 (pos 10)) filled.free)
    × Perm r.closes (conns (keep_if (stale 15 (pos 10)) filled.free))
    × (r.pool ≡ record filled {
      free = r.pool.free;
      active = pos 3 -ℤ pos (length (keep_if (stale 15 (pos 10)) filled.free));
    })
clean_pass_example = clean_pass_lem filled 15 refl (ground arith)

set_idle_trims_example :
    (q : SlicePool) × (shut : List ℕ) × (set_idle
        (record { locked = false; pool = filled; shut = [] })
        (pos 1)
      ≡ returns (record { locked = false; pool = q; shut = shut }))
    × IsTrimmed (pos 1) filled q shut
set_idle_trims_example = set_idle_trims filled (pos 1)

abbrev unlocked : Guarded
unlocked = record { locked = false; pool = filled; shut = [] }

reload_never_returns_example :
    (reload unlocked two ≡ blocks) ⊎ ((reload unlocked two ≡ panics) × (filled.closed ≡ true))
reload_never_returns_example = reload_never_returns unlocked two

slice-Owns_example : Owns 7 2 served
slice-Owns_example = slice-Owns 7 served-Reach

served_first : served.sessions 0 ≡ holding 7
unfolding session_step ℕ_discrete
served_first = refl

served_once : count 7 served.opened ≤ 1
unfolding session_step ℕ_discrete
served_once = omega arith

slice_held_exclusive_example :
    (served.sessions 1 ≢ holding 7) × (stocked 7 served.pool ≡ 0) × (count 7 served.shut ≡ 0)
slice_held_exclusive_example =
    slice_held_exclusive 0 1 7 served-Reach served_once (omega arith) (omega arith)
      (λ e. ground arith) served_first

-- Of three goroutines the second dials and the third has to wait.
abbrev second_asked : System
second_asked = after_turn served 1 (session_step served.pool 7 (served.sessions 1) get)

abbrev third_waits : System
third_waits =
    after_turn second_asked 2 (session_step second_asked.pool 8 (second_asked.sessions 2) get)

third_waits-Reach : Reach 3 two third_waits
third_waits-Reach =
    later
      (later
        (later (later (begins new_pool two_pool_made) (runs 0 5 get (omega arith)))
          (runs 0 6 (dial_ok 7) (omega arith)))
        (runs 1 7 get (omega arith)))
      (runs 2 8 get (omega arith))

third_waits_open : third_waits.pool.closed ≡ false
unfolding session_step get_entry pop_free request ℕ_discrete
third_waits_open = refl

third_asked : third_waits.pool.requests ≡ 0 ∷ []
unfolding session_step get_entry pop_free request ℕ_discrete
third_asked = refl

slice_waits_full_example :
    let p = third_waits.pool in
    (p.free ≡ [])
    × (pos 1 ≤ℤ p.conf.active)
    × (p.conf.active
        ≤ℤ pos (
            length p.mail
            + p.opener
            + (opener_places third_waits.opener + total places 3 third_waits.sessions)))
slice_waits_full_example =
    slice_waits_full third_waits-Reach third_waits_open (λ e. ground (arith, third_asked))

-- Room for one free item of two, which never expires.
abbrev timeless : SlicePool
timeless = record new_pool { active = pos 2; conf = record two { idle_timeout = pos 0 } }

timeless-IsQueue : IsQueue 1 timeless
unfolding max_idle
timeless-IsQueue = record {
  opened = refl;
  room = refl;
  timeless = ground arith;
  nobody_waits = refl;
  within = ground arith;
}

-- The item 9 finds no room behind 8.
run-queue_example :
    let cs = puts 8 ∷ puts 9 ∷ takes ∷ puts 7 ∷ takes ∷ [] in
    ((run 5 timeless cs).0 ≡ 8 ∷ 7 ∷ []) × (conns (run 5 timeless cs).1.free ≡ [])
unfolding ℕ_discrete
run-queue_example =
    run-queue timeless 5 (puts 8 ∷ puts 9 ∷ takes ∷ puts 7 ∷ takes ∷ []) timeless-IsQueue refl

-- The first puts its item back, which is sent to the third; but the context of that one ends.
abbrev third_sent : System
third_sent =
    after_turn third_waits 0
      (session_step third_waits.pool 9 (third_waits.sessions 0) (put_back 0 false))

abbrev third_left : System
third_left =
    after_turn third_sent 2 (session_step third_sent.pool 10 (third_sent.sessions 2) ctx_done)

abbrev third_gone : System
third_gone =
    after_turn third_left 2 (session_step third_left.pool 11 (third_left.sessions 2) proceed)

third_left-Reach : Reach 3 two third_left
third_left-Reach =
    later (later third_waits-Reach (runs 0 9 (put_back 0 false) (omega arith)))
      (runs 2 10 ctx_done (omega arith))

third_left-IsAbandoned : IsAbandoned 3 0 (at_time 9 7) third_left
unfolding session_step get_entry pop_free request put put_item place_item pick_key ℕ_discrete
third_left-IsAbandoned = record { stuck = (inl (refl, refl), omega arith); nobody = elsewhere }
  where
    elsewhere : (j : ℕ) → j < 3 → Elsewhere 0 (third_left.sessions j)
    elsewhere zero h = tt
    elsewhere (suc zero) h = tt
    elsewhere (suc (suc zero)) h = tt
    elsewhere (suc (suc (suc j))) h = absurd (omega arith)

opened_once : count 7 third_gone.opened ≤ 1
unfolding session_step get_entry pop_free request put put_item place_item pick_key ℕ_discrete
opened_once = omega arith

Step-IsAbandoned_example :
    IsAbandoned 3 0 (at_time 9 7) third_gone
    × (total (holds 7) 3 third_gone.sessions ≡ 0)
    × (count 7 third_gone.shut ≡ 0)
Step-IsAbandoned_example =
    Step-IsAbandoned third_left-Reach (runs 2 11 proceed (omega arith)) opened_once
      third_left-IsAbandoned
