-- ===== src/Pool/ListPool/Tests.antt =====
-- onepool/list.go: runs of the pool at concrete inputs.
use eins.Prelude.{
  ℕ_discrete, ◌≡◌, ◌≢◌, ◌≤◌, refl, true, false, some, List, [], ◌∷◌, length, arith, count, ◌⊎◌,
}
use eins.Prelude.Int.{pos, ◌≤ℤ◌}
use eins.Prelude.Family.{update}
use eins.Pool.{Config, Item, expired}
use eins.Pool.Order.{puts, takes}
use eins.Pool.ListPool.Stack.{IsStack, run, run-stack}
use eins.Pool.ListPool.{ListPool, sleeping, new_list, conns}
use eins.Pool.ListPool.Session.{
  Session, outside, dialing, parking, waiting, holding, get, dial_ok, session_step,
}
use eins.Pool.ListPool.System.{System, Step, runs, Reach, Lasts, after_turn, start}
use eins.Pool.ListPool.Accounting.{Counts, Reach-Counts}
use eins.Pool.ListPool.Ownership.{Owns, Reach-Owns, held_exclusive}
use eins.Pool.ListPool.Limits.{list_within_limits}
use eins.Pool.ListPool.Alone.{get_alone, get_alone_fresh, dropped}
use eins.Pool.ListPool.Wakeup.{lost_wakeup}

abbrev two : Config
two = record {
  active = pos 2;
  idle = pos 1;
  idle_timeout = pos 10;
  wait_timeout = pos 0;
  wait = true;
}

abbrev new_pool : ListPool
new_pool = record {
  closed = false;
  active = pos 0;
  cleaner_ch = some false;
  cleaner = sleeping;
  idles = [];
  conf = two;
}

two_pool_made : new_list (some two) ≡ some new_pool
unfolding new_list
two_pool_made = refl

-- The first goroutine calls `Get` and has to dial.
abbrev asked : System
asked = after_turn (start new_pool) 0 0 (session_step new_pool 5 outside get)

abbrev first_dials : Session
first_dials = (session_step new_pool 5 outside get).session

asked_dials : first_dials ≡ dialing
unfolding session_step
asked_dials = refl

-- It has the item 7.
abbrev served : System
served = after_turn asked 0 0 (session_step asked.pool 6 (asked.sessions 0) (dial_ok 7))

ask : Step 2 (start new_pool) asked
unfolding session_step
ask = runs 0 0 5 get (omega arith) (omega arith) (λ k hk w. ground arith)

serve : Step 2 asked served
unfolding session_step
serve = runs 0 0 6 (dial_ok 7) (omega arith) (omega arith) (λ k hk w. ground arith)

served-Reach : Reach 2 two served
served-Reach = Reach.later (Reach.later (Reach.begins new_pool two_pool_made) ask) serve

served-Lasts : Lasts 2 two served
unfolding session_step ℕ_discrete
served-Lasts = Lasts.later (Lasts.later (Lasts.begins new_pool two_pool_made) ask refl) serve refl

Reach-Counts_example : Counts 2 served
Reach-Counts_example = Reach-Counts served-Reach

Reach-Owns_example : Owns 7 2 served
Reach-Owns_example = Reach-Owns 7 served-Reach

served_once : count 7 served.opened ≤ 1
unfolding session_step ℕ_discrete
served_once = omega arith

served_holds : served.sessions 0 ≡ holding 7
unfolding session_step ℕ_discrete
served_holds = refl

held_exclusive_example :
    (served.sessions 1 ≢ holding 7)
    × (count 7 (conns served.pool.idles) ≡ 0)
    × (count 7 served.shut ≡ 0)
held_exclusive_example =
    held_exclusive 0 1 7 served-Reach served_once (omega arith) (omega arith) (λ e. ground arith)
      served_holds

list_within_limits_example :
    (served.pool.active ≤ℤ pos 2)
    × (length served.pool.idles ≤ 1)
    × ((served.pool.closed ≡ false) ⊎ (served.pool.idles ≡ []))
list_within_limits_example = list_within_limits served-Lasts (ground arith)

-- One idle item from the time 1, and one from the time 8.
abbrev old_item : Item
old_item = record { created_at = 1; c = 3 }

abbrev young_item : Item
young_item = record { created_at = 8; c = 4 }

abbrev pool_of : List Item → ListPool
pool_of is = record new_pool { active = pos 2; idles = is }

old_expired : expired 15 (pos 10) old_item ≡ true
unfolding expired
old_expired = refl

young_good : expired 15 (pos 10) young_item ≡ false
unfolding expired
young_good = refl

get_alone_fresh_example : get_alone 9 15 (pool_of (old_item ∷ young_item ∷ [])) ≡ record {
  pool = dropped (pool_of (old_item ∷ young_item ∷ [])) 1 [];
  session = holding 4;
  shut = 3 ∷ [];
}
get_alone_fresh_example =
    get_alone_fresh (pool_of (old_item ∷ young_item ∷ [])) 15 9 (old_item ∷ []) [] young_item refl
      refl (old_expired, tt) young_good (omega arith)

-- The first goroutine holds the item 7, the second one is elsewhere.
abbrev beside : Session → System
beside s = record {
  pool = pool_of [];
  sessions = update (λ _. s) 0 (holding 7);
  opened = [];
  shut = [];
}

lost_wakeup_example :
    (u t : System) × Step 2 (beside parking) u
    × Step 2 u t
    × (t.sessions 1 ≡ waiting)
    × (t.pool.idles ≡ record { created_at = 9; c = 7 } ∷ [])
unfolding ℕ_discrete
lost_wakeup_example =
    lost_wakeup 2 (beside parking) 1 0 9 7 (omega arith) (omega arith) (λ e. ground arith) refl refl
      (λ k hk w. ground arith) refl (ground arith)

-- Room for one idle item, which never expires.
abbrev timeless : ListPool
timeless = record new_pool { active = pos 2; conf = record two { idle_timeout = pos 0 } }

timeless-IsStack : IsStack 1 timeless
timeless-IsStack = record {
  opened = refl;
  room = refl;
  timeless = ground arith;
  bounded = omega arith;
}

-- The item 9 drives out 8.
run-stack_example :
    let cs = puts 8 ∷ puts 9 ∷ takes ∷ puts 7 ∷ takes ∷ [] in
    ((run 5 timeless cs).0 ≡ 9 ∷ 7 ∷ []) × (conns (run 5 timeless cs).1.idles ≡ [])
run-stack_example =
    run-stack timeless 5 (puts 8 ∷ puts 9 ∷ takes ∷ puts 7 ∷ takes ∷ []) timeless-IsStack refl
