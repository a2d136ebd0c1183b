-- ===== src/Watchdog/Lease/Tests.antt =====
-- watchdog/impl.go: runs against a Redis with one key and a clock.
use eins.Prelude.{
  ℕ, ◌+◌, ◌/◌, ◌≡◌, ◌≤◌, ◌<◌, refl, get_elem?, Bool, true, false, Option, none, some, arith,
  if◌then◌else◌, ltb, ℕ_discrete,
}
use eins.Watchdog.{Client, Watcher, lock, watch, watch_wake}
use eins.Prelude.Family.{update}
use eins.Watchdog.Exclusion.{after_lock, after_wake, wins}
use eins.Watchdog.Lease.{IsExpiring, Leased, Step, Reach}
use eins.Watchdog.Instance.{new_dog}
use eins.Watchdog.Lease.Dogs.{IsLive}
use eins.Watchdog.Lease.Kept.{lease_kept}

record Server : Type 0 where
  deadline : Option ℕ
  time : ℕ

abbrev alive : Server → Bool
alive r = elim r.deadline [ none ↦ false | some d ↦ ltb r.time d ]

abbrev server : Client Server
server = record {
  set_nx = λ r k v dur.
      if alive r
      then ((none, false), r)
      else ((none, true), record r { deadline = some (r.time + dur) });
  del = λ r k. (none, record r { deadline = none });
  expire = λ r k dur.
      if alive r
      then ((none, true), record r { deadline = some (r.time + dur) })
      else ((none, false), r);
}

abbrev deadline_of : Server → Option ℕ
deadline_of r = r.deadline

abbrev time_of : Server → ℕ
time_of r = r.time

abbrev wait_until : Server → ℕ → Server
wait_until r now = record r { time = now }

server-IsExpiring : IsExpiring server 5 deadline_of time_of wait_until
server-IsExpiring = record {
  set_absent = λ r v dur won there. ground arith;
  set_there = λ r v dur won. ground arith;
  set_keeps = λ r v dur there before. ground arith;
  set_time = λ r v dur. ground arith;
  expire_renews = λ r dur there before. ground arith;
  expire_time = λ r dur. ground arith;
  wait_time = λ r now. refl;
  wait_keeps = λ r now there before. there;
}

abbrev nobody : Leased Server
nobody = record {
  system = record {
    redis = record { deadline = none; time = 3 };
    dogs = λ i. new_dog;
    owns = λ i. false;
  };
  due = λ i. 0;
  over = λ c. false;
}

abbrev after_locks : Leased Server → ℕ → Leased Server
after_locks x i = record x {
  system = after_lock server 5 x.system i 2 1 70;
  due =
      if wins server 5 x.system.redis 1 70
      then update x.due i (x.system.redis.time + 70 / 7)
      else x.due;
}

abbrev after_wait : Leased Server → ℕ → Leased Server
after_wait x now = record x { system = record x.system { redis = wait_until x.system.redis now } }

-- The first wins the key at 3, and its ticker is due at 13.
abbrev first_waits : Leased Server
first_waits = after_wait (after_locks nobody 0) 13

abbrev first_watcher : Watcher
first_watcher = record { ctx = 0; parent = 2; key = 5; dur = 70 }

abbrev first_renews : Leased Server
first_renews = record first_waits {
  system = after_wake server 5 first_waits.system first_waits.over 0 0 first_watcher true;
  due = update first_waits.due 0 (first_waits.system.redis.time + 70 / 7);
}

-- The second one tries, and the time passes to the next turn of the ticker.
abbrev second_tried : Leased Server
second_tried = after_wait (after_locks first_renews 1) 23

first_due : (i : ℕ) → first_waits.system.owns i ≡ true → 13 ≤ first_waits.due i
first_due i mine = ground arith

first_there : get_elem? (first_waits.system.dogs 0).watchers 0 ≡ some first_watcher
unfolding lock watch ℕ_discrete
first_there = refl

first_cancels : (first_waits.system.dogs 0).cancel ≡ some 0
unfolding lock watch ℕ_discrete
first_cancels = refl

still_due :
    (i : ℕ)
    → (after_locks first_renews 1).system.owns i ≡ true
    → 23 ≤ (after_locks first_renews 1).due i
unfolding lock watch watch_wake ℕ_discrete
still_due i mine = ground arith

third_now : (after_locks first_renews 1).system.redis.time ≡ 13
unfolding lock watch watch_wake ℕ_discrete
third_now = refl

second_tried-Reach : Reach server 5 70 time_of wait_until second_tried
unfolding lock
second_tried-Reach =
    Reach.later
      (Reach.later
        (Reach.later
          (Reach.later
            (Reach.later (Reach.begins nobody (λ i. refl) (λ i. refl)) (Step.locks 0 2 1 refl))
            (Step.passes 13 (omega arith) first_due))
          (Step.ticks 0 0 first_watcher first_there first_cancels))
        (Step.locks 1 2 1 refl))
      (Step.passes 23 (omega (arith, third_now)) still_due)

first_owns : second_tried.system.owns 0 ≡ true
unfolding lock watch watch_wake ℕ_discrete
first_owns = refl

lease_kept_example :
    (◌≡◌ {A = ℕ} 0 0)
    × IsLive second_tried.over (second_tried.system.dogs 0)
    × ((d : ℕ) × (second_tried.system.redis.deadline ≡ some d)
        × (second_tried.system.redis.time ≤ second_tried.due 0)
        × (second_tried.due 0 < d))
lease_kept_example =
    lease_kept server-IsExpiring (omega arith) second_tried-Reach 0 0 first_owns first_owns
