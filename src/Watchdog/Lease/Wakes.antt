-- ===== src/Watchdog/Lease/Wakes.antt =====
-- watchdog/impl.go: the turns of the goroutines leave the key with who owns it.
use eins.Prelude.{
  ℕ, ◌+◌, ◌/◌, ◌≡◌, ◌≤◌, refl, ap, ◌∙◌, Bool, ◌||◌, true, false, Option, some, get_elem?, arith,
  Bool-cases, inl, inr,
}
use eins.Prelude.Family.{update}
use eins.Watchdog.{Client, Watcher, Dog, watch_wake, without}
use eins.Watchdog.Exclusion.{after_wake}
use eins.Watchdog.Lease.{IsExpiring, Leased}
use eins.Watchdog.Lease.Dogs.{IsSound, IsLive, without-IsSound, without-IsLive}
use eins.Watchdog.Lease.Calls.{
  Lasts, IsHarmless, Lasts-IsHarmless, IsKept, updated, expire-IsHarmless,
}

module _ {R : Type 0} {client : Client R} {key dur : ℕ} {deadline : R → Option ℕ} {time : R → ℕ}
    {wait : R → ℕ → R} (law : IsExpiring client key deadline time wait) (long : 7 ≤ dur) where
  wake-IsHarmless :
      (w : Dog) (r : R) (over : ℕ → Bool) (g : Watcher) (by_ticker : Bool)
      → (g.key ≡ key) × (g.dur ≡ dur)
      → IsHarmless deadline time dur r (watch_wake client w r over g by_ticker).1
  unfolding watch_wake
  wake-IsHarmless w r over g true (k, d) = rw (k, d) (expire-IsHarmless law long r)
  wake-IsHarmless w r over g false e = record { same_time = refl; stays = λ there alive. inl there }

  -- The goroutine of an owner returns only when its context is over: the key is there to be renewed.
  returns_over :
      {x : Leased R} {i : ℕ} (g : Watcher) (by_ticker : Bool)
      → IsKept key dur deadline time x
      → x.system.owns i ≡ true
      → (g.key ≡ key) × (g.dur ≡ dur)
      → (watch_wake client (x.system.dogs i) x.system.redis x.over g by_ticker).0 ≡ true
      → ((x.system.dogs i).cancelled g.ctx || x.over g.parent) ≡ true
  unfolding watch_wake
  returns_over {x} {i} g true h mine (k, l) e =
      let (d, there, after, before, near) = h.lasts i mine in
      let renewed = (law.expire_renews x.system.redis dur there (omega arith)).0 in
      ground (arith, rw (k, l) at e, renewed)
  returns_over g false h mine same e = e

  -- A goroutine wakes, whatever comes of it.
  woken-IsKept :
      (x : Leased R) (i : ℕ) (w : Dog) (r : R)
      → IsHarmless deadline time dur x.system.redis r
      → IsSound key dur w
      → (x.system.owns i ≡ true → IsLive x.over w)
      → IsKept key dur deadline time x
      → IsKept key dur deadline time
          (record x { system = record x.system { redis = r; dogs = update x.system.dogs i w } })
  woken-IsKept x i w r harmless sound live h = record {
    one = h.one;
    lasts = λ j mine. Lasts-IsHarmless long harmless (h.lasts j mine);
    lives = λ j mine.
        updated (IsLive x.over) x.system.dogs w i j (λ e. live (ap x.system.owns e ∙ mine))
          (λ n. h.lives j mine);
    sound = λ j. updated (IsSound key dur) x.system.dogs w i j (λ e. sound) (λ n. h.sound j);
  }

  pub wakes-IsKept :
      (x : Leased R) (i p : ℕ) (g : Watcher) (by_ticker : Bool)
      → get_elem? (x.system.dogs i).watchers p ≡ some g
      → IsKept key dur deadline time x
      → IsKept key dur deadline time
          (record x { system = after_wake client key x.system x.over i p g by_ticker })
  wakes-IsKept x i p g by_ticker here h =
      let w = x.system.dogs i in
      let r = x.system.redis in
      let ours = (h.sound i).ours p here in
      let harmless = wake-IsHarmless w r x.over g by_ticker ours in
      elim (Bool-cases (watch_wake client w r x.over g by_ticker).0) [
        | inl ends ↦ rw ends (
            woken-IsKept x i (record w { watchers = without w.watchers p })
              (watch_wake client w r x.over g by_ticker).1 harmless
              (without-IsSound w p (h.sound i))
              (λ mine.
                without-IsLive x.over w p here (returns_over g by_ticker h mine ours ends)
                  (h.lives i mine))
              h)
        | inr goes_on ↦ rw goes_on (
            woken-IsKept x i w (watch_wake client w r x.over g by_ticker).1 harmless (h.sound i)
              (h.lives i) h)
      ]

  due-IsKept :
      (x : Leased R) (i due : ℕ)
      → (x.system.owns i ≡ true → Lasts deadline time dur x.system.redis due)
      → IsKept key dur deadline time x
      → IsKept key dur deadline time (record x { due = update x.due i due })
  due-IsKept x i due first h = record {
    one = h.one;
    lasts = λ j mine.
        updated (Lasts deadline time dur x.system.redis) x.due due i j
          (λ e. first (ap x.system.owns e ∙ mine)) (λ n. h.lasts j mine);
    lives = h.lives;
    sound = h.sound;
  }

  renewed-Lasts :
      (x : Leased R) (i : ℕ) (w : Dog) (g : Watcher)
      → (g.key ≡ key) × (g.dur ≡ dur)
      → Lasts deadline time dur x.system.redis (x.due i)
      → Lasts deadline time dur
          (watch_wake client w x.system.redis x.over g true).1
          (time x.system.redis + dur / 7)
  unfolding watch_wake
  renewed-Lasts x i w g (k, l) (d, there, after, before, near) =
      let r = x.system.redis in
      let renewed = (law.expire_renews r dur there (omega arith)).1 in
      rw (k, l)
        (
          time r + dur,
          renewed,
          omega arith,
          omega (arith, law.expire_time r dur),
          omega (arith, law.expire_time r dur),
        )

  pub ticks-IsKept :
      (x : Leased R) (i p : ℕ) (g : Watcher)
      → get_elem? (x.system.dogs i).watchers p ≡ some g
      → IsKept key dur deadline time x
      → IsKept key dur deadline time (record x {
        system = after_wake client key x.system x.over i p g true;
        due = update x.due i (time x.system.redis + dur / 7);
      })
  ticks-IsKept x i p g here h =
      due-IsKept (record x { system = after_wake client key x.system x.over i p g true }) i
        (time x.system.redis + dur / 7)
        (λ mine. renewed-Lasts x i (x.system.dogs i) g ((h.sound i).ours p here) (h.lasts i mine))
        (wakes-IsKept x i p g true here h)
