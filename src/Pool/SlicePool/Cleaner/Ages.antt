-- ===== src/Pool/SlicePool/Cleaner/Ages.antt =====
-- onepool/slice.go: how old a free item can get before `staleCleaner` closes it.
use mathlib.Core.Path.{subst}
use eins.Prelude.{
  ℕ, ◌≡◌, ◌≤◌, refl, sym, ap, ◌∙◌, Bool, true, false, some, get_elem?, arith, Bool-cases, ◌⊎◌, inl,
  inr,
}
use eins.Prelude.Int.{ℤ, pos, ◌+ℤ◌, ◌≤ℤ◌}
use eins.Pool.{Item, Config}
use eins.Pool.SlicePool.{SlicePool, close, new_slice}
use eins.Pool.SlicePool.Cleaning.{clean_pass, clean_pass_lem}
use eins.Pool.SlicePool.System.{
  System, start, after_section, Step, runs, opener_takes, opener_opens, opener_stops, cleans,
  closes,
}
use eins.Pool.SlicePool.Cleaner.{
  sleeping, interval, start_cleaner, clean_turn, Clocked, IsAt, IsOnTime, passes, turns, acts, Runs,
  begins, later,
}
use eins.Pool.SlicePool.Cleaner.Young.{
  all_young-Perm, all_young-fresh, all_young-at, IsYoung, open_new_item-IsYoung,
  session_step-IsYoung, opener_take-IsYoung,
}

-- The greatest age of a free item.
abbrev life : Config → ℤ
life conf = conf.idle_timeout +ℤ interval conf.idle_timeout

-- While the pool is open, the cleaner sleeps until `at`, and no free item outlives `life` before that.
record IsTimely (conf : Config) (x : Clocked) : Type 0 where
  shut : Bool
  at : ℤ
  ages : IsYoung shut conf at (life conf) x.system.pool
  asleep : (shut ≡ true) ⊎ (x.cleaner ≡ sleeping at)
  ahead : pos x.clock ≤ℤ at
  soon : at ≤ℤ pos x.clock +ℤ interval conf.idle_timeout

interval-positive : (d : ℤ) → pos 0 ≤ℤ interval d
interval-positive d = ground arith

close-IsYoung :
    {shut : Bool} {conf : Config} {at life : ℤ} (p : SlicePool)
    → IsYoung shut conf at life p
    → IsYoung true conf at life (close p).pool
unfolding close
close-IsYoung p h = ground (arith, h)

turn_shut : (p : SlicePool) (now : ℕ) → p.closed ≡ true → (clean_turn p now).0.pool ≡ p
unfolding clean_turn clean_pass
turn_shut p now gone = rw gone refl

module _ {conf : Config} (timed : pos 1 ≤ℤ conf.idle_timeout) where
  Step-IsYoung :
      {n : ℕ} {s t : System} {at : ℤ} (now : ℕ) (st : Step n s t)
      → IsAt now st
      → at ≤ℤ pos now +ℤ life conf
      → {shut : Bool} → IsYoung shut conf at (life conf) s.pool
      → (shut' : Bool) × IsYoung shut' conf at (life conf) t.pool
        × ((shut ≡ shut') ⊎ (shut' ≡ true))
  Step-IsYoung {s = s} now (runs i at_time c hi) e fits {shut} h =
      (shut, rw e (session_step-IsYoung now fits s.pool (s.sessions i) c h), inl refl)
  Step-IsYoung {s = s} now opener_takes e fits {shut} h =
      (shut, opener_take-IsYoung s.pool s.opener h, inl refl)
  Step-IsYoung {s = s} now (opener_opens at_time pick result f) e fits {shut} h =
      (shut, rw e (open_new_item-IsYoung now fits s.pool pick result h), inl refl)
  Step-IsYoung now (opener_stops f g) e fits {shut} h = (shut, h, inl refl)
  Step-IsYoung now (cleans at_time) e fits h = absurd e
  Step-IsYoung {s = s} now closes e fits {shut} h = (true, close-IsYoung s.pool h, inr refl)

  acts-Timely :
      {n : ℕ} {x : Clocked} {t : System} (st : Step n x.system t)
      → IsAt x.clock st
      → IsTimely conf x
      → IsTimely conf (record x { system = t })
  acts-Timely {x = x} st e h =
      let within : h.at ≤ℤ pos x.clock +ℤ life conf = ground (arith, h.soon) in
      let (shut', ages, same) = Step-IsYoung x.clock st e within h.ages in
      record {
        shut = shut';
        at = h.at;
        ages = ages;
        asleep = ground (arith, h.asleep);
        ahead = h.ahead;
        soon = h.soon;
      }

  -- A closed pool has no free item, whatever the time.
  shut_any :
      {at : ℤ} {p : SlicePool} (at' : ℤ)
      → IsYoung true conf at (life conf) p
      → IsYoung true conf at' (life conf) p
  shut_any {p = p} at' h = ground (arith, h)

  passes-Timely :
      {x : Clocked} (now : ℕ)
      → x.clock ≤ now
      → IsOnTime now x.cleaner
      → IsTimely conf x
      → IsTimely conf (record x { clock = now })
  passes-Timely {x} now later_on on_time h = elim h.asleep [
    | inl gone ↦ record {
      shut = true;
      at = pos now;
      ages = shut_any (pos now) (rw gone at h.ages);
      asleep = inl refl;
      ahead = omega arith;
      soon = ground (arith, interval-positive conf.idle_timeout);
    }
    | inr sleeps ↦ record {
      shut = h.shut;
      at = h.at;
      ages = h.ages;
      asleep = h.asleep;
      ahead = rw sleeps at on_time;
      soon = ground (arith, h.soon);
    }
  ]

  turn_open :
      (p : SlicePool) (now : ℕ)
      → p.conf ≡ conf
      → p.closed ≡ false
      → ((clean_turn p now).1 ≡ sleeping (pos now +ℤ interval conf.idle_timeout))
        × IsYoung false conf
            (pos now +ℤ interval conf.idle_timeout)
            (life conf)
            (clean_turn p now).0.pool
  unfolding clean_turn
  turn_open p now same opened =
      let d = p.conf.idle_timeout in
      let positive : pos 1 ≤ℤ d = rw same timed in
      let (goes_on, kept, shuts, rest) = clean_pass_lem p now opened positive in
      let fresh_only =
        all_young-Perm (pos now +ℤ interval d) (d +ℤ interval d) kept
        ∙ all_young-fresh now d (interval d) p.free in
      ground (
        arith,
        goes_on,
        fresh_only,
        ap (λ (q : SlicePool). q.closed) rest,
        ap (λ (q : SlicePool). q.conf) rest,
      )

  turns-Timely :
      {x : Clocked}
      → IsTimely conf x
      → IsTimely conf (record x {
        system = after_section x.system (clean_turn x.system.pool x.clock).0;
        cleaner = (clean_turn x.system.pool x.clock).1;
      })
  turns-Timely {x} h = elim (Bool-cases h.shut) [
    | inl gone ↦ record {
      shut = true;
      at = h.at;
      ages =
          subst (IsYoung true conf h.at (life conf))
            (sym (turn_shut x.system.pool x.clock (h.ages.same_closed ∙ gone))) (rw gone at h.ages);
      asleep = inl refl;
      ahead = h.ahead;
      soon = h.soon;
    }
    | inr opened ↦
        let (sleeps, ages) =
          turn_open x.system.pool x.clock h.ages.same_conf (h.ages.same_closed ∙ opened) in
        record {
          shut = false;
          at = pos x.clock +ℤ interval conf.idle_timeout;
          ages = ages;
          asleep = inr sleeps;
          ahead = ground (arith, interval-positive conf.idle_timeout);
          soon = ground arith;
        }
  ]

  begins-Timely :
      (p : SlicePool) (now : ℕ)
      → new_slice (some conf) ≡ some p
      → IsTimely conf
          (record { system = start p; cleaner = start_cleaner now conf.idle_timeout; clock = now })
  unfolding new_slice start_cleaner
  begins-Timely p now e = record {
    shut = false;
    at = pos now +ℤ interval conf.idle_timeout;
    ages = ground arith;
    asleep = inr (ground arith);
    ahead = ground (arith, interval-positive conf.idle_timeout);
    soon = ground arith;
  }

  Runs-Timely : {n : ℕ} {x : Clocked} → Runs n conf x → IsTimely conf x
  Runs-Timely (begins p now e) = begins-Timely p now e
  Runs-Timely (later r (passes now later_on on_time)) =
      passes-Timely now later_on on_time (Runs-Timely r)
  Runs-Timely (later r (turns at e)) = turns-Timely (Runs-Timely r)
  Runs-Timely (later r (acts st e)) = acts-Timely st e (Runs-Timely r)

-- If the cleaner has its turn whenever its timer fires, no free item is ever older than the idle timeout
-- and the interval of the cleaner together, while the configuration stays and its timeout is positive.
pub free_ages :
    {n : ℕ} {conf : Config} {x : Clocked}
    → Runs n conf x
    → pos 1 ≤ℤ conf.idle_timeout
    → (k : ℕ) {i : Item} → get_elem? x.system.pool.free k ≡ some i
    → pos x.clock ≤ℤ pos i.created_at +ℤ (conf.idle_timeout +ℤ interval conf.idle_timeout)
free_ages {conf = conf} {x} r timed k {i} e =
    let h = Runs-Timely timed r in
    let alive = all_young-at h.at (life conf) x.system.pool.free k h.ages.young_free e in
    ground (arith, alive, h.ahead)
