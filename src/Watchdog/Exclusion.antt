-- ===== src/Watchdog/Exclusion.antt =====
-- watchdog/impl.go: several `WatchDog`s on one key, and who holds it.
use eins.Prelude.{
  ℕ, ◌≡◌, ◌≢◌, ◌≤◌, Bool, true, false, ◌||◌, not, none, some, ◌∷◌, arith, get_elem?, if◌then◌else◌,
  Bool-cases, inl, inr,
}
use eins.Prelude.Family.{update}
use eins.Watchdog.{Client, Watcher, Dog, lock, unlock, watch_wake, without, failed}

-- Redis and the `WatchDog`s. `owns` is not in the code: it says which of them have won the key by a
-- `Lock` and not called `Unlock` since.
pub record System (R : Type 0) : Type 0 where
  pub redis : R
  pub dogs : ℕ → Dog
  pub owns : ℕ → Bool

-- What is documented of Redis, as long as the key does not expire; `present` tells whether it is there.
pub record IsRedis {R : Type 0} (client : Client R) (present : R → ℕ → Bool) : Type 0 where
  pub set_absent :
      (r : R) (key v dur : ℕ) → (client.set_nx r key v dur).0.1 ≡ true → present r key ≡ false
  pub set_there :
      (r : R) (key v dur : ℕ)
      → (client.set_nx r key v dur).0.1 ≡ true
      → present (client.set_nx r key v dur).1 key ≡ true
  pub set_keeps :
      (r : R) (key v dur : ℕ)
      → present r key ≡ true
      → present (client.set_nx r key v dur).1 key ≡ true
  pub expire_keeps :
      (r : R) (key j dur : ℕ) → present r key ≡ true → present (client.expire r j dur).1 key ≡ true

module _ {R : Type 0} (client : Client R) (key : ℕ) where
  open client use {set_nx, del, expire}

  -- Whether a `Lock` wins the key: the test that it makes of the reply.
  abbrev pub wins : R → ℕ → ℕ → Bool
  wins r v dur = not (failed (set_nx r key v dur).0.0 || not (set_nx r key v dur).0.1)

  pub lock-redis :
      (w : Dog) (r : R) (parent v dur : ℕ)
      → (lock client w r parent key v dur).redis ≡ (set_nx r key v dur).1
  unfolding lock
  lock-redis w r parent v dur = ground arith

  pub wins-won : (r : R) (v dur : ℕ) → wins r v dur ≡ true → (set_nx r key v dur).0.1 ≡ true
  wins-won r v dur e = ground arith

  abbrev pub after_lock : System R → ℕ → ℕ → ℕ → ℕ → System R
  after_lock s i parent v dur = record {
    redis = (lock client (s.dogs i) s.redis parent key v dur).redis;
    dogs = update s.dogs i (lock client (s.dogs i) s.redis parent key v dur).dog;
    owns = if wins s.redis v dur then update s.owns i true else s.owns;
  }

  abbrev pub after_unlock : System R → ℕ → System R
  after_unlock s i = record {
    redis = (unlock client (s.dogs i) s.redis key).redis;
    dogs = update s.dogs i (unlock client (s.dogs i) s.redis key).dog;
    owns = update s.owns i false;
  }

  -- The goroutine in the place `p` of the `WatchDog` `i` wakes.
  abbrev pub after_wake : System R → (ℕ → Bool) → ℕ → ℕ → Watcher → Bool → System R
  after_wake s over i p g by_ticker = record s {
    redis = (watch_wake client (s.dogs i) s.redis over g by_ticker).1;
    dogs = update s.dogs i (
        if (watch_wake client (s.dogs i) s.redis over g by_ticker).0
        then record (s.dogs i) { watchers = without (s.dogs i).watchers p }
        else s.dogs i);
  }

  -- Every one may call `Lock` at any time, but `Unlock` only if it has won the key.
  pub data Step (s : System R) : System R → Type 0 where
    locks : (i parent v dur : ℕ) → Step s (after_lock s i parent v dur)
    unlocks : (i : ℕ) → s.owns i ≡ true → Step s (after_unlock s i)
    wakes :
        (over : ℕ → Bool) (i p : ℕ) (g : Watcher) (by_ticker : Bool)
        → get_elem? (s.dogs i).watchers p ≡ some g
        → Step s (after_wake s over i p g by_ticker)

  pub data Reach : System R → Type 0 where
    begins : (s : System R) → ((i : ℕ) → s.owns i ≡ false) → Reach s
    later : {s t : System R} → Reach s → Step s t → Reach t

  module _ {present : R → ℕ → Bool} (h : IsRedis client present) where
    -- Who owns the key is the only one, and the key is there.
    record Exclusive (s : System R) : Type 0 where
      one : (i j : ℕ) → s.owns i ≡ true → s.owns j ≡ true → i ≡ j
      there : (i : ℕ) → s.owns i ≡ true → present s.redis key ≡ true

    -- Nobody owns an absent key, so the winner is the only one.
    won-Exclusive :
        (s : System R) (i parent v dur : ℕ)
        → wins s.redis v dur ≡ true
        → Exclusive s
        → Exclusive (after_lock s i parent v dur)
    won-Exclusive s i parent v dur won e =
        let absent = h.set_absent s.redis key v dur (wins-won s.redis v dur won) in
        let nobody : (k : ℕ) → s.owns k ≢ true = λ k mine. ground (arith, e.there k mine) in
        record {
          one = λ j k mine yours. ground (arith, won, nobody j, nobody k);
          there = λ j mine.
              rw (lock-redis (s.dogs i) s.redis parent v dur)
                (h.set_there s.redis key v dur (wins-won s.redis v dur won));
        }

    lost-Exclusive :
        (s : System R) (i parent v dur : ℕ)
        → wins s.redis v dur ≡ false
        → Exclusive s
        → Exclusive (after_lock s i parent v dur)
    lost-Exclusive s i parent v dur lost e = record {
      one = λ j k mine yours. e.one j k (rw lost at mine) (rw lost at yours);
      there = λ j mine.
          rw (lock-redis (s.dogs i) s.redis parent v dur)
            (h.set_keeps s.redis key v dur (e.there j (rw lost at mine)));
    }

    Step-Exclusive : {s t : System R} → Step s t → Exclusive s → Exclusive t
    unfolding unlock watch_wake
    Step-Exclusive {s} (locks i parent v dur) e = elim (Bool-cases (wins s.redis v dur)) [
      | inl won ↦ won-Exclusive s i parent v dur won e
      | inr lost ↦ lost-Exclusive s i parent v dur lost e
    ]
    Step-Exclusive {s} (unlocks i mine) e = record {
      one = λ j k yours theirs. ground (arith, e.one j k);
      there = λ j yours. ground (arith, e.one i j mine);
    }
    Step-Exclusive {s} (wakes over i p g by_ticker at) e = record {
      one = e.one;
      there = λ j mine. ground (arith, e.there j mine, h.expire_keeps s.redis key g.key g.dur);
    }

    Reach-Exclusive : {s : System R} → Reach s → Exclusive s
    Reach-Exclusive (begins s none_owns) = record {
      one = λ i j mine yours. ground (arith, none_owns i);
      there = λ i mine. ground (arith, none_owns i);
    }
    Reach-Exclusive (later r st) = Step-Exclusive st (Reach-Exclusive r)

  -- Of those that call `Unlock` only when they have won the key, at most one has won it and not called
  -- `Unlock` since, in every interleaving in which the key does not expire.
  lock_excludes :
      {present : R → ℕ → Bool} {s : System R} (i j : ℕ)
      → IsRedis client present
      → Reach s
      → s.owns i ≡ true
      → s.owns j ≡ true
      → i ≡ j
  lock_excludes i j h r mine yours = (Reach-Exclusive h r).one i j mine yours

  -- A `Lock` of a key that is taken returns no error and leaves the `WatchDog` as it was. If Redis
  -- answers without errors, an `Unlock` after it deletes the key all the same, and the next `Lock` wins
  -- the key and starts a goroutine for it.
  lock_loses_silently :
      (w : Dog) (r s t : R) (parent v dur : ℕ)
      → set_nx r key v dur ≡ ((none, false), r)
      → del r key ≡ (none, s)
      → set_nx s key v dur ≡ ((none, true), t)
      → 7 ≤ dur
      → let a = lock client w r parent key v dur in
        let b = unlock client a.dog a.redis key in
        let c = lock client b.dog b.redis parent key v dur in
        (a.error ≡ none)
        × (a.dog ≡ w)
        × (b.redis ≡ s)
        × (c.error ≡ none)
        × (c.dog.watchers
            ≡ record { ctx = b.dog.next_ctx; parent = parent; key = key; dur = dur }
              ∷ b.dog.watchers)
  unfolding lock unlock
  lock_loses_silently w r s t parent v dur lost gone won long = ground arith
