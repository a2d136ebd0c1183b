-- ===== src/Watchdog/Lease/Dogs.antt =====
-- watchdog/impl.go: what one `WatchDog` keeps, of its contexts and of its goroutines.
use mathlib.Core.Path.{subst}
use eins.Prelude.{
  ℕ, zero, suc, ◌≡◌, ◌≢◌, ◌≤◌, ◌<◌, refl, sym, ap, Bool, ◌||◌, true, false, some, List, [], ◌∷◌,
  get_elem?, arith, Option-cases, inl, inr,
}
use eins.Watchdog.{Client, Watcher, Dog, watch, cancel_watch, without, lock}
use eins.Watchdog.Exclusion.{wins}
use eins.Watchdog.Instance.{new_dog}

-- All goroutines are for one key and one time, and no context is over that is not yet made.
pub record IsSound (key dur : ℕ) (w : Dog) : Type 0 where
  pub ours : (p : ℕ) {g : Watcher} → get_elem? w.watchers p ≡ some g → (g.key ≡ key) × (g.dur ≡ dur)
  pub unused : (c : ℕ) → w.next_ctx ≤ c → w.cancelled c ≡ false
  pub made : {c : ℕ} → w.cancel ≡ some c → c < w.next_ctx

-- The goroutine that the last `Lock` that won has started is at its `select`, and its context is not over.
abbrev pub IsLive : (ℕ → Bool) → Dog → Type 0
IsLive over w =
    (p : ℕ) × (g : Watcher) × (get_elem? w.watchers p ≡ some g)
    × (w.cancel ≡ some g.ctx)
    × (w.cancelled g.ctx ≡ false)
    × (over g.parent ≡ false)

get_elem?-without :
    (gs : List Watcher) (i p : ℕ) {g : Watcher}
    → get_elem? (without gs i) p ≡ some g
    → (q : ℕ) × (get_elem? gs q ≡ some g)
unfolding without
get_elem?-without [] i p e = ground arith
get_elem?-without (h ∷ gs) zero p e = (suc p, e)
get_elem?-without (h ∷ gs) (suc i) zero e = (0, e)
get_elem?-without (h ∷ gs) (suc i) (suc p) e =
    let (q, at) = get_elem?-without gs i p e in (suc q, at)

without_keeps :
    (gs : List Watcher) (i p : ℕ) {g : Watcher}
    → p ≢ i
    → get_elem? gs p ≡ some g
    → (q : ℕ) × (get_elem? (without gs i) q ≡ some g)
unfolding without
without_keeps [] i p other e = ground arith
without_keeps (h ∷ gs) zero zero other e = absurd (other refl)
without_keeps (h ∷ gs) zero (suc p) other e = (p, e)
without_keeps (h ∷ gs) (suc i) zero other e = (0, e)
without_keeps (h ∷ gs) (suc i) (suc p) other e =
    let (q, at) = without_keeps gs i p (λ same. ground arith) e in (suc q, at)

-- The `WatchDog` that a `Lock` which has won leaves.
abbrev pub locked : Dog → ℕ → ℕ → ℕ → Dog
locked w parent key dur = record w {
  cancel = some w.next_ctx;
  next_ctx = suc w.next_ctx;
  watchers = record { ctx = w.next_ctx; parent = parent; key = key; dur = dur } ∷ w.watchers;
}

module _ {key dur : ℕ} where
  pub new_dog-IsSound : IsSound key dur new_dog
  new_dog-IsSound = record {
    ours = λ p e. ground arith;
    unused = λ c h. refl;
    made = λ e. ground arith;
  }

  pub locked-IsSound :
      (w : Dog) (parent : ℕ) → IsSound key dur w → IsSound key dur (locked w parent key dur)
  locked-IsSound w parent h = record {
    ours = ours;
    unused = λ c above. h.unused c (omega arith);
    made = λ e. ground arith;
  }
    where
      ours :
          (p : ℕ) {g : Watcher}
          → get_elem? (locked w parent key dur).watchers p ≡ some g
          → (g.key ≡ key) × (g.dur ≡ dur)
      ours zero e = ground arith
      ours (suc p) e = h.ours p e

  pub locked-IsLive :
      (over : ℕ → Bool) (w : Dog) (parent : ℕ)
      → over parent ≡ false
      → IsSound key dur w
      → IsLive over (locked w parent key dur)
  locked-IsLive over w parent going h = (
    0,
    record { ctx = w.next_ctx; parent = parent; key = key; dur = dur },
    refl,
    refl,
    h.unused w.next_ctx (omega arith),
    going,
  )

  pub cancel_watch-IsSound :
      (w : Dog) → IsSound key dur w → IsSound key dur (cancel_watch w w.cancel)
  unfolding cancel_watch
  cancel_watch-IsSound w h = elim (Option-cases w.cancel) [
    | inl nothing ↦ subst (λ c. IsSound key dur (cancel_watch w c)) (sym nothing) h
    | inr (c, some_c) ↦
        subst (λ o. IsSound key dur (cancel_watch w o)) (sym some_c)
          (record {
            ours = h.ours;
            unused = λ j above. ground (arith, h.made some_c, h.unused j above);
            made = h.made;
          })
  ]

  pub without-IsSound :
      (w : Dog) (i : ℕ)
      → IsSound key dur w
      → IsSound key dur (record w { watchers = without w.watchers i })
  without-IsSound w i h = record {
    ours = λ p e. let (q, at) = get_elem?-without w.watchers i p e in h.ours q at;
    unused = h.unused;
    made = h.made;
  }

-- The goroutine of a `WatchDog` that is live stays, if one returns whose context is over.
pub without-IsLive :
    (over : ℕ → Bool) (w : Dog) (i : ℕ) {g : Watcher}
    → get_elem? w.watchers i ≡ some g
    → (w.cancelled g.ctx || over g.parent) ≡ true
    → IsLive over w
    → IsLive over (record w { watchers = without w.watchers i })
without-IsLive over w i here ended (p, l, at, its, runs, going) =
    let (q, still) =
      without_keeps w.watchers i p (λ same. ground (arith, ap (get_elem? w.watchers) same)) at in
    (q, l, still, its, runs, going)

module _ {R : Type 0} (client : Client R) (w : Dog) (r : R) (parent key v dur : ℕ) where
  pub lock-won :
      7 ≤ dur
      → wins client key r v dur ≡ true
      → (lock client w r parent key v dur).dog ≡ locked w parent key dur
  unfolding lock watch
  lock-won long won = ground arith

  pub lock-lost : wins client key r v dur ≡ false → (lock client w r parent key v dur).dog ≡ w
  unfolding lock
  lock-lost lost = ground arith
