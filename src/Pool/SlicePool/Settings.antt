-- ===== src/Pool/SlicePool/Settings.antt =====
-- onepool/slice.go: `startCleanerLocked`, `setIdle`, `setActive` and `Reload`, with the mutex of the
-- pool in the model: `sync.Mutex` is not reentrant.
use eins.Prelude.{
  ℕ, ◌≡◌, ◌≤◌, refl, Bool, true, false, ◌&&◌, ◌||◌, List, [], ◌++◌, length, take, drop, arith,
  if◌then◌else◌, take-append-drop, length-take, ◌⊎◌, inl, inr, Bool-cases,
}
use eins.Prelude.Int.{ℤ, pos, negsuc, ltb_ℤ, leb_ℤ, ◌≤ℤ◌}
use eins.Pool.{Config}
use eins.Pool.SlicePool.{SlicePool, conns, max_idle}

-- How a call ends: it returns, it waits for a lock that nobody can give back, or it panics.
pub data Ending {ℓ} (A : Type ℓ) : Type ℓ where
  returns : A → Ending A
  blocks panics : Ending A

infixl 5 ◌>>=◌
abbrev pub ◌>>=◌ {ℓ κ} : {A : Type ℓ} {B : Type κ} → Ending A → (A → Ending B) → Ending B
returns a >>= f = f a
blocks >>= f = blocks
panics >>= f = panics

-- The pool with its mutex, and the items closed so far.
pub record Guarded : Type 0 where
  pub locked : Bool
  pub pool : SlicePool
  pub shut : List ℕ

-- `p.mu.Lock()` when no other goroutine runs: a mutex that is held stays held.
abbrev lock : Guarded → Ending Guarded
lock g = if g.locked then blocks else returns (record g { locked = true })

abbrev unlock : Guarded → Ending Guarded
unlock g = returns (record g { locked = false })

-- `startCleanerLocked`. A send on the channel that `Close` has closed panics.
start_cleaner : Guarded → ℤ → Ending Guarded
start_cleaner g d =
    if leb_ℤ d (pos 0)
    then returns g
    else if ltb_ℤ d g.pool.conf.idle_timeout && g.pool.cleaner_ch && g.pool.closed
    then panics
    else returns (record g { pool = record g.pool { cleaner_ch = true } })

abbrev with_idle : SlicePool → ℤ → SlicePool
with_idle p n = record p { conf = record p.conf { idle = n } }

-- The new `Idle` of `setIdle`: -1 stands for none.
idle_setting : ℤ → ℤ
idle_setting n = if ltb_ℤ (pos 0) n then n else negsuc 0

-- The part of `setIdle` under the lock that sets `Idle`.
limit_idle : SlicePool → ℤ → SlicePool
unfolding idle_setting
limit_idle p n =
    let q = with_idle p (idle_setting n) in
    if ltb_ℤ (pos 0) q.conf.active && ltb_ℤ q.conf.active (pos (max_idle q.conf))
    then with_idle q q.conf.active
    else q

-- `setIdle`.
unfoldable pub set_idle : Guarded → ℤ → Ending Guarded
unfolding limit_idle
set_idle g n = do
  h ← lock g
  let p = limit_idle h.pool n
  let m = max_idle p.conf
  k ← unlock (record h { pool = record p { free = take m p.free } })
  returns (record k { shut = k.shut ++ conns (drop m p.free) })

-- `setActive`.
unfoldable pub set_active : Guarded → ℤ → Ending Guarded
unfolding set_idle
set_active g n = do
  h ← lock g
  let a = if ltb_ℤ n (pos 0) then pos 0 else n
  let p = record h.pool { conf = record h.pool.conf { active = a } }
  k ← unlock (record h { pool = p })
  if ltb_ℤ (pos 0) p.conf.active && ltb_ℤ p.conf.active (pos (max_idle p.conf))
      then set_idle k n
      else returns k

-- `Reload` once it has the lock.
reload_locked : Guarded → Config → Ending Guarded
reload_locked g c = do
  h₁ ← start_cleaner g c.idle_timeout
  h₂ ← set_active h₁ c.active
  h₃ ← set_idle h₂ c.idle
  unlock (record h₃ { pool = record h₃.pool { conf = c } })

-- `Reload`.
unfoldable pub reload : Guarded → Config → Ending Guarded
unfolding reload_locked start_cleaner set_active
reload g c = do h ← lock g; reload_locked h c

-- How many free items `setIdle` allows: none if `n` is not positive, and otherwise `n`, or a positive
-- `Active` if that is less.
abbrev pub allowed : ℤ → ℤ → ℤ
allowed n active =
    if leb_ℤ n (pos 0) then pos 0 else if leb_ℤ active (pos 0) || leb_ℤ n active then n else active

-- What `setIdle` comes to.
pub record IsTrimmed (n : ℤ) (p q : SlicePool) (shut : List ℕ) : Type 0 where
  pub exact : pos (max_idle q.conf) ≡ allowed n p.conf.active
  pub same_active : q.conf.active ≡ p.conf.active
  pub within : (p.conf.active ≤ℤ pos 0) ⊎ (pos (max_idle q.conf) ≤ℤ p.conf.active)
  pub not_more : (n ≤ℤ pos 0) ⊎ (pos (max_idle q.conf) ≤ℤ n)
  pub emptied : (pos 1 ≤ℤ n) ⊎ (q.free ≡ [])
  pub few : length q.free ≤ max_idle q.conf
  pub split : q.free ++ drop (max_idle q.conf) p.free ≡ p.free
  pub closes : shut ≡ conns (drop (max_idle q.conf) p.free)
  pub counts : q.active ≡ p.active

limit_idle-max :
    (p : SlicePool) (n : ℤ)
    → let m = max_idle (limit_idle p n).conf in
      ((p.conf.active ≤ℤ pos 0) ⊎ (pos m ≤ℤ p.conf.active))
      × ((n ≤ℤ pos 0) ⊎ (pos m ≤ℤ n))
      × ((pos 1 ≤ℤ n) ⊎ (m ≡ 0))
unfolding limit_idle max_idle
limit_idle-max p n = ground arith

limit_idle-allowed :
    (p : SlicePool) (n : ℤ)
    → let q = limit_idle p n in
      (pos (max_idle q.conf) ≡ allowed n p.conf.active) × (q.conf.active ≡ p.conf.active)
unfolding limit_idle max_idle
limit_idle-allowed p n = ground arith

limit_idle-rest :
    (p : SlicePool) (n : ℤ)
    → ((limit_idle p n).free ≡ p.free) × ((limit_idle p n).active ≡ p.active)
unfolding limit_idle
limit_idle-rest p n = ground arith

-- `setIdle` on a pool that nobody has locked returns. The idle limit is then 0 if `n` is not positive, and
-- otherwise `n`, or a positive `Active` if that is less; the free items beyond it are closed, the longest
-- idle being kept, and `active` still counts those that were closed.
pub set_idle_trims :
    (p : SlicePool) (n : ℤ)
    → (q : SlicePool) × (shut : List ℕ) × (set_idle
          (record { locked = false; pool = p; shut = [] })
          n
        ≡ returns (record { locked = false; pool = q; shut = shut }))
      × IsTrimmed n p q shut
unfolding set_idle
set_idle_trims p n =
    let r = limit_idle p n in
    let m = max_idle r.conf in
    let (same, counted) = limit_idle-rest p n in
    let (exact, same_active) = limit_idle-allowed p n in
    let (within, not_more, none_left) = limit_idle-max p n in
    (
      record r { free = take m r.free },
      conns (drop m r.free),
      refl,
      record {
        exact = exact;
        same_active = same_active;
        within = within;
        not_more = not_more;
        emptied = elim none_left [ inl some_left ↦ inl some_left | inr h ↦ inr (rw h refl) ];
        few = omega (arith, length-take m r.free);
        split = rw same (take-append-drop m p.free);
        closes = rw same refl;
        counts = counted;
      },
    )

-- A pool that is locked is not set.
set_active_locked : (g : Guarded) (n : ℤ) → g.locked ≡ true → set_active g n ≡ blocks
unfolding set_active
set_active_locked g n e = rw e

-- `startCleanerLocked` keeps the lock, and panics on a closed pool only.
abbrev Started : Guarded → Ending Guarded → Type 0
Started g r =
    ((r ≡ panics) × (g.pool.closed ≡ true)) ⊎ ((h : Guarded) × (r ≡ returns h) × (h.locked ≡ true))

start_cleaner-Started : (g : Guarded) (d : ℤ) → g.locked ≡ true → Started g (start_cleaner g d)
unfolding start_cleaner
start_cleaner-Started g d e = elim (Bool-cases (leb_ℤ d (pos 0))) [
  | inl none_wanted ↦ inr (g, rw none_wanted, e)
  | inr wanted ↦
      elim (Bool-cases (ltb_ℤ d g.pool.conf.idle_timeout && g.pool.cleaner_ch && g.pool.closed)) [
        | inl sends ↦ inl (rw (wanted, sends), ground arith)
        | inr quiet ↦
            inr (record g { pool = record g.pool { cleaner_ch = true } }, rw (wanted, quiet), e)
      ]
]

-- With the lock in its hands the rest of `Reload` ends in the call of `setActive`.
reload_locked_ends :
    (g : Guarded) (c : Config)
    → g.locked ≡ true
    → (reload_locked g c ≡ blocks) ⊎ ((reload_locked g c ≡ panics) × (g.pool.closed ≡ true))
unfolding reload_locked
reload_locked_ends g c e = elim (start_cleaner-Started g c.idle_timeout e) [
  | inl (p, shut) ↦ inr (rw p, shut)
  | inr (h, p, held) ↦ inl (rw (p, set_active_locked h c.active held))
]

-- `Reload` never returns, whatever the pool and the new configuration: it calls `setActive` with the
-- lock in its hands. It blocks forever, or panics as it signals the cleaner of a closed pool.
pub reload_never_returns :
    (g : Guarded) (c : Config)
    → (reload g c ≡ blocks) ⊎ ((reload g c ≡ panics) × (g.pool.closed ≡ true))
unfolding reload
reload_never_returns g c = ground (arith, reload_locked_ends (record g { locked = true }) c refl)
