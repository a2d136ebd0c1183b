-- ===== src/Pool/SlicePool/Cleaner.antt =====
-- onepool/slice.go: the goroutine of `staleCleaner` with its timer, and the pool on a clock.
pub mod Young
pub mod Ages
mod Tests
use eins.Prelude.{ℕ, ◌≡◌, ◌≤◌, Option, some, Bool, true, false, if◌then◌else◌}
use eins.Prelude.Int.{ℤ, pos, ◌+ℤ◌, ltb_ℤ, leb_ℤ, ◌≤ℤ◌}
use eins.Pool.{Config}
use eins.Pool.SlicePool.{SlicePool, Section, new_slice}
use eins.Pool.SlicePool.Cleaning.{clean_pass}
use eins.Pool.SlicePool.System.{
  System, start, after_section, Step, runs, opener_takes, opener_opens, opener_stops, cleans,
  closes,
}

-- The goroutine: not started, at its `select` with a timer that fires at a time, or returned.
pub data Cleaner : Type 0 where
  absent : Cleaner
  sleeping : ℤ → Cleaner
  returned : Cleaner

abbrev pub min_interval : ℤ
min_interval = pos 100000000

-- What the timer is set to.
abbrev pub interval : ℤ → ℤ
interval d = if ltb_ℤ d min_interval then min_interval else d

-- `startCleanerLocked` of a pool that has no cleaner, at the time `now`.
unfoldable pub start_cleaner : ℕ → ℤ → Cleaner
start_cleaner now d = if leb_ℤ d (pos 0) then absent else sleeping (pos now +ℤ interval d)

-- One turn of the loop of `staleCleaner`, once the timer or the channel has woken it.
unfoldable pub clean_turn : SlicePool → ℕ → Section × Cleaner
clean_turn p now =
    let (s, ends) = clean_pass p now in
    (s, if ends then returned else sleeping (pos now +ℤ interval p.conf.idle_timeout))

-- The system with its cleaner and the time.
pub record Clocked : Type 0 where
  pub system : System
  pub cleaner : Cleaner
  pub clock : ℕ

-- A step at the time `now`, other than a pass of the cleaner.
abbrev pub IsAt : {n : ℕ} {s t : System} → ℕ → Step n s t → Type 0
IsAt clock (runs i now c h) = now ≡ clock
IsAt clock opener_takes = Unit
IsAt clock (opener_opens now pick result e) = now ≡ clock
IsAt clock (opener_stops e f) = Unit
IsAt clock (cleans now) = ⊥
IsAt clock closes = Unit

-- The cleaner has no timer that fires before `now`.
abbrev pub IsOnTime : ℕ → Cleaner → Type 0
IsOnTime now absent = Unit
IsOnTime now (sleeping at) = pos now ≤ℤ at
IsOnTime now returned = Unit

-- Time passes up to the timer of the cleaner; the cleaner has its turn, at its timer or earlier; and all
-- else happens at the time of the clock.
pub data Timed (n : ℕ) (x : Clocked) : Clocked → Type 0 where
  passes : (now : ℕ) → x.clock ≤ now → IsOnTime now x.cleaner → Timed n x (record x { clock = now })
  turns :
      (at : ℤ)
      → x.cleaner ≡ sleeping at
      → Timed n x (record x {
        system = after_section x.system (clean_turn x.system.pool x.clock).0;
        cleaner = (clean_turn x.system.pool x.clock).1;
      })
  acts :
      {t : System}
      → (step : Step n x.system t) → IsAt x.clock step
      → Timed n x (record x { system = t })

-- What a pool comes to that `NewSlice` has made at some time.
pub data Runs (n : ℕ) (conf : Config) : Clocked → Type 0 where
  begins :
      (p : SlicePool) (now : ℕ)
      → new_slice (some conf) ≡ some p
      → Runs n conf
          (record { system = start p; cleaner = start_cleaner now conf.idle_timeout; clock = now })
  later : {x y : Clocked} → Runs n conf x → Timed n x y → Runs n conf y
