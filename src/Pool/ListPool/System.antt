-- ===== src/Pool/ListPool/System.antt =====
-- onepool/list.go: `n` goroutines, the cleaner, and calls of `Close` and `Reload`, interleaved.
use eins.Prelude.{ℕ, ◌<◌, ◌≡◌, Bool, true, false, some, List, [], ◌++◌}
use eins.Prelude.Family.{update}
use eins.Pool.{Config}
use eins.Pool.ListPool.{ListPool, Section, new_list, reload, close, clean_step}
use eins.Pool.ListPool.Session.{Session, outside, waiting, woken, Turn, Choice, session_step}

-- The pool, the goroutines, and what has been opened and closed so far.
pub record System : Type 0 where
  pub pool : ListPool
  pub sessions : ℕ → Session
  pub opened : List ℕ
  pub shut : List ℕ

-- What a signal does to the goroutine `j` that receives it.
abbrev pub receive : Session → Session
receive waiting = woken
receive s = s

-- `signal`: a send that goes to a waiting goroutine `j`, if one waits.
abbrev pub deliver : Bool → ℕ → (ℕ → Session) → ℕ → Session
deliver false j f = f
deliver true j f = update f j (receive (f j))

-- `j` is a fit receiver: it waits, unless nobody does.
abbrev pub Fits : ℕ → (ℕ → Session) → ℕ → Type 0
Fits n f j = (k : ℕ) → k < n → f k ≡ waiting → f j ≡ waiting

-- The system after the goroutine `i` has taken a turn and `j` received its signal.
abbrev pub after_turn : System → ℕ → ℕ → Turn → System
after_turn s i j t = record {
  pool = t.pool;
  sessions = deliver t.signals j (update s.sessions i t.session);
  opened = t.opens ++ s.opened;
  shut = t.closes ++ s.shut;
}

-- The system after a section of the cleaner, of `Close` or of `Reload`.
abbrev pub after_section : System → ℕ → Section → System
after_section s j t = record {
  pool = t.pool;
  sessions = deliver t.signals j s.sessions;
  opened = s.opened;
  shut = t.closes ++ s.shut;
}

pub data Step (n : ℕ) (s : System) : System → Type 0 where
  runs :
      (i j now : ℕ) (c : Choice)
      → i < n
      → j < n
      → Fits n (update s.sessions i (session_step s.pool now (s.sessions i) c).session) j
      → Step n s (after_turn s i j (session_step s.pool now (s.sessions i) c))
  cleans :
      (j now : ℕ) (poked : Bool)
      → j < n
      → Fits n s.sessions j
      → Step n s (after_section s j (clean_step s.pool now poked))
  closes : (j : ℕ) → j < n → Step n s (after_section s j (close s.pool))
  reloads : (conf : Config) → Step n s (record s { pool = reload s.pool conf })

-- Nobody has called the new pool yet.
abbrev pub start : ListPool → System
start p = record { pool = p; sessions = λ _. outside; opened = []; shut = [] }

pub data Reach (n : ℕ) (conf : Config) : System → Type 0 where
  begins : (p : ListPool) → new_list (some conf) ≡ some p → Reach n conf (start p)
  later : {s t : System} → Reach n conf s → Step n s t → Reach n conf t

-- The states that are reached by steps that leave the configuration as it was.
pub data Lasts (n : ℕ) (conf : Config) : System → Type 0 where
  begins : (p : ListPool) → new_list (some conf) ≡ some p → Lasts n conf (start p)
  later : {s t : System} → Lasts n conf s → Step n s t → t.pool.conf ≡ conf → Lasts n conf t
