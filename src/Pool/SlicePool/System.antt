-- ===== src/Pool/SlicePool/System.antt =====
-- onepool/slice.go: `n` goroutines, `itemOpener`, `staleCleaner` and calls of `Close`, interleaved.
-- `Reload` has no step: see `Settings`.
use eins.Prelude.{ℕ, ◌<◌, ◌≡◌, true, Option, some, none, List, [], ◌∷◌, ◌++◌}
use eins.Prelude.Family.{update}
use eins.Pool.{Config}
use eins.Pool.SlicePool.{SlicePool, Section, new_slice, close, open_new_item}
use eins.Pool.SlicePool.Session.{
  Session, outside, Turn, Choice, session_step, Opener, listening, calling, returned, opener_take,
}
use eins.Pool.SlicePool.Cleaning.{clean_pass}

pub record System : Type 0 where
  pub pool : SlicePool
  pub sessions : ℕ → Session
  pub opener : Opener
  pub opened : List ℕ
  pub shut : List ℕ

-- The item that a call of `New` has opened.
abbrev pub opened_by : Option ℕ → List ℕ
opened_by none = []
opened_by (some c) = c ∷ []

abbrev pub after_turn : System → ℕ → Turn → System
after_turn s i t = record s {
  pool = t.pool;
  sessions = update s.sessions i t.session;
  opened = t.opens ++ s.opened;
  shut = t.closes ++ s.shut;
}

abbrev pub after_section : System → Section → System
after_section s t = record s { pool = t.pool; shut = t.closes ++ s.shut }

pub data Step (n : ℕ) (s : System) : System → Type 0 where
  runs :
      (i now : ℕ) (c : Choice)
      → i < n
      → Step n s (after_turn s i (session_step s.pool now (s.sessions i) c))
  opener_takes : Step n s (record s {
    pool = (opener_take s.pool s.opener).0;
    opener = (opener_take s.pool s.opener).1;
  })
  opener_opens :
      (now pick : ℕ) (result : Option ℕ)
      → s.opener ≡ calling
      → Step n s (record (after_section s (open_new_item s.pool now pick result)) {
        opener = listening;
        opened = opened_by result ++ s.opened;
      })
  opener_stops :
      s.pool.closed ≡ true → s.opener ≡ listening → Step n s (record s { opener = returned })
  cleans : (now : ℕ) → Step n s (after_section s (clean_pass s.pool now).0)
  closes : Step n s (after_section s (close s.pool))

abbrev pub start : SlicePool → System
start p = record { pool = p; sessions = λ _. outside; opener = listening; opened = []; shut = [] }

pub data Reach (n : ℕ) (conf : Config) : System → Type 0 where
  begins : (p : SlicePool) → new_slice (some conf) ≡ some p → Reach n conf (start p)
  later : {s t : System} → Reach n conf s → Step n s t → Reach n conf t
