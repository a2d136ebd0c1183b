-- ===== src/Pool/ListPool/Session.antt =====
-- onepool/list.go: `Get`, cut at each place where it holds no lock, and one goroutine that calls
-- `Get` and `Put` in turn.
use eins.Prelude.{
  ℕ, zero, suc, Bool, true, false, ◌&&◌, ◌||◌, not, List, [], ◌∷◌, length, if◌then◌else◌,
}
use eins.Prelude.Int.{pos, ◌+ℤ◌, ltb_ℤ, eqb_ℤ}
use eins.Pool.{Item, PoolError, exhausted, closed, dial, done, expired}
use eins.Pool.ListPool.{ListPool, release, put}

-- Where a goroutine stands. `popped` holds an item whose age is still to be checked, `evicted` has
-- closed an expired one and wants the lock back (both with the rounds of the loop that are left);
-- `dialing` runs `New`; `parking` has left the lock and not yet reached the `select`; `waiting` is
-- in the `select`, and `woken` has left it by `cond`; `holding` has the item that `Get` returned.
pub data Session : Type 0 where
  outside dialing parking waiting woken : Session
  popped : Item → ℕ → Session
  evicted : ℕ → Session
  dial_failed : ℕ → Session
  holding : ℕ → Session
  failed : PoolError → Session

-- What a section of `Get` leaves: the pool and the place where the goroutine stands.
pub record Turn : Type 0 where
  pub pool : ListPool
  pub session : Session
  pub signals : Bool
  pub closes : List ℕ
  pub opens : List ℕ

abbrev pub quiet : ListPool → Session → Turn
quiet p s = record { pool = p; session = s; signals = false; closes = []; opens = [] }

-- The part of the outer loop below the scan of the idle items.
unfoldable pub admit : ListPool → ListPool × Session
admit p =
    if p.closed
    then (p, failed closed)
    else if eqb_ℤ p.conf.active (pos 0) || ltb_ℤ p.active p.conf.active
    then (record p { active = p.active +ℤ pos 1 }, dialing)
    else if eqb_ℤ p.conf.wait_timeout (pos 0) && not p.conf.wait
    then (p, failed exhausted)
    else (p, parking)

-- The scan, from its head with `rounds` left: take the front item, or go on below.
unfoldable pub scan_items : ListPool → ℕ → List Item → ListPool × Session
scan_items p zero xs = admit p
scan_items p (suc rounds) [] = admit p
scan_items p (suc rounds) (x ∷ xs) = (record p { idles = xs }, popped x rounds)

unfoldable pub scan : ListPool → ℕ → ListPool × Session
unfolding scan_items admit
scan p rounds = scan_items p rounds p.idles

-- `Get` from its entry.
unfoldable pub get_entry : ListPool → ListPool × Session
unfolding scan
get_entry p = if p.closed then (p, failed closed) else scan p (length p.idles)

-- A Turn of a scan that signals or not.
abbrev turn : ListPool × Session → Bool → Turn
turn r signals = record { pool = r.0; session = r.1; signals = signals; closes = []; opens = [] }

-- The check of the popped item, with no lock held.
unfoldable pub check_popped : ListPool → ℕ → Item → ℕ → Turn
check_popped p now ic rounds =
    if expired now p.conf.idle_timeout ic
    then record {
      pool = p;
      session = evicted rounds;
      signals = false;
      closes = ic.c ∷ [];
      opens = [];
    }
    else quiet p (holding ic.c)

-- What the environment decides for a goroutine: to call `Get` or `Put`, to run on, how `New` ends,
-- and that the context is over. A waiting goroutine goes on only by a signal or by `ctx_done`.
pub data Choice : Type 0 where
  get proceed ctx_done : Choice
  dial_err : ℕ → Choice
  dial_ok : ℕ → Choice
  put_back : Bool → Choice

-- One step of a goroutine at time `now`. A choice that does not fit changes nothing.
unfoldable pub session_step : ListPool → ℕ → Session → Choice → Turn
unfolding get_entry check_popped put
session_step p now outside get = turn (get_entry p) false
session_step p now (failed e) get = turn (get_entry p) false
session_step p now (popped ic rounds) proceed = check_popped p now ic rounds
session_step p now (evicted rounds) proceed = turn (scan (release p) rounds) true
session_step p now dialing (dial_ok c) = record {
  pool = p;
  session = holding c;
  signals = false;
  closes = [];
  opens = c ∷ [];
}
session_step p now dialing (dial_err e) = quiet p (dial_failed e)
session_step p now (dial_failed e) proceed = record {
  pool = release p;
  session = failed (dial e);
  signals = true;
  closes = [];
  opens = [];
}
session_step p now parking proceed = quiet p waiting
session_step p now waiting ctx_done = quiet p (failed done)
session_step p now woken proceed = turn (scan p (length p.idles)) false
session_step p now (holding c) (put_back force_close) =
    let s = put p now c force_close in
    record { pool = s.pool; session = outside; signals = s.signals; closes = s.closes; opens = [] }
session_step p now s _ = quiet p s
