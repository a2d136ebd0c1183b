-- ===== src/Pool/SlicePool/Limits.antt =====
-- onepool/slice.go: how far `active` can go beyond `Active`.
use eins.Prelude.{
  ℕ, zero, suc, ◌≡◌, refl, ap, Bool, true, false, Option, none, some, List, [], ◌∷◌, length, arith,
  Option-cases, inl, inr,
}
use eins.Prelude.Int.{ℤ, pos, ◌+ℤ◌, ◌-ℤ◌, ◌≤ℤ◌}
use eins.Pool.{Item, Config}
use eins.Pool.SlicePool.{
  SlicePool, open_loop, num_requests, maybe_open, release, put_item, or_close, put, open_new_item,
  close, new_slice,
}
use eins.Pool.SlicePool.Session.{
  Session, outside, dialing, evicted, waiting, replacing, dial_failed, holding, failed, Choice, get,
  proceed, put_back, session_step, request, pop_free, get_entry, select_item, Opener, listening,
  opener_take,
}
use eins.Pool.SlicePool.Requests.{release-Untouched, release_open, reopened, put_item-Taken}
use eins.Pool.SlicePool.Cleaning.Shrinks.{clean_pass-le}
use eins.Pool.SlicePool.System.{
  System, Step, runs, opener_takes, opener_opens, opener_stops, cleans, closes, Reach, begins,
  later,
}

open_loop-le : (k : ℕ) (p : SlicePool) → (open_loop k p).active ≤ℤ p.active +ℤ pos k
unfolding open_loop
open_loop-le zero p = ground arith
open_loop-le (suc k) p =
    ground (arith, open_loop-le k (record p { active = p.active +ℤ pos 1; opener = suc p.opener }))

-- At most one item too many under a positive limit.
pub record IsBounded (conf : Config) (p : SlicePool) : Type 0 where
  pub bounded : pos 1 ≤ℤ conf.active → p.active ≤ℤ conf.active +ℤ pos 1
  pub same_conf : p.conf ≡ conf

-- At a positive limit that is not exceeded, `maybeOpenNewItems` does not exceed it.
maybe_open-le :
    (p : SlicePool)
    → pos 1 ≤ℤ p.conf.active
    → p.active ≤ℤ p.conf.active
    → (maybe_open p).active ≤ℤ p.conf.active
unfolding maybe_open num_requests
maybe_open-le p limited h = ground (arith, open_loop-le (num_requests p) p)

release-le :
    (p : SlicePool)
    → pos 1 ≤ℤ p.conf.active
    → p.active ≤ℤ p.conf.active +ℤ pos 1
    → (release p).active ≤ℤ p.conf.active
unfolding release
release-le p limited h =
    maybe_open-le (record p { active = p.active -ℤ pos 1 }) limited (ground arith)

module _ {conf : Config} where
  release-IsBounded : (p : SlicePool) → IsBounded conf p → IsBounded conf (release p)
  release-IsBounded p h = ground (arith, release-le p, release-Untouched p)

  request-IsBounded :
      (p : SlicePool) (timeout : ℤ) → IsBounded conf p → IsBounded conf (request p timeout).pool
  unfolding request
  request-IsBounded p timeout h = ground arith

  pop_free-IsBounded :
      (p : SlicePool) (timeout : ℤ) (free : List Item)
      → IsBounded conf p
      → IsBounded conf (pop_free p timeout free).pool
  unfolding pop_free
  pop_free-IsBounded p timeout [] h = request-IsBounded p timeout h
  pop_free-IsBounded p timeout (i ∷ free) h = ground arith

  get_entry-IsBounded : (p : SlicePool) → IsBounded conf p → IsBounded conf (get_entry p).pool
  unfolding get_entry
  get_entry-IsBounded p h = ground (arith, pop_free-IsBounded p p.conf.idle_timeout p.free)

  or_close-IsBounded :
      (p : SlicePool) (now pick c : ℕ)
      → IsBounded conf p
      → IsBounded conf (or_close p c (put_item p now pick c)).pool
  or_close-IsBounded p now pick c h = elim (Option-cases (put_item p now pick c)) [
    | inl refused ↦ rw refused (ground arith)
    | inr (q, taken) ↦ rw taken (ground (arith, put_item-Taken 0 p now pick c taken))
  ]

  put-IsBounded :
      (p : SlicePool) (now pick c : ℕ) (force_close : Bool)
      → IsBounded conf p
      → IsBounded conf (put p now pick c force_close).pool
  unfolding put
  put-IsBounded p now pick c true h = release-IsBounded p h
  put-IsBounded p now pick c false h = or_close-IsBounded p now pick c h

  select_item-IsBounded :
      (p : SlicePool) (timeout : ℤ) (key : ℕ)
      → IsBounded conf p
      → IsBounded conf (select_item p timeout key).pool
  unfolding select_item
  select_item-IsBounded p timeout key h = ground arith

  session_step-IsBounded :
      (p : SlicePool) (now : ℕ) (s : Session) (c : Choice)
      → IsBounded conf p
      → IsBounded conf (session_step p now s c).pool
  unfolding session_step
  session_step-IsBounded p now outside get h = get_entry-IsBounded p h
  session_step-IsBounded p now (failed e) get h = get_entry-IsBounded p h
  session_step-IsBounded p now (evicted timeout) proceed h =
      pop_free-IsBounded (release p) timeout (release p).free (release-IsBounded p h)
  session_step-IsBounded p now (waiting timeout key) proceed h =
      select_item-IsBounded p timeout key h
  session_step-IsBounded p now replacing proceed h =
      ground (arith, release-le p, release-Untouched p)
  session_step-IsBounded p now (dial_failed e) proceed h = release-IsBounded p h
  session_step-IsBounded p now (holding c) (put_back pick force) h =
      put-IsBounded p now pick c force h
  session_step-IsBounded p now s c h = ground arith

  open_new_item-IsBounded :
      (p : SlicePool) (now pick : ℕ) (result : Option ℕ)
      → IsBounded conf p
      → IsBounded conf (open_new_item p now pick result).pool
  unfolding open_new_item
  open_new_item-IsBounded p now pick none h = release-IsBounded p h
  open_new_item-IsBounded p now pick (some c) h = or_close-IsBounded p now pick c h

  opener_take-IsBounded :
      (p : SlicePool) (o : Opener) → IsBounded conf p → IsBounded conf (opener_take p o).0
  unfolding opener_take
  opener_take-IsBounded p listening h = ground arith
  opener_take-IsBounded p o h = h

  Step-IsBounded :
      {n : ℕ} {s t : System} → Step n s t → IsBounded conf s.pool → IsBounded conf t.pool
  unfolding close
  Step-IsBounded {s = s} (runs i now c hi) h = session_step-IsBounded s.pool now (s.sessions i) c h
  Step-IsBounded {s = s} opener_takes h = opener_take-IsBounded s.pool s.opener h
  Step-IsBounded {s = s} (opener_opens now pick result e) h =
      open_new_item-IsBounded s.pool now pick result h
  Step-IsBounded (opener_stops shut e) h = h
  Step-IsBounded {s = s} (cleans now) h = ground (arith, clean_pass-le s.pool now)
  Step-IsBounded closes h = ground arith

  start-IsBounded : (p : SlicePool) → new_slice (some conf) ≡ some p → IsBounded conf p
  unfolding new_slice
  start-IsBounded p e = ground arith

Reach-IsBounded : {n : ℕ} {conf : Config} {s : System} → Reach n conf s → IsBounded conf s.pool
Reach-IsBounded (begins p e) = start-IsBounded p e
Reach-IsBounded (later r st) = Step-IsBounded st (Reach-IsBounded r)

-- In every reachable state, the pool counts at most one item beyond a positive `Active`.
pub slice_active_bounded :
    {n : ℕ} {conf : Config} {s : System}
    → Reach n conf s
    → pos 1 ≤ℤ conf.active
    → s.pool.active ≤ℤ conf.active +ℤ pos 1
slice_active_bounded r limit = (Reach-IsBounded r).bounded limit

reopened_one :
    (p : SlicePool) (a : ℕ) {n : ℕ}
    → p.closed ≡ false
    → p.conf.active ≡ pos (suc a)
    → p.active ≡ pos (suc a)
    → length p.requests ≡ suc n
    → reopened p ≡ 1
unfolding num_requests
reopened_one p a opened limit full waits = ground arith

reopened_none : (p : SlicePool) → length p.requests ≡ 0 → reopened p ≡ 0
unfolding num_requests
reopened_none p waits = ground arith

release_quiet :
    (p : SlicePool) → length p.requests ≡ 0 → release p ≡ record p { active = p.active -ℤ pos 1 }
unfolding release maybe_open open_loop
release_quiet p waits = rw (reopened_none p waits, open_loop)

-- It does go one beyond: a goroutine that finds the item it was sent expired counts a new one without
-- asking for the limit again, after its release has reserved the freed place for another request.
replacing_overshoots :
    (p : SlicePool) (now a key : ℕ) (keys : List ℕ)
    → p.closed ≡ false
    → p.conf.active ≡ pos (suc a)
    → p.active ≡ pos (suc a)
    → p.requests ≡ key ∷ keys
    → let t = session_step p now replacing proceed in
      (t.session ≡ dialing) × (t.pool.active ≡ pos (suc (suc a)))
unfolding session_step
replacing_overshoots p now a key keys opened limit full waits =
    let one = reopened_one p a opened limit full (ap length waits) in
    (refl, rw (release_open p opened) (ground arith))

request_dials :
    (p : SlicePool) (timeout : ℤ)
    → p.active ≤ℤ p.conf.active
    → (request (record p { active = p.active -ℤ pos 1 }) timeout).session ≡ dialing
unfolding request
request_dials p timeout room = ground arith

-- A `Get` that was dropping expired items when the pool was closed opens a new item on the closed pool,
-- if the limit has room for it: only the entry of `Get` looks at `closed`.
dials_after_close :
    (p : SlicePool) (now : ℕ) (timeout : ℤ)
    → p.closed ≡ true
    → p.free ≡ []
    → p.requests ≡ []
    → p.active ≤ℤ p.conf.active
    → (session_step p now (evicted timeout) proceed).session ≡ dialing
unfolding session_step pop_free
dials_after_close p now timeout shut none_free none_waits room =
    rw (release_quiet p (ap length none_waits), none_free)
      (request_dials (record p { free = [] }) timeout room)
