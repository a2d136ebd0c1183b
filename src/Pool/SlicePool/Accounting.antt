-- ===== src/Pool/SlicePool/Accounting.antt =====
-- onepool/slice.go: what `active` counts while the pool is open, and where each item is, in every
-- interleaving.
use eins.Prelude.{
  ℕ, ◌+◌, ◌≡◌, ◌<◌, refl, sym, ap, ◌∙◌, Bool, true, false, Option, none, some, List, [], ◌∷◌,
  length, arith, Option-cases, inl, inr,
}
use eins.Prelude.Int.{ℤ, pos}
use eins.Prelude.Family.{update, total, total-update, total_const}
use eins.Pool.{Item, Config}
use eins.Pool.SlicePool.{
  SlicePool, release, put_item, or_close, put, open_new_item, close, new_slice,
}
use eins.Pool.SlicePool.Session.{
  Session, outside, dialing, popped, evicted, waiting, received, replacing, dial_failed, holding,
  failed, Turn, Choice, get, proceed, put_back, session_step, request, pop_free, get_entry,
  select_item, receive, Opener, listening, calling, opener_take,
}
use eins.Pool.SlicePool.Requests.{release-Untouched, release_open, put_item-Taken, receive-mail}
use eins.Pool.SlicePool.Cleaning.{clean_pass}
use eins.Pool.SlicePool.Cleaning.Sums.{clean_pass-counted}
use eins.Pool.SlicePool.System.{
  System, after_turn, Step, runs, opener_takes, opener_opens, opener_stops, cleans, closes, Reach,
  begins, later, start,
}

-- The places in the count that a goroutine occupies.
abbrev pub places : Session → ℕ
places (popped _ _) = 1
places (evicted _) = 1
places (received _ _) = 1
places replacing = 1
places dialing = 1
places (dial_failed _) = 1
places (holding _) = 1
places _ = 0

abbrev pub opener_places : Opener → ℕ
opener_places calling = 1
opener_places _ = 0

-- The items of the pool itself that `active` counts: free, sent to a request, and still to be opened.
abbrev pub stock : SlicePool → ℕ
stock p = length p.free + length p.mail + p.opener

-- While it is open, the pool's `active` counts its stock and `rest` more.
abbrev Balance : SlicePool → ℕ → Type 0
Balance p rest = p.closed ≡ false → p.active ≡ pos (stock p + rest)

release-Balance : (p : SlicePool) (rest : ℕ) → Balance p (1 + rest) → Balance (release p) rest
release-Balance p rest h e =
    let e' : p.closed ≡ false = sym (release-Untouched p).closed ∙ e in
    rw (release_open p e') (ground (arith, h e'))

request-Balance :
    (p : SlicePool) (timeout : ℤ) (rest : ℕ)
    → Balance p rest
    → let t = request p timeout in Balance t.pool (places t.session + rest)
unfolding request
request-Balance p timeout rest h e = ground arith

pop_free-Balance :
    (p : SlicePool) (timeout : ℤ) (free : List Item) (rest : ℕ)
    → p.free ≡ free
    → Balance p rest
    → let t = pop_free p timeout free in Balance t.pool (places t.session + rest)
unfolding pop_free
pop_free-Balance p timeout [] rest same h e = request-Balance p timeout rest h e
pop_free-Balance p timeout (i ∷ free) rest same h e = ground (arith, ap length same, h e)

get_entry-Balance :
    (p : SlicePool) (rest : ℕ)
    → Balance p rest
    → let t = get_entry p in Balance t.pool (places t.session + rest)
unfolding get_entry
get_entry-Balance p rest h e =
    ground (arith, pop_free-Balance p p.conf.idle_timeout p.free rest refl h)

or_close-Balance :
    (p : SlicePool) (now pick c rest : ℕ)
    → Balance p (1 + rest)
    → Balance (or_close p c (put_item p now pick c)).pool rest
or_close-Balance p now pick c rest h e = elim (Option-cases (put_item p now pick c)) [
  | inl refused ↦ rw refused (ground (arith, h (ground arith)))
  | inr (q, taken) ↦
      let t = put_item-Taken 0 p now pick c taken in
      rw taken (t.active ∙ h (ground arith) ∙ ap pos (omega (arith, t.more, t.opener)))
]

put-Balance :
    (p : SlicePool) (now pick c rest : ℕ) (force_close : Bool)
    → Balance p (1 + rest)
    → Balance (put p now pick c force_close).pool rest
unfolding put
put-Balance p now pick c rest true h = release-Balance p rest h
put-Balance p now pick c rest false h = or_close-Balance p now pick c rest h

open_new_item-Balance :
    (p : SlicePool) (now pick rest : ℕ) (result : Option ℕ)
    → Balance p (1 + rest)
    → Balance (open_new_item p now pick result).pool rest
unfolding open_new_item
open_new_item-Balance p now pick rest none h = release-Balance p rest h
open_new_item-Balance p now pick rest (some c) h = or_close-Balance p now pick c rest h

select_item-Balance :
    (p : SlicePool) (timeout : ℤ) (key rest : ℕ)
    → Balance p rest
    → let t = select_item p timeout key in Balance t.pool (places t.session + rest)
unfolding select_item
select_item-Balance p timeout key rest h = elim (Option-cases (receive key p.mail)) [
  | inl nothing ↦ ground (arith, h)
  | inr ((i, mail), found) ↦ ground (arith, h, receive-mail 0 key p.mail found)
]

drop_zero : (p : SlicePool) (rest : ℕ) → Balance p (0 + rest) → Balance p rest
drop_zero p rest h e = h e ∙ ap pos (omega arith)

add_zero : (p : SlicePool) (rest : ℕ) → Balance p rest → Balance p (0 + rest)
add_zero p rest h e = h e ∙ ap pos (omega arith)

session_step-Balance :
    (p : SlicePool) (now : ℕ) (s : Session) (c : Choice) (rest : ℕ)
    → Balance p (places s + rest)
    → let t = session_step p now s c in Balance t.pool (places t.session + rest)
unfolding session_step
session_step-Balance p now outside get rest h = get_entry-Balance p rest (drop_zero p rest h)
session_step-Balance p now (failed e) get rest h = get_entry-Balance p rest (drop_zero p rest h)
session_step-Balance p now (evicted timeout) proceed rest h =
    pop_free-Balance (release p) timeout (release p).free rest refl (release-Balance p rest h)
session_step-Balance p now (waiting timeout key) proceed rest h =
    select_item-Balance p timeout key rest (drop_zero p rest h)
session_step-Balance p now replacing proceed rest h =
    λ e. ground (arith, release-Balance p rest h e)
session_step-Balance p now (dial_failed e) proceed rest h =
    add_zero (release p) rest (release-Balance p rest h)
session_step-Balance p now (holding c) (put_back pick force) rest h =
    add_zero (put p now pick c force).pool rest (put-Balance p now pick c rest force h)
session_step-Balance p now s c rest h = λ e. ground (arith, h (ground arith))

opener_take-Balance :
    (p : SlicePool) (o : Opener) (rest : ℕ)
    → Balance p (opener_places o + rest)
    → let r = opener_take p o in Balance r.0 (opener_places r.1 + rest)
unfolding opener_take
opener_take-Balance p listening rest h e = ground (arith, h (ground arith))
opener_take-Balance p o rest h e = h e

clean_pass-closed :
    (p : SlicePool) (now : ℕ) → (clean_pass p now).0.pool.closed ≡ false → p.closed ≡ false
unfolding clean_pass
clean_pass-closed p now e = ground arith

clean_pass-Balance :
    (p : SlicePool) (now rest : ℕ) → Balance p rest → Balance (clean_pass p now).0.pool rest
unfolding clean_pass
clean_pass-Balance p now rest h e = ground (
  arith,
  clean_pass-counted p now (length p.mail + p.opener + rest),
  h (clean_pass-closed p now e),
)

close-Balance : (p : SlicePool) (rest : ℕ) → Balance p rest → Balance (close p).pool rest
unfolding close
close-Balance p rest h e = ground (arith, h (ground arith))

-- As long as the pool is open, `active` is the number of the free items, of those on their way to a
-- waiting goroutine, of the tokens in `openerCh` and of the places of the goroutines.
abbrev pub Counts : ℕ → System → Type 0
Counts n s =
    s.pool.closed ≡ false
    → s.pool.active ≡ pos (stock s.pool + (opener_places s.opener + total places n s.sessions))

turn-Counts :
    {n : ℕ} (s : System) (i : ℕ) (t : Turn)
    → i < n
    → ((rest : ℕ)
        → Balance s.pool (places (s.sessions i) + rest)
        → Balance t.pool (places t.session + rest))
    → Counts n s
    → Counts n (after_turn s i t)
turn-Counts {n} s i t hi balance h e =
    let old = total-update places n s.sessions i outside hi in
    let new = total-update places n s.sessions i t.session hi in
    balance (opener_places s.opener + total places n (update s.sessions i outside))
      (λ e'. h e' ∙ ap pos (omega (arith, old))) e
    ∙ ap pos (omega (arith, old, new))

pub Step-Counts : {n : ℕ} {s t : System} → Step n s t → Counts n s → Counts n t
Step-Counts {n} {s} (runs i now c hi) h =
    turn-Counts s i (session_step s.pool now (s.sessions i) c) hi
      (session_step-Balance s.pool now (s.sessions i) c) h
Step-Counts {n} {s} opener_takes h =
    opener_take-Balance s.pool s.opener (total places n s.sessions) h
Step-Counts {n} {s} (opener_opens now pick result e) h =
    add_zero (open_new_item s.pool now pick result).pool (total places n s.sessions)
      (open_new_item-Balance s.pool now pick (total places n s.sessions) result (rw e at h))
Step-Counts {n} {s} (opener_stops shut e) h = λ opened. cc
Step-Counts {n} {s} (cleans now) h = clean_pass-Balance s.pool now _ h
Step-Counts {n} {s} closes h = close-Balance s.pool _ h

start-Counts :
    (n : ℕ) (conf : Config) (p : SlicePool) → new_slice (some conf) ≡ some p → Counts n (start p)
unfolding new_slice
start-Counts n conf p e = λ _. ground (arith, total_const places n outside refl)

Reach-Counts_open : {n : ℕ} {conf : Config} {s : System} → Reach n conf s → Counts n s
Reach-Counts_open {n} {conf} (begins p e) = start-Counts n conf p e
Reach-Counts_open (later r st) = Step-Counts st (Reach-Counts_open r)

-- In every reachable state with an open pool, `active` is the number of the free items, of those that
-- were sent to a request and not received, of the tokens in `openerCh`, and of the items that
-- goroutines and `itemOpener` hold, open, or have still to release.
pub slice_active_counts :
    {n : ℕ} {conf : Config} {s : System}
    → Reach n conf s
    → s.pool.closed ≡ false
    → s.pool.active ≡ pos (stock s.pool + (opener_places s.opener + total places n s.sessions))
slice_active_counts r opened = Reach-Counts_open r opened
