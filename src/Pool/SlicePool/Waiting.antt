-- ===== src/Pool/SlicePool/Waiting.antt =====
-- onepool/slice.go: when a `Get` waits, in every interleaving.
use eins.Prelude.{
  ℕ, ◌+◌, ◌≡◌, ◌≢◌, refl, sym, ◌∙◌, Bool, true, false, Option, none, some, List, [], ◌∷◌, length,
  arith, Option-cases, inl, inr, ◌⊎◌,
}
use eins.Prelude.Int.{ℤ, pos, ◌≤ℤ◌}
use eins.Prelude.Family.{total}
use eins.Pool.{Item, Config}
use eins.Pool.SlicePool.{
  SlicePool, num_requests, release, place_item, put_item, or_close, put, open_new_item, close,
  new_slice,
}
use eins.Pool.SlicePool.Session.{
  Session, outside, evicted, waiting, giving_up, replacing, dial_failed, holding, failed, Choice,
  get, proceed, put_back, session_step, request, pop_free, get_entry, select_item, Opener,
  listening, opener_take, delete_key,
}
use eins.Pool.SlicePool.Requests.{release-Untouched, release_open}
use eins.Pool.SlicePool.Accounting.{places, opener_places, slice_active_counts}
use eins.Pool.SlicePool.Cleaning.{clean_pass}
use eins.Pool.SlicePool.Cleaning.Shrinks.{clean_pass_empty, clean_pass-requests}
use eins.Pool.SlicePool.System.{
  System, Step, runs, opener_takes, opener_opens, opener_stops, cleans, closes, Reach, begins,
  later,
}

-- Nothing is free, and the limit, which is positive, is reached.
abbrev pub IsFull : SlicePool → Type 0
IsFull p = (p.free ≡ []) × (pos 1 ≤ℤ p.conf.active) × (p.conf.active ≤ℤ p.active)

-- While the pool is open, requests wait only if it is full.
abbrev pub Waits : SlicePool → Type 0
Waits p = p.closed ≡ false → (p.requests ≡ []) ⊎ IsFull p

release-Waits : (p : SlicePool) → Waits p → Waits (release p)
unfolding num_requests
release-Waits p h opened =
    let still : p.closed ≡ false = sym (release-Untouched p).closed ∙ opened in
    rw (release_open p still) (ground (arith, h still))

request-Waits :
    (p : SlicePool) (timeout : ℤ) → p.free ≡ [] → Waits p → Waits (request p timeout).pool
unfolding request
request-Waits p timeout none_free h opened = ground (arith, h)

pop_free-Waits :
    (p : SlicePool) (timeout : ℤ) (free : List Item)
    → p.free ≡ free
    → Waits p
    → Waits (pop_free p timeout free).pool
unfolding pop_free
pop_free-Waits p timeout [] e h opened = request-Waits p timeout e h opened
pop_free-Waits p timeout (i ∷ free) e h opened = ground (arith, h opened, e)

get_entry-Waits : (p : SlicePool) → Waits p → Waits (get_entry p).pool
unfolding get_entry
get_entry-Waits p h opened = ground (arith, h, pop_free-Waits p p.conf.idle_timeout p.free refl h)

place_item-Waits :
    (p : SlicePool) (pick : ℕ) (i : Item) (keys : List ℕ) {q : SlicePool}
    → p.requests ≡ keys
    → place_item p pick i keys ≡ some q
    → Waits p
    → Waits q
unfolding place_item
place_item-Waits p pick i [] waits e h opened = ground (arith, waits)
place_item-Waits p pick i (k ∷ ks) waits e h opened = ground (arith, waits, h)

place_item-refused :
    (p : SlicePool) (pick : ℕ) (i : Item) (keys : List ℕ)
    → place_item p pick i keys ≡ none
    → keys ≡ []
unfolding place_item
place_item-refused p pick i [] e = refl
place_item-refused p pick i (k ∷ ks) e = ground arith

or_close-Waits :
    (p : SlicePool) (now pick c : ℕ) → Waits p → Waits (or_close p c (put_item p now pick c)).pool
unfolding put_item
or_close-Waits p now pick c h =
    let i : Item = record { created_at = now; c = c } in
    elim (Option-cases (put_item p now pick c)) [
      | inl refused ↦ λ opened. ground (arith, h, refused, place_item-refused p pick i p.requests)
      | inr (q, taken) ↦
          rw taken (place_item-Waits p pick i p.requests {q = q} refl (ground arith) h)
    ]

put-Waits :
    (p : SlicePool) (now pick c : ℕ) (force : Bool) → Waits p → Waits (put p now pick c force).pool
unfolding put
put-Waits p now pick c true h = release-Waits p h
put-Waits p now pick c false h = or_close-Waits p now pick c h

open_new_item-Waits :
    (p : SlicePool) (now pick : ℕ) (result : Option ℕ)
    → Waits p
    → Waits (open_new_item p now pick result).pool
unfolding open_new_item
open_new_item-Waits p now pick none h = release-Waits p h
open_new_item-Waits p now pick (some c) h = or_close-Waits p now pick c h

select_item-Waits :
    (p : SlicePool) (timeout : ℤ) (key : ℕ) → Waits p → Waits (select_item p timeout key).pool
unfolding select_item
select_item-Waits p timeout key h opened = ground (arith, h)

delete_key-Waits :
    (p : SlicePool) (key : ℕ) → Waits p → Waits (record p { requests = delete_key key p.requests })
delete_key-Waits p key h opened = elim (h opened) [
  | inl none_waits ↦ rw none_waits (inl refl)
  | inr full ↦ inr full
]

session_step-Waits :
    (p : SlicePool) (now : ℕ) (s : Session) (c : Choice)
    → Waits p
    → Waits (session_step p now s c).pool
unfolding session_step
session_step-Waits p now outside get h = get_entry-Waits p h
session_step-Waits p now (failed e) get h = get_entry-Waits p h
session_step-Waits p now (evicted timeout) proceed h =
    pop_free-Waits (release p) timeout (release p).free refl (release-Waits p h)
session_step-Waits p now (waiting timeout key) proceed h = select_item-Waits p timeout key h
session_step-Waits p now (giving_up key) proceed h = delete_key-Waits p key h
session_step-Waits p now replacing proceed h = ground (arith, release-Waits p h)
session_step-Waits p now (dial_failed e) proceed h = release-Waits p h
session_step-Waits p now (holding c) (put_back pick force) h = put-Waits p now pick c force h
session_step-Waits p now s c h = ground arith

opener_take-Waits : (p : SlicePool) (o : Opener) → Waits p → Waits (opener_take p o).0
unfolding opener_take
opener_take-Waits p listening h = ground arith
opener_take-Waits p o h = h

clean_pass-Waits : (p : SlicePool) (now : ℕ) → Waits p → Waits (clean_pass p now).0.pool
clean_pass-Waits p now h opened =
    let (open', waits, conf) = clean_pass-requests p now in
    elim (h (sym open' ∙ opened)) [
      | inl nobody ↦ inl (waits ∙ nobody)
      | inr (none_free, limit, full) ↦
          let (free, active) = clean_pass_empty p now none_free in
          inr (free, rw conf limit, rw (conf, active) full)
    ]

close-Waits : (p : SlicePool) → Waits p → Waits (close p).pool
unfolding close
close-Waits p h opened = ground (arith, h)

start-Waits : (conf : Config) (p : SlicePool) → new_slice (some conf) ≡ some p → Waits p
unfolding new_slice
start-Waits conf p e opened = ground arith

Step-Waits : {n : ℕ} {s t : System} → Step n s t → Waits s.pool → Waits t.pool
Step-Waits {s = s} (runs i now c hi) h = session_step-Waits s.pool now (s.sessions i) c h
Step-Waits {s = s} opener_takes h = opener_take-Waits s.pool s.opener h
Step-Waits {s = s} (opener_opens now pick result e) h = open_new_item-Waits s.pool now pick result h
Step-Waits (opener_stops shut e) h = h
Step-Waits {s = s} (cleans now) h = clean_pass-Waits s.pool now h
Step-Waits {s = s} closes h = close-Waits s.pool h

Reach-Waits : {n : ℕ} {conf : Config} {s : System} → Reach n conf s → Waits s.pool
Reach-Waits {conf = conf} (begins p e) = start-Waits conf p e
Reach-Waits (later r st) = Step-Waits st (Reach-Waits r)

-- In every reachable state with an open pool, a request waits only while nothing is free and the limit,
-- which is positive, is reached: as many items as it allows are sent and not received, to be opened by
-- `itemOpener`, or with goroutines.
pub slice_waits_full :
    {n : ℕ} {conf : Config} {s : System}
    → Reach n conf s
    → s.pool.closed ≡ false
    → s.pool.requests ≢ []
    → (s.pool.free ≡ [])
      × (pos 1 ≤ℤ s.pool.conf.active)
      × (s.pool.conf.active
          ≤ℤ pos (
              length s.pool.mail
              + s.pool.opener
              + (opener_places s.opener + total places n s.sessions)))
slice_waits_full {s = s} r opened some_wait = elim (Reach-Waits r opened) [
  | inl nobody ↦ absurd (some_wait nobody)
  | inr (none_free, limit, full) ↦
      (none_free, limit, ground (arith, full, slice_active_counts r opened, none_free))
]
