-- ===== src/Pool/SlicePool/Session.antt =====
-- onepool/slice.go: `Get`, cut at each place where it holds no lock, the goroutine that calls `Get`
-- and `Put` in turn, and `itemOpener`.
use eins.Prelude.{
  ℕ, zero, suc, Bool, false, ◌&&◌, ◌||◌, not, Option, none, some, List, [], ◌∷◌, if◌then◌else◌,
  ◌==◌,
}
use eins.Prelude.Int.{ℤ, pos, ◌+ℤ◌, ltb_ℤ, leb_ℤ, eqb_ℤ}
use eins.Pool.{Item, PoolError, exhausted, closed, dial, done, expired}
use eins.Pool.SlicePool.{SlicePool, release, put}

-- Where a goroutine stands. The number that most places carry is `idleTimeout`, which `Get` reads at
-- its entry. `popped` has a free item whose age is to be checked, `evicted` has closed an expired
-- one; `waiting` is in the `select` on the channel of its request, `giving_up` has left it by its
-- context; `received` has an item from the channel, `replacing` has closed it as expired.
pub data Session : Type 0 where
  outside dialing : Session
  popped : ℤ → Item → Session
  evicted : ℤ → Session
  waiting : ℤ → ℕ → Session
  giving_up : ℕ → Session
  received : ℤ → Item → Session
  replacing : Session
  dial_failed : ℕ → Session
  holding : ℕ → Session
  failed : PoolError → Session

pub record Turn : Type 0 where
  pub pool : SlicePool
  pub session : Session
  pub closes : List ℕ
  pub opens : List ℕ

abbrev pub quiet : SlicePool → Session → Turn
quiet p s = record { pool = p; session = s; closes = []; opens = [] }

abbrev pub closing : SlicePool → Session → ℕ → Turn
closing p s c = record { pool = p; session = s; closes = c ∷ []; opens = [] }

-- Opening an item, which is counted before `New` is called.
abbrev pub dial_new : SlicePool → Turn
dial_new p = quiet (record p { active = p.active +ℤ pos 1 }) dialing

-- The limit leaves no room for another item.
abbrev pub is_full : SlicePool → Bool
is_full p = ltb_ℤ (pos 0) p.conf.active && leb_ℤ p.conf.active p.active

-- The configuration lets nobody wait.
abbrev pub refuses : SlicePool → Bool
refuses p = eqb_ℤ p.conf.wait_timeout (pos 0) && not p.conf.wait

-- A request under the next key (`nextRequestKeyLocked`).
abbrev pub ask : SlicePool → ℤ → Turn
ask p timeout =
    quiet (record p { requests = p.next_request ∷ p.requests; next_request = suc p.next_request })
      (waiting timeout p.next_request)

-- The part of `Get` below the loop over the free items.
unfoldable pub request : SlicePool → ℤ → Turn
request p timeout =
    if is_full p
    then (if refuses p then quiet p (failed exhausted) else ask p timeout)
    else dial_new p

-- The loop from its head: take the first free item, or go on below.
unfoldable pub pop_free : SlicePool → ℤ → List Item → Turn
unfolding request
pop_free p timeout [] = request p timeout
pop_free p timeout (i ∷ free) = quiet (record p { free = free }) (popped timeout i)

-- `Get` from its entry.
unfoldable pub get_entry : SlicePool → Turn
unfolding pop_free
get_entry p = if p.closed then quiet p (failed closed) else pop_free p p.conf.idle_timeout p.free

-- The item that was sent to the channel `key`, and what stays in the others.
unfoldable pub receive : ℕ → List (ℕ × Item) → Option (Item × List (ℕ × Item))
receive key [] = none
receive key ((k, i) ∷ mail) =
    if k == key
    then some (i, mail)
    else elim (receive key mail) [ none ↦ none | some (j, rest) ↦ some (j, (k, i) ∷ rest) ]

abbrev pub has_key : ℕ → List ℕ → Bool
has_key key [] = false
has_key key (k ∷ ks) = (k == key) || has_key key ks

-- `delete(p.itemRequests, key)`.
abbrev pub delete_key : ℕ → List ℕ → List ℕ
delete_key key [] = []
delete_key key (k ∷ ks) = if k == key then delete_key key ks else k ∷ delete_key key ks

-- The receive from the channel of a request: an item, the close of the channel, or nothing yet.
unfoldable pub select_item : SlicePool → ℤ → ℕ → Turn
unfolding receive
select_item p timeout key = elim (receive key p.mail) [
  | some (i, rest) ↦ quiet (record p { mail = rest }) (received timeout i)
  | none ↦
      if has_key key p.closed_keys then quiet p (failed closed) else quiet p (waiting timeout key)
]

-- What the environment decides for a goroutine: to call `Get` or `Put` (with the request that a map
-- iteration meets), to run on, how `New` ends, and that the context is over.
pub data Choice : Type 0 where
  get proceed ctx_done : Choice
  dial_ok dial_err : ℕ → Choice
  put_back : ℕ → Bool → Choice

-- One step of a goroutine at time `now`. A choice that does not fit changes nothing.
unfoldable pub session_step : SlicePool → ℕ → Session → Choice → Turn
unfolding get_entry select_item
session_step p now outside get = get_entry p
session_step p now (failed e) get = get_entry p
session_step p now (popped timeout i) proceed =
    if expired now timeout i then closing p (evicted timeout) i.c else quiet p (holding i.c)
session_step p now (evicted timeout) proceed = let q = release p in pop_free q timeout q.free
session_step p now (waiting timeout key) proceed = select_item p timeout key
session_step p now (waiting timeout key) ctx_done = quiet p (giving_up key)
session_step p now (giving_up key) proceed =
    quiet (record p { requests = delete_key key p.requests }) (failed done)
session_step p now (received timeout i) proceed =
    if expired now timeout i then closing p replacing i.c else quiet p (holding i.c)
session_step p now replacing proceed = dial_new (release p)
session_step p now dialing (dial_ok c) = record {
  pool = p;
  session = holding c;
  closes = [];
  opens = c ∷ [];
}
session_step p now dialing (dial_err e) = quiet p (dial_failed e)
session_step p now (dial_failed e) proceed = quiet (release p) (failed (dial e))
session_step p now (holding c) (put_back pick force_close) =
    let s = put p now pick c force_close in
    record { pool = s.pool; session = outside; closes = s.closes; opens = [] }
session_step p now s _ = quiet p s

-- Where `itemOpener` stands: at its `select`, in `New`, or returned.
pub data Opener : Type 0 where
  listening calling returned : Opener

-- The receive from `openerCh`.
unfoldable pub opener_take : SlicePool → Opener → SlicePool × Opener
opener_take p listening = elim p.opener [
  | zero ↦ (p, listening)
  | suc n ↦ (record p { opener = n }, calling)
]
opener_take p o = (p, o)
