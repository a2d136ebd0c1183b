-- ===== src/Pool/SlicePool/Ownership.antt =====
-- onepool/slice.go: where each item is, in every interleaving.
use eins.Prelude.{
  ℕ, ◌+◌, ◌≡◌, ◌≢◌, ◌≤◌, ◌<◌, refl, ap, Bool, true, false, Option, none, some, List, [], ◌∷◌, arith,
  Option-cases, inl, inr, if◌then◌else◌, ◌==◌, count, count-append,
}
use eins.Prelude.Int.{ℤ}
use eins.Prelude.Family.{total, total-update, total_const, total_two, total_one}
use eins.Pool.{Item, Config}
use eins.Pool.SlicePool.{
  SlicePool, release, put_item, or_close, put, open_new_item, close, new_slice, conns,
}
use eins.Pool.SlicePool.Session.{
  Session, outside, popped, evicted, waiting, received, replacing, dial_failed, holding, failed,
  Turn, Choice, get, proceed, put_back, session_step, request, pop_free, get_entry, select_item,
  receive, Opener, listening, opener_take,
}
use eins.Pool.SlicePool.Requests.{release-Untouched, count_mail, put_item-Taken, receive-mail}
use eins.Pool.SlicePool.Cleaning.{clean_pass}
use eins.Pool.SlicePool.Cleaning.Sums.{clean_pass-counts}
use eins.Pool.SlicePool.System.{
  System, after_turn, opened_by, Step, runs, opener_takes, opener_opens, opener_stops, cleans,
  closes, Reach, begins, later, start,
}

-- Whether a goroutine has the item `a` in hand.
abbrev pub holds : ℕ → Session → ℕ
holds a (popped _ i) = if a == i.c then 1 else 0
holds a (received _ i) = if a == i.c then 1 else 0
holds a (holding c) = if a == c then 1 else 0
holds a _ = 0

-- How often the pool itself has the item `a`: free, or sent to a request and not received.
abbrev pub stocked : ℕ → SlicePool → ℕ
stocked a p = count a (conns p.free) + count_mail a p.mail

-- As often as the item `a` was opened, the pool has it, a goroutine holds it, or it is closed.
abbrev pub Owns : ℕ → ℕ → System → Type 0
Owns a n s = stocked a s.pool + total (holds a) n s.sessions + count a s.shut ≡ count a s.opened

module _ (a : ℕ) where
  abbrev Kept : SlicePool → ℕ → SlicePool → ℕ → Type 0
  Kept p before q after = stocked a q + after ≡ stocked a p + before

  release-Kept : (p : SlicePool) (k : ℕ) → Kept p k (release p) k
  release-Kept p k = let same = release-Untouched p in rw (same.free, same.mail) refl

  -- A turn of a goroutine that had `before` of the item.
  abbrev TurnKept : SlicePool → ℕ → Turn → Type 0
  TurnKept p before t =
      Kept p (before + count a t.opens) t.pool (holds a t.session + count a t.closes)

  request-Kept : (p : SlicePool) (timeout : ℤ) → TurnKept p 0 (request p timeout)
  unfolding request
  request-Kept p timeout = ground arith

  pop_free-Kept :
      (p : SlicePool) (timeout : ℤ) (free : List Item)
      → p.free ≡ free
      → TurnKept p 0 (pop_free p timeout free)
  unfolding pop_free
  pop_free-Kept p timeout [] e = request-Kept p timeout
  pop_free-Kept p timeout (i ∷ free) e = omega (arith, ap (λ l. count a (conns l)) e)

  get_entry-Kept : (p : SlicePool) → TurnKept p 0 (get_entry p)
  unfolding get_entry
  get_entry-Kept p = ground (arith, pop_free-Kept p p.conf.idle_timeout p.free refl)

  or_close-Kept :
      (p : SlicePool) (now pick c : ℕ)
      → let r = or_close p c (put_item p now pick c) in
        Kept p (if a == c then 1 else 0) r.pool (count a r.closes)
  or_close-Kept p now pick c = elim (Option-cases (put_item p now pick c)) [
    | inl refused ↦ rw refused (omega arith)
    | inr (q, taken) ↦ rw taken (omega (arith, (put_item-Taken a p now pick c taken).owned))
  ]

  put-Kept :
      (p : SlicePool) (now pick c : ℕ) (force_close : Bool)
      → let r = put p now pick c force_close in
        Kept p (if a == c then 1 else 0) r.pool (count a r.closes)
  unfolding put
  put-Kept p now pick c true = omega (arith, release-Kept p (if a == c then 1 else 0))
  put-Kept p now pick c false = or_close-Kept p now pick c

  open_new_item-Kept :
      (p : SlicePool) (now pick : ℕ) (result : Option ℕ)
      → let r = open_new_item p now pick result in
        Kept p (count a (opened_by result)) r.pool (count a r.closes)
  unfolding open_new_item
  open_new_item-Kept p now pick none = release-Kept p 0
  open_new_item-Kept p now pick (some c) = omega (arith, or_close-Kept p now pick c)

  select_item-Kept :
      (p : SlicePool) (timeout : ℤ) (key : ℕ) → TurnKept p 0 (select_item p timeout key)
  unfolding select_item
  select_item-Kept p timeout key = elim (Option-cases (receive key p.mail)) [
    | inl nothing ↦ ground arith
    | inr ((i, mail), found) ↦ ground (arith, receive-mail a key p.mail found)
  ]

  session_step-Kept :
      (p : SlicePool) (now : ℕ) (s : Session) (c : Choice)
      → TurnKept p (holds a s) (session_step p now s c)
  unfolding session_step
  session_step-Kept p now outside get = get_entry-Kept p
  session_step-Kept p now (failed e) get = get_entry-Kept p
  session_step-Kept p now (evicted timeout) proceed =
      let t = pop_free (release p) timeout (release p).free in
      let kept : TurnKept (release p) 0 t =
        pop_free-Kept (release p) timeout (release p).free refl in
      let result : TurnKept p 0 t = omega (arith, release-Kept p 0, kept) in result
  session_step-Kept p now (waiting timeout key) proceed = select_item-Kept p timeout key
  session_step-Kept p now replacing proceed = omega (arith, release-Kept p 0)
  session_step-Kept p now (dial_failed e) proceed = omega (arith, release-Kept p 0)
  session_step-Kept p now (holding c) (put_back pick force) =
      omega (arith, put-Kept p now pick c force)
  session_step-Kept p now s c = ground arith

  opener_take-Kept : (p : SlicePool) (o : Opener) → Kept p 0 (opener_take p o).0 0
  unfolding opener_take
  opener_take-Kept p listening = ground arith
  opener_take-Kept p o = refl

  clean_pass-Kept :
      (p : SlicePool) (now : ℕ) → let r = (clean_pass p now).0 in Kept p 0 r.pool (count a r.closes)
  unfolding clean_pass
  clean_pass-Kept p now = ground (arith, clean_pass-counts a p now)

  close-Kept : (p : SlicePool) → Kept p 0 (close p).pool (count a (close p).closes)
  unfolding close
  close-Kept p = ground arith

  turn-Owns :
      {n : ℕ} (s : System) (i : ℕ) (t : Turn)
      → i < n
      → TurnKept s.pool (holds a (s.sessions i)) t
      → Owns a n s
      → Owns a n (after_turn s i t)
  turn-Owns {n} s i t hi kept h = omega (
    arith,
    count-append a t.closes s.shut,
    count-append a t.opens s.opened,
    total-update (holds a) n s.sessions i t.session hi,
  )

  Step-Owns : {n : ℕ} {s t : System} → Step n s t → Owns a n s → Owns a n t
  Step-Owns {n} {s} (runs i now c hi) h =
      turn-Owns s i (session_step s.pool now (s.sessions i) c) hi
        (session_step-Kept s.pool now (s.sessions i) c) h
  Step-Owns {n} {s} opener_takes h = omega (arith, opener_take-Kept s.pool s.opener)
  Step-Owns {n} {s} (opener_opens now pick result e) h = omega (
    arith,
    open_new_item-Kept s.pool now pick result,
    count-append a (open_new_item s.pool now pick result).closes s.shut,
    count-append a (opened_by result) s.opened,
  )
  Step-Owns (opener_stops shut e) h = h
  Step-Owns {n} {s} (cleans now) h =
      omega
        (arith, clean_pass-Kept s.pool now, count-append a (clean_pass s.pool now).0.closes s.shut)
  Step-Owns {n} {s} closes h =
      omega (arith, close-Kept s.pool, count-append a (close s.pool).closes s.shut)

  start-Owns :
      (n : ℕ) (conf : Config) (p : SlicePool) → new_slice (some conf) ≡ some p → Owns a n (start p)
  unfolding new_slice
  start-Owns n conf p e = ground (arith, total_const (holds a) n outside refl)

-- In every reachable state each item that was opened is in one place, counted with repetitions: it is
-- free, sent to a request and not received, in the hands of a goroutine, or closed.
pub slice-Owns : (a : ℕ) {n : ℕ} {conf : Config} {s : System} → Reach n conf s → Owns a n s
slice-Owns a {n} {conf} (begins p e) = start-Owns a n conf p e
slice-Owns a (later r st) = Step-Owns a st (slice-Owns a r)

holds_one : (s : Session) (c : ℕ) → s ≡ holding c → holds c s ≡ 1
holds_one s c e = ground arith

-- If no item is opened twice, the item that `Get` has given to a goroutine `i` is not in the hands of
-- another goroutine `j`, the pool does not have it, and it has not been closed.
pub slice_held_exclusive :
    {n : ℕ} {conf : Config} {s : System} (i j c : ℕ)
    → Reach n conf s
    → count c s.opened ≤ 1
    → i < n
    → j < n
    → i ≢ j
    → s.sessions i ≡ holding c
    → (s.sessions j ≢ holding c) × (stocked c s.pool ≡ 0) × (count c s.shut ≡ 0)
slice_held_exclusive {n} {s = s} i j c r fresh hi hj ne e =
    let owns = slice-Owns c r in
    let mine = holds_one (s.sessions i) c e in
    let sum = total_one (holds c) n s.sessions i hi in
    let both = total_two (holds c) n s.sessions i j hi hj ne in
    (
      λ e'. omega (arith, owns, mine, holds_one (s.sessions j) c e', both),
      omega (arith, owns, mine, sum),
      omega (arith, owns, mine, sum),
    )
