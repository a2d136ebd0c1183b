-- ===== src/Pool/ListPool/Ownership.antt =====
-- onepool/list.go: where each item is, in every interleaving.
use eins.Prelude.{
  ℕ, zero, suc, ◌+◌, ◌≡◌, ◌≢◌, ◌≤◌, ◌<◌, refl, ap, Bool, true, false, List, [], ◌∷◌, length,
  split_back, arith, some, if◌then◌else◌, ◌==◌, count, count-append,
}
use eins.Prelude.Family.{update, total, total-update, total_const, total_two, total_one}
use eins.Pool.{Item, Config}
use eins.Pool.ListPool.{
  ListPool, conns, close, reload, clean_step, put, new_list, release, clean_items, clean_wake,
  drained, clean_step_cases,
}
use eins.Pool.ListPool.Session.{
  Session, outside, waiting, woken, popped, evicted, holding, failed, Turn, Choice, get, proceed,
  put_back, session_step, admit, scan_items, scan, get_entry, check_popped,
}
use eins.Pool.ListPool.System.{
  System, Step, runs, cleans, closes, reloads, Reach, begins, later, start, receive, deliver,
  after_turn,
}

-- Whether a goroutine has the item `a` in hand.
abbrev pub holds : ℕ → Session → ℕ
holds a (popped ic _) = if a == ic.c then 1 else 0
holds a (holding c) = if a == c then 1 else 0
holds a _ = 0

-- As often as the item `a` was opened, it is idle, held by a goroutine, or closed.
abbrev pub Owns : ℕ → ℕ → System → Type 0
Owns a n s =
    count a (conns s.pool.idles) + total (holds a) n s.sessions + count a s.shut ≡ count a s.opened

module _ (a : ℕ) where
  count-split_back :
      (x : Item) (xs : List Item)
      → let r = split_back x xs in
        count a (conns r.0) + (if a == r.1.c then 1 else 0) ≡ count a (conns (x ∷ xs))
  count-split_back x [] = omega arith
  count-split_back x (y ∷ ys) = omega (arith, count-split_back y ys)

  abbrev Kept : ListPool → ℕ → ListPool → ℕ → Type 0
  Kept p before q after = count a (conns q.idles) + after ≡ count a (conns p.idles) + before

  admit-Kept : (p : ListPool) → Kept p 0 (admit p).0 (holds a (admit p).1)
  unfolding admit
  admit-Kept p = ground arith

  scan_items-Kept :
      (p : ListPool) (rounds : ℕ) (xs : List Item)
      → p.idles ≡ xs
      → let r = scan_items p rounds xs in Kept p 0 r.0 (holds a r.1)
  unfolding scan_items
  scan_items-Kept p zero xs e = admit-Kept p
  scan_items-Kept p (suc rounds) [] e = admit-Kept p
  scan_items-Kept p (suc rounds) (x ∷ xs) e = omega (arith, ap (λ l. count a (conns l)) e)

  scan-Kept : (p : ListPool) (rounds : ℕ) → let r = scan p rounds in Kept p 0 r.0 (holds a r.1)
  unfolding scan
  scan-Kept p rounds = scan_items-Kept p rounds p.idles refl

  get_entry-Kept : (p : ListPool) → let r = get_entry p in Kept p 0 r.0 (holds a r.1)
  unfolding get_entry
  get_entry-Kept p = ground (arith, scan-Kept p (length p.idles))

  put-Kept :
      (p : ListPool) (now c : ℕ) (force_close : Bool)
      → let r = put p now c force_close in
        Kept p (if a == c then 1 else 0) r.pool (count a r.closes)
  unfolding put
  put-Kept p now c force_close =
      ground (arith, count-split_back (record { created_at = now; c = c }) p.idles)

  session_step-Kept :
      (p : ListPool) (now : ℕ) (s : Session) (c : Choice)
      → let t = session_step p now s c in
        Kept p (holds a s + count a t.opens) t.pool (holds a t.session + count a t.closes)
  unfolding session_step check_popped
  session_step-Kept p now outside get = omega (arith, get_entry-Kept p)
  session_step-Kept p now (failed e) get = omega (arith, get_entry-Kept p)
  session_step-Kept p now (evicted rounds) proceed = omega (arith, scan-Kept (release p) rounds)
  session_step-Kept p now woken proceed = omega (arith, scan-Kept p (length p.idles))
  session_step-Kept p now (holding c) (put_back force) = omega (arith, put-Kept p now c force)
  session_step-Kept p now s c = ground arith

  clean_items-Kept :
      (p : ListPool) (now rounds : ℕ) (xs : List Item)
      → p.idles ≡ xs
      → let r = clean_items p now rounds xs in Kept p 0 r.pool (count a r.closes)
  unfolding clean_items
  clean_items-Kept p now zero xs e = omega arith
  clean_items-Kept p now (suc rounds) [] e = omega arith
  clean_items-Kept p now (suc rounds) (x ∷ xs) e =
      ground (arith, ap (λ l. count a (conns l)) e, count-split_back x xs)

  clean_wake-Kept :
      (p : ListPool) (now : ℕ) → let r = clean_wake p now in Kept p 0 r.pool (count a r.closes)
  unfolding clean_wake
  clean_wake-Kept p now = ground (arith, clean_items-Kept p now (length p.idles) p.idles refl)

  clean_step-Kept :
      (p : ListPool) (now : ℕ) (poked : Bool)
      → let r = clean_step p now poked in Kept p 0 r.pool (count a r.closes)
  unfolding clean_step
  clean_step-Kept p now poked =
      clean_step_cases (λ r. Kept p 0 r.pool (count a r.closes)) p now poked (omega arith)
        (ground (arith, clean_wake-Kept (drained p poked) now))
        (λ rounds. clean_items-Kept p now rounds p.idles refl)

  total-deliver :
      (n : ℕ) (signals : Bool) (j : ℕ) (f : ℕ → Session)
      → j < n
      → total (holds a) n (deliver signals j f) ≡ total (holds a) n f
  total-deliver n false j f h = refl
  total-deliver n true j f h =
      omega (arith, total-update (holds a) n f j (receive (f j)) h, same (f j))
    where
      same : (s : Session) → holds a (receive s) ≡ holds a s
      same waiting = refl
      same s = refl

  turn-Owns :
      {n : ℕ} (s : System) (i j : ℕ) (t : Turn)
      → i < n
      → j < n
      → Kept s.pool
          (holds a (s.sessions i) + count a t.opens)
          t.pool
          (holds a t.session + count a t.closes)
      → Owns a n s
      → Owns a n (after_turn s i j t)
  turn-Owns {n} s i j t hi hj kept h = omega (
    arith,
    count-append a t.closes s.shut,
    count-append a t.opens s.opened,
    total-update (holds a) n s.sessions i t.session hi,
    total-deliver n t.signals j (update s.sessions i t.session) hj,
  )

  Step-Owns : {n : ℕ} {s t : System} → Step n s t → Owns a n s → Owns a n t
  unfolding close reload
  Step-Owns {n} {s} (runs i j now c hi hj fits) h =
      turn-Owns s i j (session_step s.pool now (s.sessions i) c) hi hj
        (session_step-Kept s.pool now (s.sessions i) c) h
  Step-Owns {n} {s} (cleans j now poked hj fits) h = omega (
    arith,
    clean_step-Kept s.pool now poked,
    count-append a (clean_step s.pool now poked).closes s.shut,
    total-deliver n (clean_step s.pool now poked).signals j s.sessions hj,
  )
  Step-Owns {n} {s} (closes j hj) h = omega (arith, count-append a (conns s.pool.idles) s.shut)
  Step-Owns {n} {s} (reloads conf) h = ground arith

  start-Owns :
      (n : ℕ) (conf : Config) (p : ListPool) → new_list (some conf) ≡ some p → Owns a n (start p)
  unfolding new_list
  start-Owns n conf p e = ground (arith, total_const (holds a) n outside refl)

-- In every reachable state each item that was opened is in one place, counted with repetitions: it is
-- idle, in the hands of a goroutine, or closed.
pub Reach-Owns : (a : ℕ) {n : ℕ} {conf : Config} {s : System} → Reach n conf s → Owns a n s
Reach-Owns a {n} {conf} (begins p e) = start-Owns a n conf p e
Reach-Owns a (later r st) = Step-Owns a st (Reach-Owns a r)

holds_one : (s : Session) (c : ℕ) → s ≡ holding c → holds c s ≡ 1
holds_one s c e = ground arith

-- If no item is opened twice, the item that `Get` has given to a goroutine `i` is not in the hands of
-- another goroutine `j`, it is not idle, and it has not been closed.
pub held_exclusive :
    {n : ℕ} {conf : Config} {s : System} (i j c : ℕ)
    → Reach n conf s
    → count c s.opened ≤ 1
    → i < n
    → j < n
    → i ≢ j
    → s.sessions i ≡ holding c
    → (s.sessions j ≢ holding c) × (count c (conns s.pool.idles) ≡ 0) × (count c s.shut ≡ 0)
held_exclusive {n} {s = s} i j c r fresh hi hj ne e =
    let owns = Reach-Owns c r in
    let mine = holds_one (s.sessions i) c e in
    let sum = total_one (holds c) n s.sessions i hi in
    let both = total_two (holds c) n s.sessions i j hi hj ne in
    (
      λ e'. omega (arith, owns, mine, holds_one (s.sessions j) c e', both),
      omega (arith, owns, mine, sum),
      omega (arith, owns, mine, sum),
    )
