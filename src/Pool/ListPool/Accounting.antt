-- ===== src/Pool/ListPool/Accounting.antt =====
-- onepool/list.go: what `active` counts, in every interleaving.
use eins.Prelude.{
  ℕ, zero, suc, ◌+◌, ◌≡◌, refl, ap, ◌∙◌, Bool, true, false, ◌<◌, List, [], ◌∷◌, length,
  length-split_back, arith, some,
}
use eins.Prelude.Int.{pos}
use eins.Prelude.Family.{update, total, total-update, total_const}
use eins.Pool.{Item, Config}
use eins.Pool.ListPool.{
  ListPool, close, reload, clean_step, put, new_list, release, clean_items, clean_wake, drained,
  clean_step_cases,
}
use eins.Pool.ListPool.Session.{
  Session, outside, waiting, woken, dialing, popped, evicted, dial_failed, holding, failed, Turn,
  Choice, get, proceed, put_back, session_step, admit, scan_items, scan, get_entry, check_popped,
}
use eins.Pool.ListPool.System.{
  System, Step, runs, cleans, closes, reloads, Reach, begins, later, start, receive, deliver,
  after_turn,
}

-- The places in the count that a goroutine occupies: the item that it holds, dials or still has to
-- release.
abbrev pub places : Session → ℕ
places (popped _ _) = 1
places (evicted _) = 1
places dialing = 1
places (dial_failed _) = 1
places (holding _) = 1
places _ = 0

-- `active` is the number of idle items and of places taken by goroutines.
abbrev pub Counts : ℕ → System → Type 0
Counts n s = s.pool.active ≡ pos (length s.pool.idles + total places n s.sessions)

-- A turn moves `active` as it moves the idle items and the place of its goroutine.
abbrev Balanced : ListPool → Session → Turn → Type 0
Balanced p s t =
    (rest : ℕ)
    → p.active ≡ pos (length p.idles + places s + rest)
    → t.pool.active ≡ pos (length t.pool.idles + places t.session + rest)

admit-Balanced :
    (p : ListPool) (rest : ℕ)
    → p.active ≡ pos (length p.idles + rest)
    → (admit p).0.active ≡ pos (length (admit p).0.idles + places (admit p).1 + rest)
unfolding admit
admit-Balanced p rest h = ground arith

scan_items-Balanced :
    (p : ListPool) (rounds : ℕ) (xs : List Item) (rest : ℕ)
    → p.idles ≡ xs
    → p.active ≡ pos (length p.idles + rest)
    → let r = scan_items p rounds xs in r.0.active ≡ pos (length r.0.idles + places r.1 + rest)
unfolding scan_items
scan_items-Balanced p zero xs rest e h = admit-Balanced p rest h
scan_items-Balanced p (suc rounds) [] rest e h = admit-Balanced p rest h
scan_items-Balanced p (suc rounds) (x ∷ xs) rest e h = ground (arith, ap length e)

scan-Balanced :
    (p : ListPool) (rounds rest : ℕ)
    → p.active ≡ pos (length p.idles + rest)
    → let r = scan p rounds in r.0.active ≡ pos (length r.0.idles + places r.1 + rest)
unfolding scan
scan-Balanced p rounds rest h = scan_items-Balanced p rounds p.idles rest refl h

get_entry-Balanced :
    (p : ListPool) (rest : ℕ)
    → p.active ≡ pos (length p.idles + rest)
    → let r = get_entry p in r.0.active ≡ pos (length r.0.idles + places r.1 + rest)
unfolding get_entry
get_entry-Balanced p rest h = ground (arith, scan-Balanced p (length p.idles) rest)

put-Balanced :
    (p : ListPool) (now c : ℕ) (force_close : Bool) (rest : ℕ)
    → p.active ≡ pos (length p.idles + 1 + rest)
    → let r = (put p now c force_close).pool in r.active ≡ pos (length r.idles + rest)
unfolding put
put-Balanced p now c force_close rest h =
    ground (arith, length-split_back (record { created_at = now; c = c }) p.idles)

session_step-Balanced :
    (p : ListPool) (now : ℕ) (s : Session) (c : Choice) → Balanced p s (session_step p now s c)
unfolding session_step check_popped
session_step-Balanced p now outside get rest h = get_entry-Balanced p rest (ground arith)
session_step-Balanced p now (failed e) get rest h = get_entry-Balanced p rest (ground arith)
session_step-Balanced p now (popped ic rounds) proceed rest h = ground arith
session_step-Balanced p now (evicted rounds) proceed rest h =
    scan-Balanced (release p) rounds rest (ground arith)
session_step-Balanced p now woken proceed rest h = scan-Balanced p _ rest (ground arith)
session_step-Balanced p now (holding c) (put_back force) rest h =
    ground (arith, put-Balanced p now c force rest)
session_step-Balanced p now s c rest h = ground arith

clean_items-Balanced :
    (p : ListPool) (now rounds : ℕ) (xs : List Item) (rest : ℕ)
    → p.idles ≡ xs
    → p.active ≡ pos (length p.idles + rest)
    → let r = (clean_items p now rounds xs).pool in r.active ≡ pos (length r.idles + rest)
unfolding clean_items
clean_items-Balanced p now zero xs rest e h = h
clean_items-Balanced p now (suc rounds) [] rest e h = h
clean_items-Balanced p now (suc rounds) (x ∷ xs) rest e h =
    ground (arith, ap length e, length-split_back x xs)

clean_wake-Balanced :
    (p : ListPool) (now rest : ℕ)
    → p.active ≡ pos (length p.idles + rest)
    → let r = (clean_wake p now).pool in r.active ≡ pos (length r.idles + rest)
unfolding clean_wake
clean_wake-Balanced p now rest h =
    ground (arith, clean_items-Balanced p now (length p.idles) p.idles rest refl h)

clean_step-Balanced :
    (p : ListPool) (now : ℕ) (poked : Bool) (rest : ℕ)
    → p.active ≡ pos (length p.idles + rest)
    → let r = (clean_step p now poked).pool in r.active ≡ pos (length r.idles + rest)
unfolding clean_step
clean_step-Balanced p now poked rest h =
    clean_step_cases (λ r. r.pool.active ≡ pos (length r.pool.idles + rest)) p now poked h
      (clean_wake-Balanced (drained p poked) now rest (ground arith))
      (λ rounds. clean_items-Balanced p now rounds p.idles rest refl h)

total-deliver :
    (n : ℕ) (signals : Bool) (j : ℕ) (f : ℕ → Session)
    → j < n
    → total places n (deliver signals j f) ≡ total places n f
total-deliver n false j f h = refl
total-deliver n true j f h = omega (arith, total-update places n f j (receive (f j)) h, same (f j))
  where
    same : (s : Session) → places (receive s) ≡ places s
    same waiting = refl
    same s = refl

turn-Counts :
    {n : ℕ} (s : System) (i j : ℕ) (t : Turn)
    → i < n
    → j < n
    → Balanced s.pool (s.sessions i) t
    → Counts n s
    → Counts n (after_turn s i j t)
turn-Counts {n} s i j t hi hj balanced h =
    let old = total-update places n s.sessions i outside hi in
    let new = total-update places n s.sessions i t.session hi in
    let moved = total-deliver n t.signals j (update s.sessions i t.session) hj in
    balanced (total places n (update s.sessions i outside)) (h ∙ ap pos (omega (arith, old)))
    ∙ ap pos (omega (arith, old, new, moved))

-- Every step keeps the count.
pub Step-Counts : {n : ℕ} {s t : System} → Step n s t → Counts n s → Counts n t
unfolding close reload
Step-Counts {n} {s} (runs i j now c hi hj fits) h =
    turn-Counts s i j (session_step s.pool now (s.sessions i) c) hi hj
      (session_step-Balanced s.pool now (s.sessions i) c) h
Step-Counts {n} {s} (cleans j now poked hj fits) h =
    clean_step-Balanced s.pool now poked _ h
    ∙ ap pos (omega (arith, total-deliver n (clean_step s.pool now poked).signals j s.sessions hj))
Step-Counts (closes j hj) h = ground arith
Step-Counts (reloads conf) h = ground arith

start-Counts :
    (n : ℕ) (conf : Config) (p : ListPool) → new_list (some conf) ≡ some p → Counts n (start p)
unfolding new_list
start-Counts n conf p e = ground (arith, total_const places n outside refl)

-- In every state that goroutines, the cleaner, `Close` and `Reload` can reach, `active` is the number
-- of idle items and of the items that goroutines hold, dial, or have failed to dial and not released.
pub Reach-Counts : {n : ℕ} {conf : Config} {s : System} → Reach n conf s → Counts n s
Reach-Counts {n} {conf} (begins p e) = start-Counts n conf p e
Reach-Counts (later r st) = Step-Counts st (Reach-Counts r)
