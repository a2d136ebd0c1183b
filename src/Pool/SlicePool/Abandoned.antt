-- ===== src/Pool/SlicePool/Abandoned.antt =====
-- onepool/slice.go: an item that was sent to a request whose goroutine has given up.
use eins.Prelude.{
  ℕ, zero, suc, ◌≤◌, count, ap, ==_iff, ◌≡◌, ◌≢◌, ◌<◌, refl, sym, Bool, true, false, Option, none,
  some, List, [], ◌∷◌, arith, if◌then◌else◌, Option-cases, Bool-cases, inl, inr, ◌⊎◌, if_cases,
  subst, ◌==◌, ℕ_discrete,
}
use mathlib.Core.Logic.{if_pos, if_neg}
use eins.Prelude.Int.{ℤ, pos, ◌+ℤ◌, ◌-ℤ◌}
use eins.Prelude.Family.{update, total}
use eins.Pool.{Item, Config, exhausted}
use eins.Pool.SlicePool.{
  SlicePool, Section, release, put_item, place_item, pick_key, or_close, put, open_new_item, close,
  open_loop, maybe_open,
}
use eins.Pool.SlicePool.Session.{
  Session, outside, dialing, popped, evicted, waiting, giving_up, received, replacing, dial_failed,
  holding, failed, Turn, Choice, get, proceed, put_back, ctx_done, dial_ok, dial_err, session_step,
  request, pop_free, get_entry, quiet, ask, is_full, refuses, dial_new, select_item, receive,
  Opener, listening, opener_take,
}
use eins.Pool.SlicePool.Requests.{reopened, count_mail}
use eins.Pool.SlicePool.Ownership.{holds, Owns, slice-Owns}
use eins.Pool.SlicePool.Cleaning.{clean_pass}
use eins.Pool.SlicePool.System.{
  System, after_turn, Step, runs, opener_takes, opener_opens, opener_stops, cleans, closes, Reach,
  later,
}

-- The item `i` was sent to the channel `key` and nobody has received it.
abbrev pub InMail : ℕ → Item → List (ℕ × Item) → Type 0
InMail key i [] = ⊥
InMail key i ((k, j) ∷ mail) = ((k ≡ key) × (j ≡ i)) ⊎ InMail key i mail

-- A goroutine that is not in the `select` of the request `key`.
abbrev pub Elsewhere : ℕ → Session → Type 0
Elsewhere key (waiting _ k) = k ≢ key
Elsewhere key _ = Unit

-- The pool's side: the item lies in the channel, and its key will not be given out again.
abbrev pub Stuck : ℕ → Item → SlicePool → Type 0
Stuck key i p = InMail key i p.mail × (key < p.next_request)

pub record IsAbandoned (n key : ℕ) (i : Item) (s : System) : Type 0 where
  pub stuck : Stuck key i s.pool
  pub nobody : (j : ℕ) → j < n → Elsewhere key (s.sessions j)

abbrev Keeps : SlicePool → SlicePool → Type 0
Keeps p q = (q.mail ≡ p.mail) × (q.next_request ≡ p.next_request)

open_loop-Keeps : (k : ℕ) (p : SlicePool) → Keeps p (open_loop k p)
unfolding open_loop
open_loop-Keeps zero p = (refl, refl)
open_loop-Keeps (suc k) p =
    ground
      (arith, open_loop-Keeps k (record p { active = p.active +ℤ pos 1; opener = suc p.opener }))

release-Keeps : (p : SlicePool) → Keeps p (release p)
unfolding release maybe_open
release-Keeps p = open_loop-Keeps (reopened p) (record p { active = p.active -ℤ pos 1 })

-- `putItemLocked` leaves the mail, or adds to it.
abbrev Grows : SlicePool → SlicePool → Type 0
Grows p q =
    ((q.mail ≡ p.mail) ⊎ ((k : ℕ) × (x : Item) × (q.mail ≡ (k, x) ∷ p.mail)))
    × (q.next_request ≡ p.next_request)

place_item-Grows :
    (p : SlicePool) (pick : ℕ) (x : Item) (keys : List ℕ) {q : SlicePool}
    → place_item p pick x keys ≡ some q
    → Grows p q
unfolding place_item
place_item-Grows p pick x [] e = (inl (ground arith), ground arith)
place_item-Grows p pick x (k ∷ ks) e = (inr ((pick_key pick k ks).0, x, ground arith), ground arith)

put_item-Grows :
    (p : SlicePool) (now pick c : ℕ) {q : SlicePool} → put_item p now pick c ≡ some q → Grows p q
unfolding put_item
put_item-Grows p now pick c {q} e =
    place_item-Grows p pick (record { created_at = now; c = c }) p.requests {q = q} (ground arith)

module _ (key : ℕ) (i : Item) where
  Keeps-Stuck : (p q : SlicePool) → Keeps p q → Stuck key i p → Stuck key i q
  Keeps-Stuck p q (m, k) (h, l) = (rw m h, rw k l)

  Grows-Stuck : (p q : SlicePool) → Grows p q → Stuck key i p → Stuck key i q
  Grows-Stuck p q (inl m, k) (h, l) = (rw m h, rw k l)
  Grows-Stuck p q (inr (k, x, m), e) (h, l) = (rw m (inr h), rw e l)

  or_close-Stuck :
      (p : SlicePool) (now pick c : ℕ)
      → Stuck key i p
      → Stuck key i (or_close p c (put_item p now pick c)).pool
  or_close-Stuck p now pick c h = elim (Option-cases (put_item p now pick c)) [
    | inl refused ↦ rw refused h
    | inr (q, taken) ↦ rw taken (Grows-Stuck p q (put_item-Grows p now pick c taken) h)
  ]

  release-Stuck : (p : SlicePool) → Stuck key i p → Stuck key i (release p)
  release-Stuck p = Keeps-Stuck p (release p) (release-Keeps p)

  put-Stuck :
      (p : SlicePool) (now pick c : ℕ) (force_close : Bool)
      → Stuck key i p
      → Stuck key i (put p now pick c force_close).pool
  unfolding put
  put-Stuck p now pick c true h = release-Stuck p h
  put-Stuck p now pick c false h = or_close-Stuck p now pick c h

  open_new_item-Stuck :
      (p : SlicePool) (now pick : ℕ) (result : Option ℕ)
      → Stuck key i p
      → Stuck key i (open_new_item p now pick result).pool
  unfolding open_new_item
  open_new_item-Stuck p now pick none h = release-Stuck p h
  open_new_item-Stuck p now pick (some c) h = or_close-Stuck p now pick c h

  -- What a turn of a goroutine that is elsewhere has to leave.
  abbrev Left : Turn → Type 0
  Left t = Stuck key i t.pool × Elsewhere key t.session

  request-Left : (p : SlicePool) (timeout : ℤ) → Stuck key i p → Left (request p timeout)
  unfolding request
  request-Left p timeout (h, l) =
      let asks : key < suc p.next_request = omega arith in
      let ne : p.next_request ≢ key = omega arith in
      if_cases Left (is_full p) (if refuses p then quiet p (failed exhausted) else ask p timeout)
        (dial_new p)
        (if_cases Left (refuses p) (quiet p (failed exhausted)) (ask p timeout) ((h, l), tt)
          ((h, asks), ne))
        ((h, l), tt)

  pop_free-Left :
      (p : SlicePool) (timeout : ℤ) (free : List Item)
      → Stuck key i p
      → Left (pop_free p timeout free)
  unfolding pop_free
  pop_free-Left p timeout [] h = request-Left p timeout h
  pop_free-Left p timeout (x ∷ free) h = (h, tt)

  get_entry-Left : (p : SlicePool) → Stuck key i p → Left (get_entry p)
  unfolding get_entry
  get_entry-Left p h =
      if_cases Left p.closed _ _ (h, tt) (pop_free-Left p p.conf.idle_timeout p.free h)

  receive-InMail :
      (k : ℕ) (mail : List (ℕ × Item)) {j : Item} {rest : List (ℕ × Item)}
      → receive k mail ≡ some (j, rest)
      → k ≢ key
      → InMail key i mail
      → InMail key i rest
  unfolding receive
  receive-InMail k [] e ne h = absurd h
  receive-InMail k ((l, x) ∷ mail) {j} {rest} e ne h = elim (Bool-cases (l == k)) [
    | inl same ↦
        let here : mail ≡ rest = ground arith in
        elim h [ inl (l', _) ↦ absurd (ne (ground arith)) | inr h' ↦ subst (InMail key i) here h' ]
    | inr other ↦ elim (Option-cases (receive k mail)) [
      | inl missing ↦ absurd (ground arith)
      | inr ((j', rest'), found) ↦
          let here : (l, x) ∷ rest' ≡ rest = ground arith in
          elim h [
            | inl found_here ↦ subst (InMail key i) here (inl found_here)
            | inr h' ↦ subst (InMail key i) here (inr (receive-InMail k mail found ne h'))
          ]
    ]
  ]

  select_item-Left :
      (p : SlicePool) (timeout : ℤ) (k : ℕ)
      → k ≢ key
      → Stuck key i p
      → Left (select_item p timeout k)
  unfolding select_item
  select_item-Left p timeout k ne (h, l) = elim (Option-cases (receive k p.mail)) [
    | inl nothing ↦ rw (nothing, select_item) (if_cases Left _ _ _ ((h, l), tt) ((h, l), ne))
    | inr ((x, rest), found) ↦ rw (found, select_item) ((receive-InMail k p.mail found ne h, l), tt)
  ]

  session_step-Left :
      (p : SlicePool) (now : ℕ) (s : Session) (c : Choice)
      → Elsewhere key s
      → Stuck key i p
      → Left (session_step p now s c)
  unfolding session_step
  session_step-Left p now outside get away h = get_entry-Left p h
  session_step-Left p now (failed e) get away h = get_entry-Left p h
  session_step-Left p now (popped timeout x) proceed away h = if_cases Left _ _ _ (h, tt) (h, tt)
  session_step-Left p now (received timeout x) proceed away h = if_cases Left _ _ _ (h, tt) (h, tt)
  session_step-Left p now (evicted timeout) proceed away h =
      pop_free-Left (release p) timeout (release p).free (release-Stuck p h)
  session_step-Left p now (waiting timeout k) proceed away h = select_item-Left p timeout k away h
  session_step-Left p now replacing proceed away h = (release-Stuck p h, tt)
  session_step-Left p now (dial_failed e) proceed away h = (release-Stuck p h, tt)
  session_step-Left p now (holding c) (put_back pick force) away h =
      (put-Stuck p now pick c force h, tt)
  session_step-Left p now dialing (dial_ok c) away h = (h, tt)
  session_step-Left p now dialing (dial_err e) away h = (h, tt)
  session_step-Left p now (waiting timeout k) ctx_done away h = (h, tt)
  session_step-Left p now (giving_up k) proceed away h = (h, tt)
  session_step-Left p now dialing c away h = (h, tt)
  session_step-Left p now s c away h = (h, away)

  clean_pass-Stuck :
      (p : SlicePool) (now : ℕ) → Stuck key i p → Stuck key i (clean_pass p now).0.pool
  unfolding clean_pass
  clean_pass-Stuck p now h = if_cases {A = Section × Bool} (λ r. Stuck key i r.0.pool) _ _ _ h h

  close-Stuck : (p : SlicePool) → Stuck key i p → Stuck key i (close p).pool
  unfolding close
  close-Stuck p h = if_cases {A = Section} (λ r. Stuck key i r.pool) p.closed _ _ h h

  opener_take-Stuck : (p : SlicePool) (o : Opener) → Stuck key i p → Stuck key i (opener_take p o).0
  unfolding opener_take
  opener_take-Stuck p listening h = by_opener p.opener refl
    where
      by_opener : (n : ℕ) → p.opener ≡ n → Stuck key i (opener_take p listening).0
      by_opener zero e = rw (e, opener_take) h
      by_opener (suc n) e = rw (e, opener_take) h
  opener_take-Stuck p o h = h

  turn-IsAbandoned :
      {n : ℕ} (s : System) (j : ℕ) (t : Turn)
      → Left t
      → IsAbandoned n key i s
      → IsAbandoned n key i (after_turn s j t)
  turn-IsAbandoned {n} s j t (stuck, away) h = record {
    stuck = stuck;
    nobody = λ k hk. by_index k hk (ℕ_discrete j k);
  }
    where
      by_index : (k : ℕ) → k < n → Dec (j ≡ k) → Elsewhere key (update s.sessions j t.session k)
      by_index k hk (yes e) = rw (if_pos _ e) away
      by_index k hk (no e) = rw (if_neg _ e) (h.nobody k hk)

-- Such an item stays in the channel, and nobody comes back for it.
step_leaves :
    {n key : ℕ} {i : Item} {s t : System}
    → Step n s t
    → IsAbandoned n key i s
    → IsAbandoned n key i t
step_leaves {n} {key} {i} {s} (runs j now c hj) h =
    turn-IsAbandoned key i s j (session_step s.pool now (s.sessions j) c)
      (session_step-Left key i s.pool now (s.sessions j) c (h.nobody j hj) h.stuck) h
step_leaves {n} {key} {i} {s} opener_takes h = record {
  stuck = opener_take-Stuck key i s.pool s.opener h.stuck;
  nobody = h.nobody;
}
step_leaves {n} {key} {i} {s} (opener_opens now pick result e) h = record {
  stuck = open_new_item-Stuck key i s.pool now pick result h.stuck;
  nobody = h.nobody;
}
step_leaves (opener_stops shut e) h = record { stuck = h.stuck; nobody = h.nobody }
step_leaves {n} {key} {i} {s} (cleans now) h = record {
  stuck = clean_pass-Stuck key i s.pool now h.stuck;
  nobody = h.nobody;
}
step_leaves {n} {key} {i} {s} closes h = record {
  stuck = close-Stuck key i s.pool h.stuck;
  nobody = h.nobody;
}

InMail-count :
    (key : ℕ) (i : Item) (mail : List (ℕ × Item)) → InMail key i mail → 1 ≤ count_mail i.c mail
InMail-count key i [] h = absurd h
InMail-count key i ((k, j) ∷ mail) (inl (e, same)) =
    let here : i.c ≡ j.c = ap (λ (x : Item). x.c) (sym same) in ground (arith, here, ==_iff i.c j.c)
InMail-count key i ((k, j) ∷ mail) (inr h) = omega (arith, InMail-count key i mail h)

-- An item that was sent to a request, with nobody left in the `select` of that request, stays in the
-- channel whatever happens next, and if no item is opened twice, no goroutine has it and it is not closed.
pub Step-IsAbandoned :
    {n key : ℕ} {conf : Config} {i : Item} {s t : System}
    → Reach n conf s
    → Step n s t
    → count i.c t.opened ≤ 1
    → IsAbandoned n key i s
    → IsAbandoned n key i t × (total (holds i.c) n t.sessions ≡ 0) × (count i.c t.shut ≡ 0)
Step-IsAbandoned {n} {key} {conf} {i} {s} {t} r st once h =
    let left = step_leaves st h in
    let owns : Owns i.c n t = slice-Owns i.c (later r st) in
    let there = InMail-count key i t.pool.mail left.stuck.0 in
    (left, omega (arith, owns, there, once), omega (arith, owns, there, once))

-- A goroutine whose context ends in the `select`, with an item already in its channel, abandons it.
give_up_abandons :
    (n : ℕ) (s : System) (j now key : ℕ) (timeout : ℤ) (i : Item)
    → s.sessions j ≡ waiting timeout key
    → InMail key i s.pool.mail
    → key < s.pool.next_request
    → ((k : ℕ) → k < n → j ≢ k → Elsewhere key (s.sessions k))
    → IsAbandoned n key i (after_turn s j (session_step s.pool now (s.sessions j) ctx_done))
unfolding session_step
give_up_abandons n s j now key timeout i e sent known others =
    let t = quiet s.pool (giving_up key) in
    let by_choice : session_step s.pool now (s.sessions j) ctx_done ≡ t = rw e in
    subst (λ u. IsAbandoned n key i (after_turn s j u)) (sym by_choice)
      (record { stuck = (sent, known); nobody = λ k hk. by_index k hk (ℕ_discrete j k) })
  where
    by_index : (k : ℕ) → k < n → Dec (j ≡ k) → Elsewhere key (update s.sessions j (giving_up key) k)
    by_index k hk (yes same) = rw (if_pos _ same) tt
    by_index k hk (no other) = rw (if_neg _ other) (others k hk other)
