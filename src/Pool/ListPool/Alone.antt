-- ===== src/Pool/ListPool/Alone.antt =====
-- onepool/list.go: `Get` when no other goroutine runs: which idle item it returns.
use eins.Prelude.{
  ℕ, zero, suc, ◌+◌, ◌*◌, ◌-◌, sym, length-append, ◌≡◌, ◌<◌, refl, ap, ◌∙◌, true, false, List, [],
  ◌∷◌, ◌++◌, length, arith,
}
use mathlib.Core.List.{append-nil, append_assoc}
use eins.Prelude.Int.{ℤ, pos, ◌-ℤ◌}
use eins.Pool.{Item, expired}
use eins.Pool.ListPool.{ListPool, conns, release}
use eins.Pool.ListPool.Session.{
  Session, popped, evicted, holding, proceed, session_step, admit, scan_items, scan, get_entry,
  check_popped,
}

-- A goroutine that goes on by itself, with the items that it has closed.
pub record Progress : Type 0 where
  pub pool : ListPool
  pub session : Session
  pub shut : List ℕ

-- `Get` goes on until it has an item, an error, or must wait for something outside.
pub go_on : ℕ → ℕ → Progress → Progress
go_on zero now g = g
go_on (suc fuel) now g =
    let t = session_step g.pool now g.session proceed in
    let next =
      go_on fuel now (record { pool = t.pool; session = t.session; shut = g.shut ++ t.closes }) in
    elim g.session [ popped ic rounds ↦ next | evicted rounds ↦ next | _ ↦ g ]

-- All items of a list have expired.
abbrev pub AllExpired : ℕ → ℤ → List Item → Type 0
AllExpired now timeout [] = Unit
AllExpired now timeout (i ∷ is) = (expired now timeout i ≡ true) × AllExpired now timeout is

-- The pool after `k` expired items at the front have been dropped, with `rest` behind them.
abbrev pub dropped : ListPool → ℕ → List Item → ListPool
dropped p k rest = record p { idles = rest; active = p.active -ℤ pos k }

abbrev pub scanning : ListPool → List ℕ → ℕ → List Item → Progress
scanning p shut rounds xs =
    let r = scan_items p rounds xs in record { pool = r.0; session = r.1; shut = shut }

-- Two steps for each item of a list, and then `n` more.
abbrev steps : List Item → ℕ → ℕ
steps [] n = n
steps (i ∷ is) n = suc (suc (steps is n))

abbrev lengthen : List Item → ℕ → ℕ
lengthen [] n = n
lengthen (i ∷ is) n = suc (lengthen is n)

lengthen-length : (is : List Item) (n : ℕ) → lengthen is n ≡ length is + n
lengthen-length [] n = omega arith
lengthen-length (i ∷ is) n = omega (arith, lengthen-length is n)

steps-length : (is : List Item) (n : ℕ) → steps is n ≡ 2 * length is + n
steps-length [] n = omega arith
steps-length (i ∷ is) n = omega (arith, steps-length is n)

go_on_evicts :
    (p : ListPool) (now fuel : ℕ) (shut : List ℕ) (x : Item) (xs : List Item) (rounds : ℕ)
    → expired now p.conf.idle_timeout x ≡ true
    → go_on (suc (suc fuel)) now (scanning p shut (suc rounds) (x ∷ xs))
      ≡ go_on fuel now (scanning (release (record p { idles = xs })) (shut ++ x.c ∷ []) rounds xs)
unfolding go_on session_step check_popped scan_items scan
go_on_evicts p now fuel shut x xs rounds late = ground (arith, append-nil (shut ++ x.c ∷ []))

dropped-zero : (p : ListPool) (rest : List Item) → p.idles ≡ rest → p ≡ dropped p 0 rest
dropped-zero p rest e = ground arith

dropped-suc :
    (p : ListPool) (k : ℕ) (xs rest : List Item)
    → dropped (release (record p { idles = xs })) k rest ≡ dropped p (suc k) rest
dropped-suc p k xs rest = ground arith

go_on-scanning :
    (p : ListPool) (now fuel : ℕ) (shut : List ℕ) (bad rest : List Item) (rounds : ℕ)
    → AllExpired now p.conf.idle_timeout bad
    → p.idles ≡ bad ++ rest
    → go_on (steps bad fuel) now (scanning p shut (lengthen bad rounds) (bad ++ rest))
      ≡ go_on fuel now (scanning (dropped p (length bad) rest) (shut ++ conns bad) rounds rest)
go_on-scanning p now fuel shut [] rest rounds all e =
    rw (append-nil shut)
      (ap (λ q. go_on fuel now (scanning q shut rounds rest)) (dropped-zero p rest e))
go_on-scanning p now fuel shut (x ∷ bad) rest rounds (late, all) e =
    go_on_evicts p now (steps bad fuel) shut x (bad ++ rest) (lengthen bad rounds) late
    ∙ go_on-scanning (release (record p { idles = bad ++ rest })) now fuel (shut ++ x.c ∷ []) bad
        rest rounds all refl
    ∙ ap (λ q. go_on fuel now (scanning q ((shut ++ x.c ∷ []) ++ conns bad) rounds rest))
        (dropped-suc p (length bad) (bad ++ rest) rest)
    ∙ ap (λ l. go_on fuel now (scanning (dropped p (suc (length bad)) rest) l rounds rest))
        (append_assoc shut (x.c ∷ []) (conns bad))

-- What `Get` does from its entry, in at most `fuel` steps.
pub get_alone : ℕ → ℕ → ListPool → Progress
unfolding get_entry
get_alone fuel now p =
    let r = get_entry p in go_on fuel now (record { pool = r.0; session = r.1; shut = [] })

abbrev Stopped : Session → Type 0
Stopped (popped _ _) = ⊥
Stopped (evicted _) = ⊥
Stopped _ = Unit

go_on-Stopped :
    (fuel now : ℕ) (p : ListPool) (s : Session) (shut : List ℕ)
    → Stopped s
    → let g : Progress = record { pool = p; session = s; shut = shut } in go_on fuel now g ≡ g
unfolding go_on
go_on-Stopped zero now p s shut h = refl
go_on-Stopped (suc fuel) now p (popped _ _) shut h = absurd h
go_on-Stopped (suc fuel) now p (evicted _) shut h = absurd h
go_on-Stopped (suc fuel) now p s shut h = refl

admit-Stopped : (p : ListPool) → Stopped (admit p).1
unfolding admit
admit-Stopped p = ground arith

go_on_fresh :
    (p : ListPool) (now fuel : ℕ) (shut : List ℕ) (y : Item) (ys : List Item) (rounds : ℕ)
    → expired now p.conf.idle_timeout y ≡ false
    → go_on (suc fuel) now (scanning p shut (suc rounds) (y ∷ ys))
      ≡ record { pool = record p { idles = ys }; session = holding y.c; shut = shut }
unfolding go_on session_step check_popped scan_items
go_on_fresh p now fuel shut y ys rounds fresh = ground (
  arith,
  append-nil shut,
  go_on-Stopped fuel now (record p { idles = ys }) (holding y.c) (shut ++ []) tt,
)

entry-scanning :
    (p : ListPool) (fuel now : ℕ) (xs : List Item)
    → p.closed ≡ false
    → p.idles ≡ xs
    → get_alone fuel now p ≡ go_on fuel now (scanning p [] (length xs) xs)
unfolding get_alone scan
entry-scanning p fuel now xs e e' = rw (e, e')

-- With fuel for the expired items in front, `Get` comes to the items behind them.
get_alone-dropped :
    (p : ListPool) (now extra : ℕ) {fuel : ℕ} (bad rest : List Item)
    → p.closed ≡ false
    → p.idles ≡ bad ++ rest
    → AllExpired now p.conf.idle_timeout bad
    → fuel ≡ 2 * length bad + extra
    → get_alone fuel now p
      ≡ go_on extra now (scanning (dropped p (length bad) rest) (conns bad) (length rest) rest)
get_alone-dropped p now extra {fuel} bad rest e e' all enough =
    entry-scanning p fuel now (bad ++ rest) e e'
    ∙ ap (λ f. go_on f now (scanning p [] (length (bad ++ rest)) (bad ++ rest)))
        (omega (arith, steps-length bad extra))
    ∙ ap (λ r. go_on (steps bad extra) now (scanning p [] r (bad ++ rest)))
        (omega (arith, length-append bad rest, lengthen-length bad (length rest)))
    ∙ go_on-scanning p now extra [] bad rest (length rest) all e'

-- On an open pool whose idle items are expired ones and then one that is not, `Get` returns that one
-- as it drops and closes those before it, if it runs for two steps an idle item and one more.
pub get_alone_fresh :
    (p : ListPool) (now fuel : ℕ) (bad ys : List Item) (y : Item)
    → p.closed ≡ false
    → p.idles ≡ bad ++ y ∷ ys
    → AllExpired now p.conf.idle_timeout bad
    → expired now p.conf.idle_timeout y ≡ false
    → 2 * length p.idles < fuel
    → get_alone fuel now p
      ≡ record { pool = dropped p (length bad) ys; session = holding y.c; shut = conns bad }
get_alone_fresh p now fuel bad ys y e e' all fresh enough =
    let k = fuel - 2 * length bad - 1 in
    get_alone-dropped p now (suc k) bad (y ∷ ys) e e' all
      (omega (arith, ap length e', length-append bad (y ∷ ys)))
    ∙ go_on_fresh (dropped p (length bad) (y ∷ ys)) now k (conns bad) y ys (length ys) fresh

-- On an open pool whose idle items have all expired, `Get` closes them all, and then opens an item,
-- fails or waits, as the limit allows with none of them counted.
get_alone_stale :
    (p : ListPool) (now fuel : ℕ)
    → p.closed ≡ false
    → AllExpired now p.conf.idle_timeout p.idles
    → 2 * length p.idles < fuel
    → let r = admit (dropped p (length p.idles) []) in
      get_alone fuel now p ≡ record { pool = r.0; session = r.1; shut = conns p.idles }
unfolding scan_items
get_alone_stale p now fuel e all enough =
    let q = dropped p (length p.idles) [] in
    get_alone-dropped p now (fuel - 2 * length p.idles) p.idles [] e (sym (append-nil p.idles)) all
      (omega (arith, enough))
    ∙ go_on-Stopped (fuel - 2 * length p.idles) now (admit q).0 (admit q).1 (conns p.idles)
        (admit-Stopped q)
