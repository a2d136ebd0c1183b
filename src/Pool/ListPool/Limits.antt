-- ===== src/Pool/ListPool/Limits.antt =====
-- onepool/list.go: the limits `Active` and `Idle`, and what stays out of a closed pool.
use eins.Prelude.{
  ◌⊎◌, inl, inr, Bool-cases, ℕ, zero, suc, ◌≡◌, ◌≤◌, refl, ap, Bool, true, false, List, [], ◌∷◌,
  length, length-split_back, arith, some,
}
use eins.Prelude.Int.{pos, ◌≤ℤ◌, pos_part}
use eins.Pool.{Item, Config}
use eins.Pool.ListPool.{
  ListPool, close, reload, clean_step, put, new_list, release, clean_items, clean_wake, drained,
  clean_step_cases,
}
use eins.Pool.ListPool.Session.{
  Session, outside, woken, evicted, holding, failed, Choice, get, proceed, put_back, session_step,
  admit, scan_items, scan, get_entry, check_popped,
}
use eins.Pool.ListPool.System.{System, Step, runs, cleans, closes, reloads, Lasts}

-- A pool within the limits of `conf`: at most `Active` items if that is positive, at most `Idle` idle
-- ones (none if that is negative), and no idle item once it is closed.
pub record IsWithin (conf : Config) (p : ListPool) : Type 0 where
  pub limited : pos 1 ≤ℤ conf.active → p.active ≤ℤ conf.active
  pub few_idles : length p.idles ≤ pos_part conf.idle
  pub closed_idles : p.closed ≡ true → p.idles ≡ []
  pub same_conf : p.conf ≡ conf

module _ {conf : Config} where
  admit-IsWithin : (p : ListPool) → IsWithin conf p → IsWithin conf (admit p).0
  unfolding admit
  admit-IsWithin p h = ground arith

  scan_items-IsWithin :
      (p : ListPool) (rounds : ℕ) (xs : List Item)
      → p.idles ≡ xs
      → IsWithin conf p
      → IsWithin conf (scan_items p rounds xs).0
  unfolding scan_items
  scan_items-IsWithin p zero xs e h = admit-IsWithin p h
  scan_items-IsWithin p (suc rounds) [] e h = admit-IsWithin p h
  scan_items-IsWithin p (suc rounds) (x ∷ xs) e h = ground (arith, ap length e)

  scan-IsWithin : (p : ListPool) (rounds : ℕ) → IsWithin conf p → IsWithin conf (scan p rounds).0
  unfolding scan
  scan-IsWithin p rounds h = scan_items-IsWithin p rounds p.idles refl h

  get_entry-IsWithin : (p : ListPool) → IsWithin conf p → IsWithin conf (get_entry p).0
  unfolding get_entry
  get_entry-IsWithin p h = ground (arith, scan-IsWithin p (length p.idles))

  release-IsWithin : (p : ListPool) → IsWithin conf p → IsWithin conf (release p)
  release-IsWithin p h = ground arith

  put-IsWithin :
      (p : ListPool) (now c : ℕ) (force_close : Bool)
      → IsWithin conf p
      → IsWithin conf (put p now c force_close).pool
  unfolding put
  put-IsWithin p now c force_close h =
      ground (arith, length-split_back (record { created_at = now; c = c }) p.idles)

  session_step-IsWithin :
      (p : ListPool) (now : ℕ) (s : Session) (c : Choice)
      → IsWithin conf p
      → IsWithin conf (session_step p now s c).pool
  unfolding session_step check_popped
  session_step-IsWithin p now outside get h = get_entry-IsWithin p h
  session_step-IsWithin p now (failed e) get h = get_entry-IsWithin p h
  session_step-IsWithin p now (evicted rounds) proceed h =
      scan-IsWithin (release p) rounds (release-IsWithin p h)
  session_step-IsWithin p now woken proceed h = scan-IsWithin p (length p.idles) h
  session_step-IsWithin p now (holding c) (put_back force) h = put-IsWithin p now c force h
  session_step-IsWithin p now s c h = ground arith

  clean_items-IsWithin :
      (p : ListPool) (now rounds : ℕ) (xs : List Item)
      → p.idles ≡ xs
      → IsWithin conf p
      → IsWithin conf (clean_items p now rounds xs).pool
  unfolding clean_items
  clean_items-IsWithin p now zero xs e h = ground arith
  clean_items-IsWithin p now (suc rounds) [] e h = ground arith
  clean_items-IsWithin p now (suc rounds) (x ∷ xs) e h =
      ground (arith, ap length e, length-split_back x xs)

  clean_wake-IsWithin :
      (p : ListPool) (now : ℕ) → IsWithin conf p → IsWithin conf (clean_wake p now).pool
  unfolding clean_wake
  clean_wake-IsWithin p now h =
      ground (arith, clean_items-IsWithin p now (length p.idles) p.idles refl)

  clean_step-IsWithin :
      (p : ListPool) (now : ℕ) (poked : Bool)
      → IsWithin conf p
      → IsWithin conf (clean_step p now poked).pool
  unfolding clean_step
  clean_step-IsWithin p now poked h =
      clean_step_cases (λ r. IsWithin conf r.pool) p now poked h
        (clean_wake-IsWithin (drained p poked) now (ground arith))
        (λ rounds. clean_items-IsWithin p now rounds p.idles refl h)

  close-IsWithin : (p : ListPool) → IsWithin conf p → IsWithin conf (close p).pool
  unfolding close
  close-IsWithin p h = ground arith

  Step-IsWithin :
      {n : ℕ} {s t : System}
      → Step n s t
      → t.pool.conf ≡ conf
      → IsWithin conf s.pool
      → IsWithin conf t.pool
  unfolding reload
  Step-IsWithin {s = s} (runs i j now c hi hj fits) e h =
      session_step-IsWithin s.pool now (s.sessions i) c h
  Step-IsWithin {s = s} (cleans j now poked hj fits) e h = clean_step-IsWithin s.pool now poked h
  Step-IsWithin {s = s} (closes j hj) e h = close-IsWithin s.pool h
  Step-IsWithin (reloads conf') e h = ground arith

  start-IsWithin : (p : ListPool) → new_list (some conf) ≡ some p → IsWithin conf p
  unfolding new_list
  start-IsWithin p e = ground arith

Lasts-IsWithin : {n : ℕ} {conf : Config} {s : System} → Lasts n conf s → IsWithin conf s.pool
Lasts-IsWithin (Lasts.begins p e) = start-IsWithin p e
Lasts-IsWithin (Lasts.later r st e) = Step-IsWithin st e (Lasts-IsWithin r)

-- As long as the configuration stays, and `Active` is positive, the pool never has more items than
-- `Active`, nor more idle ones than `Idle` (none if that is negative); a closed pool has no idle item.
pub list_within_limits :
    {n : ℕ} {conf : Config} {s : System}
    → Lasts n conf s
    → pos 1 ≤ℤ conf.active
    → (s.pool.active ≤ℤ conf.active)
      × (length s.pool.idles ≤ pos_part conf.idle)
      × ((s.pool.closed ≡ false) ⊎ (s.pool.idles ≡ []))
list_within_limits {s = s} r limit =
    let h = Lasts-IsWithin r in
    (
      h.limited limit,
      h.few_idles,
      elim (Bool-cases s.pool.closed) [
        | inl shut ↦ inr (h.closed_idles shut)
        | inr opened ↦ inl opened
      ],
    )
