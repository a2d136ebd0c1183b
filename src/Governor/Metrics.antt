-- ===== src/Governor/Metrics.antt =====
-- onegovernor/http.go over oneprom/prom.go: what the counters of oneprom show of the requests that a handler
-- behind `Recover` and `Prom` was given.
use eins.Prelude.{
  ℕ, ◌+◌, ◌≡◌, refl, ap, ◌∙◌, Option, none, some, List, [], ◌∷◌, ◌++◌, if◌then◌else◌, ◌==◌, arith,
  ==_iff, Bool-cases, inl, inr, count,
}
use eins.Env.{Environment}
use eins.Prom.{Package, Prom, init}
use eins.Prom.Labels.{
  Call, ticks, counts, times, starts, handles, lasts, inits, run, starts_of, run-starts,
}
use eins.Governor.{Response, Request}
use eins.Governor.Middleware.{
  Panic, abort, value, Server, Handler, Ignore, ignored, recovered, recover, start, count_handled,
  prom,
}

-- The calls of `ServerStartedCounter` for the names of started handlers, of which the newest comes first.
abbrev pub starts_made : List ℕ → List Call
starts_made [] = []
starts_made (name ∷ names) = starts_made names ++ starts name ∷ []

starts_of_last :
    (handler name : ℕ) (cs : List Call)
    → starts_of handler (cs ++ starts name ∷ [])
      ≡ starts_of handler cs + (if name == handler then 1 else 0)
starts_of_last handler name [] = omega arith
starts_of_last handler name (ticks ∷ cs) = starts_of_last handler name cs
starts_of_last handler name (counts t k n ∷ cs) = starts_of_last handler name cs
starts_of_last handler name (times t k c ∷ cs) = starts_of_last handler name cs
starts_of_last handler name (starts h ∷ cs) = omega (arith, starts_of_last handler name cs)
starts_of_last handler name (handles h c ∷ cs) = starts_of_last handler name cs
starts_of_last handler name (lasts h c ∷ cs) = starts_of_last handler name cs
starts_of_last handler name (inits cfg ∷ cs) = starts_of_last handler name cs

starts_of-starts_made :
    (handler : ℕ) (names : List ℕ) → starts_of handler (starts_made names) ≡ count handler names
starts_of-starts_made handler [] = refl
starts_of-starts_made handler (name ∷ names) = ground (
  arith,
  starts_of_last handler name (starts_made names),
  starts_of-starts_made handler names,
  ==_iff name handler,
  ==_iff handler name,
)

module _ (name_of : ℕ → ℕ → ℕ) (status_of : Response → ℕ) (ignores : List Ignore)
    (h : Handler) where
  -- Requests one after the other, each with a new response.
  unfoldable pub serve : Response → List Request → Server → Server
  unfolding recover prom
  serve new [] s = s
  serve new (r ∷ rs) s =
      serve new rs (record ((recover (prom name_of status_of ignores h) r s).1) { response = new })

  -- How many of the requests go to the handler of the name and are not ignored.
  abbrev pub requests_to : ℕ → List Request → ℕ
  requests_to handler [] = 0
  requests_to handler (r ∷ rs) =
      (if ignored ignores r then 0 else if handler == name_of r.path r.method then 1 else 0)
      + requests_to handler rs

  -- The handler itself leaves the counter of started handlers alone.
  abbrev pub KeepsStarted : Type 0
  KeepsStarted = (r : Request) (s : Server) → (h r s).1.started ≡ s.started

  recovered-started : (p : Option Panic) (s : Server) → (recovered p s).1.started ≡ s.started
  unfolding recovered
  recovered-started none s = refl
  recovered-started (some abort) s = refl
  recovered-started (some (value v)) s = refl

  count_handled-started :
      (name : ℕ) (m : Option Panic × Server)
      → (count_handled name_of status_of name m).1.started ≡ m.1.started
  unfolding count_handled
  count_handled-started name (none, s) = refl
  count_handled-started name (some p, s) = refl

  recover-started :
      (f : Handler) (r : Request) (s : Server) → (recover f r s).1.started ≡ (f r s).1.started
  unfolding recover
  recover-started f r s = recovered-started (f r s).0 (f r s).1

  prom-started :
      (r : Request) (s : Server)
      → KeepsStarted
      → (prom name_of status_of ignores h r s).1.started
        ≡ (if ignored ignores r then s.started else name_of r.path r.method ∷ s.started)
  unfolding prom
  prom-started r s keeps = elim (Bool-cases (ignored ignores r)) [
    | inl skips ↦ rw skips (keeps r s)
    | inr counted ↦
        let s' = start name_of status_of r s in
        rw counted (count_handled-started (name_of r.path r.method) (h r s') ∙ keeps r s')
  ]

  serve-started :
      (new : Response) (rs : List Request) (s : Server) (handler : ℕ)
      → KeepsStarted
      → count handler (serve new rs s).started ≡ requests_to handler rs + count handler s.started
  unfolding serve
  serve-started new [] s handler keeps = omega arith
  serve-started new (r ∷ rs) s handler keeps =
      let f = prom name_of status_of ignores h in
      let s' : Server = record ((recover f r s).1) { response = new } in
      let begun = recover-started f r s ∙ prom-started r s keeps in
      ground (
        arith,
        serve-started new rs s' handler keeps,
        ap (λ (names : List ℕ). count handler names) begun,
      )

  -- Requests come one after the other to a handler behind `Recover` and `Prom`, and `Init` of oneprom has
  -- run. Then the calls of `ServerStartedCounter` do not panic, and the counter of a name, with the name of
  -- the application in both labels, is the number of requests to it that are not ignored, also of those
  -- that panic, if the handler itself does not count.
  pub serve-counts :
      (cfg : Environment) (p : Package) (new : Response) (rs : List Request) (s : Server)
      (handler : ℕ)
      → p.default_prom ≡ none
      → s.started ≡ []
      → KeepsStarted
      → (m : Prom) × (q : Package) × (run (init p cfg) (starts_made (serve new rs s).started)
          ≡ some q)
        × (q.default_prom ≡ some m)
        × (m.server_started_counter (cfg.app ∷ cfg.app ∷ handler ∷ []) ≡ requests_to handler rs)
  serve-counts cfg p new rs s handler fresh unstarted keeps =
      let made = (serve new rs s).started in
      let (m, q, ran, there, counted) = run-starts cfg p (starts_made made) cfg.app handler fresh in
      let all : count handler made ≡ requests_to handler rs =
        serve-started new rs s handler keeps
        ∙ ground (arith, ap (λ (names : List ℕ). count handler names) unstarted) in
      (
        m,
        q,
        ran,
        there,
        ground (arith, counted, all, starts_of-starts_made handler made, ==_iff cfg.app cfg.app),
      )
