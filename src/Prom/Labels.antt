-- ===== src/Prom/Labels.antt =====
-- oneprom/prom.go: what any sequence of calls leaves of the labels and the counts.
use eins.Prelude.{
  ℕ, ◌+◌, ◌≡◌, refl, Option, none, some, List, [], ◌∷◌, arith, if◌then◌else◌, ◌==◌, ==_iff,
  Bool-cases, inl, inr,
}
use eins.Prelude.Int.{ℤ, pos, leb_ℤ, pos_part}
use eins.Env.{Environment}
use eins.Prom.{
  Package, Prom, new_prom, add, observe, init, tick, prom_statsd, prom_timing, statsd, timing,
  server_started_counter, server_handled_counter, server_handled_histogram,
}

-- A call of the package after `Init`.
pub data Call : Type 0 where
  ticks : Call
  counts : ℕ → ℕ → ℤ → Call
  times : ℕ → ℕ → ℕ → Call
  starts : ℕ → Call
  handles : ℕ → ℕ → Call
  lasts : ℕ → ℕ → Call
  inits : Environment → Call

unfoldable pub call : Package → Call → Option Package
unfolding init tick statsd timing server_started_counter server_handled_counter
    server_handled_histogram
call p ticks = tick p
call p (counts target key n) = statsd p target key n
call p (times target key cost) = timing p target key cost
call p (starts handler) = server_started_counter p handler
call p (handles handler code) = server_handled_counter p handler code
call p (lasts handler cost) = server_handled_histogram p handler cost
call p (inits cfg) = some (init p cfg)

unfoldable pub run : Package → List Call → Option Package
unfolding call
run p [] = some p
run p (c ∷ cs) = elim (call p c) [ none ↦ none | some q ↦ run q cs ]

-- How often a handler was started.
abbrev pub starts_of : ℕ → List Call → ℕ
starts_of handler [] = 0
starts_of handler (starts h ∷ cs) = (if h == handler then 1 else 0) + starts_of handler cs
starts_of handler (ticks ∷ cs) = starts_of handler cs
starts_of handler (counts t k n ∷ cs) = starts_of handler cs
starts_of handler (times t k c ∷ cs) = starts_of handler cs
starts_of handler (handles h c ∷ cs) = starts_of handler cs
starts_of handler (lasts h c ∷ cs) = starts_of handler cs
starts_of handler (inits cfg ∷ cs) = starts_of handler cs

-- What a call does to the metrics once there are any.
abbrev effect : Environment → Prom → Call → Prom
effect cfg m ticks = record m { uptime = add m.uptime (cfg.app ∷ cfg.env ∷ []) 1 }
effect cfg m (counts target key n) = prom_statsd m target key n
effect cfg m (times target key cost) = prom_timing m target key cost
effect cfg m (starts handler) = record m {
  server_started_counter = add m.server_started_counter (m.app ∷ m.env ∷ handler ∷ []) 1;
}
effect cfg m (handles handler code) = record m {
  server_handled_counter = add m.server_handled_counter (m.app ∷ m.env ∷ handler ∷ code ∷ []) 1;
}
effect cfg m (lasts handler cost) = record m {
  server_handled_histogram = observe m.server_handled_histogram (m.app ∷ m.env ∷ handler ∷ []) cost;
}
effect cfg m (inits other) = m

abbrev effects : Environment → Prom → List Call → Prom
effects cfg m [] = m
effects cfg m (c ∷ cs) = effects cfg (effect cfg m c) cs

abbrev holding : Environment → Prom → Package
holding cfg m = record { default_prom = some m; cfg = cfg }

call-effect :
    (cfg : Environment) (m : Prom) (c : Call)
    → call (holding cfg m) c ≡ some (holding cfg (effect cfg m c))
unfolding call statsd prom_statsd
call-effect cfg m ticks = refl
call-effect cfg m (counts target key n) = ground arith
call-effect cfg m (times target key cost) = refl
call-effect cfg m (starts handler) = refl
call-effect cfg m (handles handler code) = refl
call-effect cfg m (lasts handler cost) = refl
call-effect cfg m (inits other) = refl

run-effects :
    (cfg : Environment) (m : Prom) (cs : List Call)
    → run (holding cfg m) cs ≡ some (holding cfg (effects cfg m cs))
unfolding run
run-effects cfg m [] = refl
run-effects cfg m (c ∷ cs) = rw (call-effect cfg m c, run) (run-effects cfg (effect cfg m c) cs)

effects-started :
    (cfg : Environment) (m : Prom) (cs : List Call) (env handler : ℕ)
    → (effects cfg m cs).server_started_counter (m.app ∷ env ∷ handler ∷ [])
      ≡ m.server_started_counter (m.app ∷ env ∷ handler ∷ [])
        + (if m.env == env then starts_of handler cs else 0)
unfolding add prom_statsd prom_timing
effects-started cfg m [] env handler = ground arith
effects-started cfg m (ticks ∷ cs) env handler =
    effects-started cfg (effect cfg m ticks) cs env handler
effects-started cfg m (counts target key n ∷ cs) env handler = elim (Bool-cases (leb_ℤ n (pos 0))) [
  | inl none_added ↦ rw (none_added, effects) (effects-started cfg m cs env handler)
  | inr added ↦
      let m' : Prom = record m {
        statsd = add m.statsd (m.app ∷ m.env ∷ target ∷ key ∷ []) (pos_part n);
      } in
      rw (added, effects) (effects-started cfg m' cs env handler)
]
effects-started cfg m (times target key cost ∷ cs) env handler =
    effects-started cfg (effect cfg m (times target key cost)) cs env handler
effects-started cfg m (starts h ∷ cs) env handler = ground (
  arith,
  effects-started cfg (effect cfg m (starts h)) cs env handler,
  ==_iff m.app m.app,
  ==_iff m.env env,
  ==_iff h handler,
)
effects-started cfg m (handles h code ∷ cs) env handler =
    effects-started cfg (effect cfg m (handles h code)) cs env handler
effects-started cfg m (lasts h cost ∷ cs) env handler =
    effects-started cfg (effect cfg m (lasts h cost)) cs env handler
effects-started cfg m (inits other ∷ cs) env handler = effects-started cfg m cs env handler

-- Once `Init` has run, no call panics, whatever calls come in whatever order. Each start of a handler is
-- counted under the name of the application as the environment too; under another environment, the
-- configured one included, no start is ever counted.
pub run-starts :
    (cfg : Environment) (p : Package) (cs : List Call) (env handler : ℕ)
    → p.default_prom ≡ none
    → (m : Prom) × (q : Package) × (run (init p cfg) cs ≡ some q)
      × (q.default_prom ≡ some m)
      × (m.server_started_counter (cfg.app ∷ env ∷ handler ∷ [])
          ≡ (if cfg.app == env then starts_of handler cs else 0))
unfolding init
run-starts cfg p cs env handler fresh =
    let m : Prom = new_prom cfg in
    let begun : init p cfg ≡ holding cfg m = rw (fresh, init) refl in
    (
      effects cfg m cs,
      holding cfg (effects cfg m cs),
      rw begun (run-effects cfg m cs),
      refl,
      omega (arith, effects-started cfg m cs env handler),
    )
