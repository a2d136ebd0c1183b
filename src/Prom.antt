-- ===== src/Prom.antt =====
-- oneprom/prom.go: the metrics of a service. The library counts under the values of a metric's labels;
-- texts are known by numbers.
pub mod Labels
use eins.Prelude.{
  ℕ, suc, ◌+◌, ◌≡◌, Bool, true, false, ◌&&◌, Option, none, some, List, [], ◌∷◌, if◌then◌else◌, ◌==◌,
}
use eins.Prelude.Int.{ℤ, pos, leb_ℤ, pos_part}
use eins.Env.{Environment}

abbrev pub same_labels : List ℕ → List ℕ → Bool
same_labels [] [] = true
same_labels (a ∷ rest) (b ∷ bs) = a == b && same_labels rest bs
same_labels [] (b ∷ bs) = false
same_labels (a ∷ rest) [] = false

-- `prometheus.CounterVec` and `HistogramVec`, by the values of their labels.
abbrev pub CounterVec : Type 0
CounterVec = List ℕ → ℕ

abbrev pub HistogramVec : Type 0
HistogramVec = List ℕ → List ℕ

unfoldable pub add : CounterVec → List ℕ → ℕ → CounterVec
add c labels n j = if same_labels labels j then c j + n else c j

unfoldable pub observe : HistogramVec → List ℕ → ℕ → HistogramVec
observe h labels v j = if same_labels labels j then v ∷ h j else h j

-- `prom`.
pub record Prom : Type 0 where
  pub app : ℕ
  pub env : ℕ
  pub uptime : CounterVec
  pub statsd : CounterVec
  pub timing : HistogramVec
  pub server_started_counter : CounterVec
  pub server_handled_counter : CounterVec
  pub server_handled_histogram : HistogramVec

-- What the package holds: `defaultProm` once `Init` has run, and the configuration that its ticker reads.
pub record Package : Type 0 where
  pub default_prom : Option Prom
  pub cfg : Environment

-- The metrics as `Init` makes them. The field `env` is set from `GetApp`.
abbrev pub new_prom : Environment → Prom
new_prom cfg = record {
  app = cfg.app;
  env = cfg.app;
  uptime = λ j. 0;
  statsd = λ j. 0;
  timing = λ j. [];
  server_started_counter = λ j. 0;
  server_handled_counter = λ j. 0;
  server_handled_histogram = λ j. [];
}

-- `Init`. A second call changes nothing.
unfoldable pub init : Package → Environment → Package
init p cfg = elim p.default_prom [
  | some m ↦ p
  | none ↦ record { default_prom = some (new_prom cfg); cfg = cfg }
]

-- A function of the package on `defaultProm`, where nil metrics panic: `none`.
abbrev pub on_prom : Package → (Prom → Prom) → Option Package
on_prom p f = elim p.default_prom [
  | none ↦ none
  | some m ↦ some (record p { default_prom = some (f m) })
]

-- A tick of the goroutine that `Init` starts.
unfoldable pub tick : Package → Option Package
unfolding add
tick p = on_prom p λ m. record m { uptime = add m.uptime (p.cfg.app ∷ p.cfg.env ∷ []) 1 }

-- The method `Statsd` and the method `Timing`.
unfoldable pub prom_statsd : Prom → ℕ → ℕ → ℤ → Prom
unfolding add
prom_statsd m target key n =
    if leb_ℤ n (pos 0)
    then m
    else record m { statsd = add m.statsd (m.app ∷ m.env ∷ target ∷ key ∷ []) (pos_part n) }

unfoldable pub prom_timing : Prom → ℕ → ℕ → ℕ → Prom
unfolding observe
prom_timing m target key cost = record m {
  timing = observe m.timing (m.app ∷ m.env ∷ target ∷ key ∷ []) cost;
}

-- The functions of the package.
unfoldable pub statsd : Package → ℕ → ℕ → ℤ → Option Package
unfolding prom_statsd
statsd p target key n =
    if leb_ℤ n (pos 0) then some p else on_prom p λ m. prom_statsd m target key n

unfoldable pub timing : Package → ℕ → ℕ → ℕ → Option Package
unfolding prom_timing
timing p target key cost = on_prom p λ m. prom_timing m target key cost

unfoldable pub server_started_counter : Package → ℕ → Option Package
unfolding add
server_started_counter p handler = on_prom p λ m. record m {
  server_started_counter = add m.server_started_counter (m.app ∷ m.env ∷ handler ∷ []) 1;
}

unfoldable pub server_handled_counter : Package → ℕ → ℕ → Option Package
unfolding add
server_handled_counter p handler code = on_prom p λ m. record m {
  server_handled_counter = add m.server_handled_counter (m.app ∷ m.env ∷ handler ∷ code ∷ []) 1;
}

unfoldable pub server_handled_histogram : Package → ℕ → ℕ → Option Package
unfolding observe
server_handled_histogram p handler cost = on_prom p λ m. record m {
  server_handled_histogram = observe m.server_handled_histogram (m.app ∷ m.env ∷ handler ∷ []) cost;
}
