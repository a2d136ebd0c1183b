-- ===== src/Watchdog/Tests.antt =====
-- watchdog/impl.go: runs against a Redis that is a set of keys.
use eins.Prelude.{ℕ, ◌≡◌, refl, Bool, true, false, none, [], arith, if◌then◌else◌, ◌==◌, ==_iff}
use eins.Watchdog.{Client, Dog, lock, unlock, watch_wake}
use eins.Watchdog.Keeper.{started, unlock_ends_watch}

abbrev Keys : Type 0
Keys = ℕ → Bool

abbrev with_key : Keys → ℕ → Bool → Keys
with_key r k b j = if k == j then b else r j

abbrev sets : Client Keys
sets = record {
  set_nx = λ r k v dur. if r k then ((none, false), r) else ((none, true), with_key r k true);
  del = λ r k. (none, with_key r k false);
  expire = λ r k dur. ((none, r k), r);
}

abbrev no_keys : Keys
no_keys k = false

abbrev idle : Dog
idle = record {
  cancel = none;
  next_ctx = 0;
  cancelled = λ c. false;
  watchers = [];
  crashed = false;
}

unlock_ends_watch_example :
    let a = lock sets idle no_keys 2 5 1 70 in
    let b = unlock sets a.dog a.redis 5 in
    (watch_wake sets b.dog b.redis (λ c. false) (started idle 2 5 70) true).0 ≡ true
unlock_ends_watch_example =
    unlock_ends_watch sets idle no_keys (with_key no_keys 5 true) 2 5 1 70 (λ c. false) true
      (λ t d. ground (arith, ==_iff 5 5)) refl (omega arith)
