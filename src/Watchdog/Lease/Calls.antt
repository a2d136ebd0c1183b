-- ===== src/Watchdog/Lease/Calls.antt =====
-- watchdog/impl.go: `Lock` and `Unlock` by several, and the time that passes, leave the key with who owns it.
use mathlib.Core.Logic.{ite}
use mathlib.Core.Path.{subst}
use eins.Prelude.{
  ℕ, ◌+◌, ◌/◌, ◌≡◌, ◌≢◌, get_elem?, ◌≤◌, ◌<◌, sym, true, false, Option, some, arith, Bool-cases,
  ◌⊎◌, inl, inr, if◌then◌else◌, ℕ_discrete,
}
use eins.Prelude.Family.{update}
use eins.Watchdog.{Watcher, Client, Dog, unlock, cancel_watch}
use eins.Watchdog.Exclusion.{lock-redis, wins-won, wins, after_lock, after_unlock}
use eins.Watchdog.Lease.{IsExpiring, Leased}
use eins.Watchdog.Lease.Dogs.{
  IsSound, IsLive, locked, locked-IsSound, locked-IsLive, cancel_watch-IsSound, lock-won, lock-lost,
}

pub updated :
    {A : Type 0} (P : A → Type 0) (members : ℕ → A) (new : A) (i j : ℕ)
    → (i ≡ j → P new)
    → (i ≢ j → P (members j))
    → P (update members i new j)
updated P members new i j at_i elsewhere = go (ℕ_discrete i j)
  where
    go : (same : Dec (i ≡ j)) → P (ite same new (members j))
    go (yes e) = at_i e
    go (no n) = elsewhere n

module _ {R : Type 0} (deadline : R → Option ℕ) (time : R → ℕ) (dur : ℕ) where
  -- The key stays beyond the next turn of the goroutine.
  abbrev pub Lasts : R → ℕ → Type 0
  Lasts r due =
      (d : ℕ) × (deadline r ≡ some d) × (due < d) × (time r ≤ due) × (due ≤ time r + dur / 7)

  -- A command that leaves a key that is there, and the clock, or renews it.
  pub record IsHarmless (r s : R) : Type 0 where
    pub same_time : time s ≡ time r
    pub stays :
        {d : ℕ}
        → deadline r ≡ some d
        → time r < d
        → (deadline s ≡ some d) ⊎ (deadline s ≡ some (time r + dur))

pub record IsKept {R : Type 0} (key dur : ℕ) (deadline : R → Option ℕ) (time : R → ℕ) (x : Leased R)
    : Type 0 where
  pub one : (i j : ℕ) → x.system.owns i ≡ true → x.system.owns j ≡ true → i ≡ j
  pub lasts : (i : ℕ) → x.system.owns i ≡ true → Lasts deadline time dur x.system.redis (x.due i)
  pub lives : (i : ℕ) → x.system.owns i ≡ true → IsLive x.over (x.system.dogs i)
  pub sound : (i : ℕ) → IsSound key dur (x.system.dogs i)

module _ {R : Type 0} {deadline : R → Option ℕ} {time : R → ℕ} {dur : ℕ} where
  pub Lasts-IsHarmless :
      {r s : R} {due : ℕ}
      → 7 ≤ dur
      → IsHarmless deadline time dur r s
      → Lasts deadline time dur r due
      → Lasts deadline time dur s due
  Lasts-IsHarmless {due = due} long h (d, there, after, before, near) =
      elim (h.stays there (omega arith)) [
        | inl same ↦ (d, same, after, omega (arith, h.same_time), omega (arith, h.same_time))
        | inr renewed ↦ (
          time _ + dur,
          renewed,
          omega arith,
          omega (arith, h.same_time),
          omega (arith, h.same_time),
        )
      ]

module _ {R : Type 0} {client : Client R} {key dur : ℕ} {deadline : R → Option ℕ} {time : R → ℕ}
    {wait : R → ℕ → R} (law : IsExpiring client key deadline time wait) (long : 7 ≤ dur) where
  set_nx-IsHarmless : (r : R) (v : ℕ) → IsHarmless deadline time dur r (client.set_nx r key v dur).1
  set_nx-IsHarmless r v = record {
    same_time = law.set_time r v dur;
    stays = λ there alive. inl (law.set_keeps r v dur there alive);
  }

  pub expire-IsHarmless : (r : R) → IsHarmless deadline time dur r (client.expire r key dur).1
  expire-IsHarmless r = record {
    same_time = law.expire_time r dur;
    stays = λ there alive. inr (law.expire_renews r dur there alive).1;
  }

  -- Nobody owns a key that can be set.
  nobody_owns :
      {x : Leased R}
      → IsKept key dur deadline time x
      → (v k : ℕ) → wins client key x.system.redis v dur ≡ true
      → x.system.owns k ≢ true
  nobody_owns {x} h v k won mine =
      let (d, there, after, before, near) = h.lasts k mine in
      let gone =
        law.set_absent x.system.redis v dur (wins-won client key x.system.redis v dur won) there in
      omega arith

  won-IsKept :
      (x : Leased R) (i parent v : ℕ)
      → x.over parent ≡ false
      → wins client key x.system.redis v dur ≡ true
      → IsKept key dur deadline time x
      → IsKept key dur deadline time (record x {
        system = record {
          redis = (client.set_nx x.system.redis key v dur).1;
          dogs = update x.system.dogs i (locked (x.system.dogs i) parent key dur);
          owns = update x.system.owns i true;
        };
        due = update x.due i (time x.system.redis + dur / 7);
      })
  won-IsKept x i parent v going won h =
      let r = x.system.redis in
      let nobody : (k : ℕ) → x.system.owns k ≢ true = λ k. nobody_owns h v k won in
      let there = law.set_there r v dur (wins-won client key r v dur won) in
      let first : Lasts deadline time dur (client.set_nx r key v dur).1 (time r + dur / 7) = (
        time r + dur,
        there,
        omega arith,
        omega (arith, law.set_time r v dur),
        omega (arith, law.set_time r v dur),
      ) in
      record {
        one = λ j k mine yours. ground (arith, nobody j, nobody k);
        lasts = λ j mine.
            updated (λ due. Lasts deadline time dur (client.set_nx r key v dur).1 due) x.due
              (time r + dur / 7) i j (λ e. first) (λ other. absurd (nobody j (ground arith)));
        lives = λ j mine.
            updated (IsLive x.over) x.system.dogs (locked (x.system.dogs i) parent key dur) i j
              (λ e. locked-IsLive x.over (x.system.dogs i) parent going (h.sound i))
              (λ other. absurd (nobody j (ground arith)));
        sound = λ j.
            updated (IsSound key dur) x.system.dogs (locked (x.system.dogs i) parent key dur) i j
              (λ e. locked-IsSound (x.system.dogs i) parent (h.sound i)) (λ other. h.sound j);
      }

  lost-IsKept :
      (x : Leased R) (i v : ℕ)
      → IsKept key dur deadline time x
      → IsKept key dur deadline time (record x {
        system = record x.system {
          redis = (client.set_nx x.system.redis key v dur).1;
          dogs = update x.system.dogs i (x.system.dogs i);
        };
      })
  lost-IsKept x i v h =
      let same : (P : Dog → Type 0) (j : ℕ)
          → P (x.system.dogs j)
          → P (update x.system.dogs i (x.system.dogs i) j) =
        λ P j there.
          updated P x.system.dogs (x.system.dogs i) i j
            (λ e. subst (λ k. P (x.system.dogs k)) (sym e) there) (λ n. there) in
      record {
        one = h.one;
        lasts =
            λ j mine. Lasts-IsHarmless long (set_nx-IsHarmless x.system.redis v) (h.lasts j mine);
        lives = λ j mine. same (IsLive x.over) j (h.lives j mine);
        sound = λ j. same (IsSound key dur) j (h.sound j);
      }

  pub locks-IsKept :
      (x : Leased R) (i parent v : ℕ)
      → x.over parent ≡ false
      → IsKept key dur deadline time x
      → IsKept key dur deadline time (record x {
        system = after_lock client key x.system i parent v dur;
        due =
            if wins client key x.system.redis v dur
            then update x.due i (time x.system.redis + dur / 7)
            else x.due;
      })
  locks-IsKept x i parent v going h =
      let w = x.system.dogs i in
      let r = x.system.redis in
      elim (Bool-cases (wins client key r v dur)) [
        | inl won ↦
            rw
              (
                won,
                lock-won client w r parent key v dur long won,
                lock-redis client key w r parent v dur,
              )
              (won-IsKept x i parent v going won h)
        | inr lost ↦
            rw
              (
                lost,
                lock-lost client w r parent key v dur lost,
                lock-redis client key w r parent v dur,
              )
              (lost-IsKept x i v h)
      ]

  pub unlocks-IsKept :
      (x : Leased R) (i : ℕ)
      → x.system.owns i ≡ true
      → IsKept key dur deadline time x
      → IsKept key dur deadline time (record x { system = after_unlock client key x.system i })
  unfolding unlock
  unlocks-IsKept x i mine h =
      let w' = cancel_watch (x.system.dogs i) (x.system.dogs i).cancel in
      let nobody : (k : ℕ) → update x.system.owns i false k ≢ true =
        λ k yours. ground (arith, h.one i k mine) in
      record {
        one = λ j k yours theirs. absurd (nobody j yours);
        lasts = λ j yours. absurd (nobody j yours);
        lives = λ j yours. absurd (nobody j yours);
        sound = λ j.
            updated (IsSound key dur) x.system.dogs w' i j
              (λ e. cancel_watch-IsSound (x.system.dogs i) (h.sound i)) (λ n. h.sound j);
      }

  pub passes-IsKept :
      (x : Leased R) (now : ℕ)
      → time x.system.redis ≤ now
      → ((i : ℕ) → x.system.owns i ≡ true → now ≤ x.due i)
      → IsKept key dur deadline time x
      → IsKept key dur deadline time
          (record x { system = record x.system { redis = wait x.system.redis now } })
  passes-IsKept x now later_on in_time h = record {
    one = h.one;
    lasts = λ i mine.
        let (d, there, after, before, near) = h.lasts i mine in
        let soon = in_time i mine in
        (
          d,
          law.wait_keeps x.system.redis now there (omega arith),
          after,
          omega (arith, law.wait_time x.system.redis now),
          omega (arith, law.wait_time x.system.redis now),
        );
    lives = h.lives;
    sound = h.sound;
  }

  -- The context of a caller ends that has not won the key with it.
  pub ends-IsKept :
      (x : Leased R) (c : ℕ)
      → ((i p : ℕ) (g : Watcher)
          → x.system.owns i ≡ true
          → get_elem? (x.system.dogs i).watchers p ≡ some g
          → (x.system.dogs i).cancel ≡ some g.ctx
          → g.parent ≢ c)
      → IsKept key dur deadline time x
      → IsKept key dur deadline time (record x { over = update x.over c true })
  ends-IsKept x c others h = record {
    one = h.one;
    lasts = h.lasts;
    lives = λ i mine.
        let (p, g, at, its, runs, going) = h.lives i mine in
        let other = others i p g mine at its in (p, g, at, its, runs, ground (arith, other, going));
    sound = h.sound;
  }
