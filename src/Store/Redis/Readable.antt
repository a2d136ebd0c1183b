-- ===== src/Store/Redis/Readable.antt =====
-- onecache/store/redis.go: what `SetMulti` wrote can be read again.
use eins.Prelude.{
  ℕ, ◌≡◌, refl, ap, true, Option, none, some, List, [], ◌∷◌, arith, ==_iff, Bool-cases, ◌==◌, ◌⊎◌,
  inl, inr, length,
}
use eins.Cache.Multi.{put_at, write_all}
use eins.Store.{Outcome, done}
use eins.Store.Redis.{RedisClient, Serializer, queue, commands, pipelined, set_multi}
use eins.Store.Redis.Spec.{IsServer, Reads, AllReturn, outcome-done}

module _ {C V T B : Type 0} (client : RedisClient C B) (serializer : Serializer V T B)
    (view : C → ℕ → Option B) (t : T) where
  open serializer use {decode, encode}

  -- Every value comes back from its encoding.
  abbrev pub Returns : Type 0
  Returns = (v : V) (src : B) → encode v ≡ inr src → decode src t ≡ (none, some v)

  pub all_return : (vs : List V) → Returns → AllReturn client serializer view t vs
  all_return [] back = tt
  all_return (v ∷ vs) back = (back v, all_return vs back)

  abbrev pub Readable : (ℕ → Option B) → Type 0
  Readable f = (k : ℕ) → Reads client serializer view t (f k)

  put_at-Readable :
      (f : ℕ → Option B) (key : ℕ) (src : B) (v : V)
      → decode src t ≡ (none, some v)
      → Readable f
      → Readable (put_at f key src)
  put_at-Readable f key src v back h k = elim (Bool-cases (key == k)) [
    | inl same ↦ rw same (v, back)
    | inr other ↦ rw other (h k)
  ]

  -- What the commands write can be read.
  abbrev KeepsReadable : ℕ ⊎ List (ℕ × B) → Type 0
  KeepsReadable (inl e) = Unit
  KeepsReadable (inr cmds) = (f : ℕ → Option B) → Readable f → Readable (write_all cmds f)

  queue-KeepsReadable :
      (key : ℕ) (v : V) (coded : ℕ ⊎ B) (rest : ℕ ⊎ List (ℕ × B))
      → ((src : B) → coded ≡ inr src → decode src t ≡ (none, some v))
      → KeepsReadable rest
      → KeepsReadable (queue client serializer key coded rest)
  unfolding queue write_all
  queue-KeepsReadable key v (inl e) rest back h = tt
  queue-KeepsReadable key v (inr src) (inl e) back h = tt
  queue-KeepsReadable key v (inr src) (inr cmds) back h =
      λ f readable. h (put_at f key src) (put_at-Readable f key src v (back src refl) readable)

  commands-KeepsReadable :
      (keys : List ℕ) (vs : List V) → Returns → KeepsReadable (commands client serializer keys vs)
  unfolding commands write_all
  commands-KeepsReadable [] vs back = λ f readable. readable
  commands-KeepsReadable (key ∷ keys) [] back = λ f readable. readable
  commands-KeepsReadable (key ∷ keys) (v ∷ vs) back =
      queue-KeepsReadable key v (encode v) (commands client serializer keys vs) (back v)
        (commands-KeepsReadable keys vs back)

  pipelined-Readable :
      (c c' : C) (ttl : ℕ) (cmds : ℕ ⊎ List (ℕ × B))
      → IsServer client view
      → KeepsReadable cmds
      → Readable (view c)
      → pipelined client serializer c ttl cmds ≡ (done, c')
      → Readable (view c')
  unfolding pipelined
  pipelined-Readable c c' ttl (inl e) h keeps readable sent k = ground arith
  pipelined-Readable c c' ttl (inr cmds) h keeps readable sent k =
      let no_error : (client.pipeline_set c cmds ttl).0 ≡ none =
        outcome-done client serializer view t (client.pipeline_set c cmds ttl).0
          (ap (λ (r : Outcome × C). r.0) sent) in
      let reply : client.pipeline_set c cmds ttl ≡ (none, c') = ground arith in
      rw (h.pipeline_writes c c' cmds ttl reply k) (keeps (view c) readable k)

  pub set_multi-Readable :
      (c c' : C) (keys : List ℕ) (vs : List V) (ttl : ℕ)
      → IsServer client view
      → Returns
      → Readable (view c)
      → set_multi client serializer c keys true vs ttl ≡ (done, c')
      → Readable (view c')
  unfolding set_multi
  set_multi-Readable c c' keys vs ttl h back readable sent =
      pipelined-Readable c c' ttl (commands client serializer keys vs) h
        (commands-KeepsReadable keys vs back) readable
        (ground (arith, ==_iff (length vs) (length keys)))
