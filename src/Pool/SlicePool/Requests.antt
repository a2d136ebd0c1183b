-- ===== src/Pool/SlicePool/Requests.antt =====
-- onepool/slice.go: what `release`, `putItemLocked` and the channels of the requests do to the pool.
use mathlib.Core.Path.{ap₂}
use eins.Prelude.{
  ℕ, zero, suc, ◌+◌, ◌≡◌, ◌∙◌, false, some, List, [], ◌∷◌, ◌++◌, length, length-append, arith, inl,
  inr, if◌then◌else◌, if_false, Option-cases, count, ◌==◌,
}
use eins.Prelude.Int.{ℤ, pos, ◌+ℤ◌, ◌-ℤ◌}
use eins.Pool.{Item}
use eins.Pool.SlicePool.Session.{receive}
use eins.Pool.SlicePool.{
  SlicePool, open_loop, num_requests, maybe_open, release, place_item, put_item, conns,
}

add_step : (a : ℤ) (k : ℕ) → a +ℤ pos 1 +ℤ pos k ≡ a +ℤ pos (suc k)
add_step a k = ground arith

add_zero : (a : ℤ) → a ≡ a +ℤ pos 0
add_zero a = ground arith

-- On an open pool each round counts an item and sends a token.
open_loop_open :
    (k : ℕ) (p : SlicePool)
    → p.closed ≡ false
    → open_loop k p ≡ record p { active = p.active +ℤ pos k; opener = p.opener + k }
unfolding open_loop
open_loop_open zero p e =
    ap₂ (λ a (o : ℕ). record p { active = a; opener = o }) (add_zero p.active) (omega arith)
open_loop_open (suc k) p e =
    if_false p.closed _ _ e
    ∙ open_loop_open k (record p { active = p.active +ℤ pos 1; opener = suc p.opener }) e
    ∙ ap₂ (λ a (o : ℕ). record p { active = a; opener = o }) (add_step p.active k) (omega arith)

abbrev pub reopened : SlicePool → ℕ
reopened p = num_requests (record p { active = p.active -ℤ pos 1 })

pub release_open :
    (p : SlicePool)
    → p.closed ≡ false
    → release p
      ≡ record p { active = p.active -ℤ pos 1 +ℤ pos (reopened p); opener = p.opener + reopened p }
unfolding release maybe_open
release_open p e = open_loop_open (reopened p) (record p { active = p.active -ℤ pos 1 }) e

-- What `maybeOpenNewItems` never touches.
pub record Untouched (p q : SlicePool) : Type 0 where
  pub closed : q.closed ≡ p.closed
  pub free : q.free ≡ p.free
  pub requests : q.requests ≡ p.requests
  pub mail : q.mail ≡ p.mail
  pub conf : q.conf ≡ p.conf

open_loop-Untouched : (k : ℕ) (p : SlicePool) → Untouched p (open_loop k p)
unfolding open_loop
open_loop-Untouched zero p = ground arith
open_loop-Untouched (suc k) p =
    ground (
      arith,
      open_loop-Untouched k (record p { active = p.active +ℤ pos 1; opener = suc p.opener }),
    )

pub release-Untouched : (p : SlicePool) → Untouched p (release p)
unfolding release maybe_open
release-Untouched p =
    ground (arith, open_loop-Untouched (reopened p) (record p { active = p.active -ℤ pos 1 }))

-- How often the item `a` is among the items that were sent and not received.
abbrev pub count_mail : ℕ → List (ℕ × Item) → ℕ
count_mail a [] = 0
count_mail a ((k, i) ∷ mail) = (if a == i.c then 1 else 0) + count_mail a mail

count-conns-append :
    (a : ℕ) (xs : List Item) (i : Item)
    → count a (conns (xs ++ i ∷ [])) ≡ count a (conns xs) + (if a == i.c then 1 else 0)
count-conns-append a [] i = omega arith
count-conns-append a (x ∷ xs) i = omega (arith, count-conns-append a xs i)

-- What `putItemLocked` does when it takes the item `c`, with an eye on the item `a`.
pub record Taken (a : ℕ) (p q : SlicePool) (c : ℕ) : Type 0 where
  pub closed : q.closed ≡ p.closed
  pub active : q.active ≡ p.active
  pub opener : q.opener ≡ p.opener
  pub conf : q.conf ≡ p.conf
  pub more : length q.free + length q.mail ≡ length p.free + length p.mail + 1
  pub owned :
      count a (conns q.free) + count_mail a q.mail
      ≡ count a (conns p.free) + count_mail a p.mail + (if a == c then 1 else 0)

place_item-Taken :
    (a : ℕ) (p : SlicePool) (pick : ℕ) (i : Item) (keys : List ℕ) {q : SlicePool}
    → place_item p pick i keys ≡ some q
    → Taken a p q i.c
unfolding place_item
place_item-Taken a p pick i [] e =
    ground (arith, length-append p.free (i ∷ []), count-conns-append a p.free i)
place_item-Taken a p pick i (k ∷ ks) e = ground arith

pub put_item-Taken :
    (a : ℕ) (p : SlicePool) (now pick c : ℕ) {q : SlicePool}
    → put_item p now pick c ≡ some q
    → Taken a p q c
unfolding put_item
put_item-Taken a p now pick c {q} e =
    place_item-Taken a p pick (record { created_at = now; c = c }) p.requests (ground arith)

-- The item that is received leaves the mail.
pub receive-mail :
    (a key : ℕ) (mail : List (ℕ × Item)) {i : Item} {rest : List (ℕ × Item)}
    → receive key mail ≡ some (i, rest)
    → (length mail ≡ suc (length rest))
      × (count_mail a mail ≡ (if a == i.c then 1 else 0) + count_mail a rest)
unfolding receive
receive-mail a key [] e = cc
receive-mail a key ((k, j) ∷ mail) {i} {rest} e = elim (Option-cases (receive key mail)) [
  | inl missing ↦ ground arith
  | inr ((j', rest'), found) ↦ ground (arith, receive-mail a key mail found)
]
