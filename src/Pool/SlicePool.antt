-- ===== src/Pool/SlicePool.antt =====
-- onepool/slice.go, the pool over a slice (`Slice`): its state and the operations that run under
-- `p.mu`. A function here is one critical section, or what the code calls inside one.
pub mod Requests
pub mod Session
pub mod System
pub mod Accounting
pub mod Ownership
pub mod Limits
pub mod Cleaning
pub mod Settings
pub mod Abandoned
pub mod Waiting
pub mod Queue
pub mod Cleaner
mod Tests
use eins.Prelude.{
  ℕ, zero, suc, ◌+◌, ◌≡◌, refl, Bool, true, false, ◌&&◌, ◌||◌, not, Option, none, some, List, [],
  ◌∷◌, ◌++◌, map, length, if◌then◌else◌,
}
use eins.Prelude.Int.{ℤ, pos, negsuc, ◌+ℤ◌, ◌-ℤ◌, ltb_ℤ, leb_ℤ, eqb_ℤ, pos_part}
use eins.Pool.{Config, Item, PoolError, config_ok}

-- `Slice`. `free` is `freeItem`, the longest idle in front; `requests` are the keys of `itemRequests`.
-- A channel of a request holds one item: `mail` has the items that were sent and not yet received,
-- with the key of their request, and `closed_keys` the requests whose channel `Close` closed.
-- `opener` counts the tokens in `openerCh`. `cleaner_ch` tells whether `cleanerCh` is there.
pub record SlicePool : Type 0 where
  pub closed : Bool
  pub active : ℤ
  pub free : List Item
  pub requests : List ℕ
  pub mail : List (ℕ × Item)
  pub closed_keys : List ℕ
  pub next_request : ℕ
  pub opener : ℕ
  pub cleaner_ch : Bool
  pub conf : Config

-- `NewSlice`; `none` is the panic.
unfoldable pub new_slice : Option Config → Option SlicePool
unfolding config_ok
new_slice none = none
new_slice (some conf) =
    if config_ok conf
    then some (record {
      closed = false;
      active = pos 0;
      free = [];
      requests = [];
      mail = [];
      closed_keys = [];
      next_request = 0;
      opener = 0;
      cleaner_ch = not (leb_ℤ conf.idle_timeout (pos 0));
      conf = conf;
    })
    else none

-- `maxIdleItemsLocked`: 0 stands for the default of 2, and a negative number for none.
unfoldable pub max_idle : Config → ℕ
max_idle conf = elim conf.idle [ pos n ↦ if eqb_ℤ (pos n) (pos 0) then 2 else n | negsuc n ↦ 0 ]

-- The loop of `maybeOpenNewItems`.
unfoldable pub open_loop : ℕ → SlicePool → SlicePool
open_loop zero p = p
open_loop (suc num_requests) p =
    let q = record p { active = p.active +ℤ pos 1 } in
    let rest = open_loop num_requests (record q { opener = suc p.opener }) in
    if p.closed then q else rest

-- `numRequests`, reduced to what the limit still allows. A negative number makes no round.
unfoldable pub num_requests : SlicePool → ℕ
num_requests p =
    let n = pos (length p.requests) in
    let can_open = p.conf.active -ℤ p.active in
    if ltb_ℤ (pos 0) p.conf.active
    then pos_part (if ltb_ℤ can_open n then can_open else n)
    else length p.requests

-- `maybeOpenNewItems`.
unfoldable pub maybe_open : SlicePool → SlicePool
unfolding open_loop num_requests
maybe_open p = open_loop (num_requests p) p

-- `release`.
unfoldable pub release : SlicePool → SlicePool
release p = maybe_open (record p { active = p.active -ℤ pos 1 })

-- The key that `range` over the map meets first: any one, here the one at the place `pick`, and the
-- keys that stay.
unfoldable pub pick_key : ℕ → ℕ → List ℕ → ℕ × List ℕ
pick_key pick k [] = (k, [])
pick_key zero k (l ∷ ks) = (k, l ∷ ks)
pick_key (suc pick) k (l ∷ ks) = let (m, rest) = pick_key pick l ks in (m, k ∷ rest)

-- The part of `putItemLocked` below its two refusals.
unfoldable pub place_item : SlicePool → ℕ → Item → List ℕ → Option SlicePool
unfolding pick_key max_idle
place_item p pick i (k ∷ ks) =
    let (key, rest) = pick_key pick k ks in
    some (record p { requests = rest; mail = (key, i) ∷ p.mail })
place_item p pick i [] =
    if ltb_ℤ (pos (length p.free)) (pos (max_idle p.conf))
    then some (record p { free = p.free ++ i ∷ [] })
    else none

-- `putItemLocked`; `none` is `false`.
unfoldable pub put_item : SlicePool → ℕ → ℕ → ℕ → Option SlicePool
unfolding place_item
put_item p now pick c =
    if p.closed
    then none
    else if ltb_ℤ (pos 0) p.conf.active && ltb_ℤ p.conf.active p.active
    then none
    else place_item p pick (record { created_at = now; c = c }) p.requests

-- A section's pool, and the items that are closed as it ends.
pub record Section : Type 0 where
  pub pool : SlicePool
  pub closes : List ℕ

-- What follows a refusal of `putItemLocked` in `Put` and in `openNewItem`.
abbrev pub or_close : SlicePool → ℕ → Option SlicePool → Section
or_close p c (some q) = record { pool = q; closes = [] }
or_close p c none = record { pool = record p { active = p.active -ℤ pos 1 }; closes = c ∷ [] }

-- `Put`.
unfoldable pub put : SlicePool → ℕ → ℕ → ℕ → Bool → Section
put p now pick c force_close =
    if force_close
    then record { pool = release p; closes = c ∷ [] }
    else or_close p c (put_item p now pick c)

-- `openNewItem`, after `New` has returned an item or an error.
unfoldable pub open_new_item : SlicePool → ℕ → ℕ → Option ℕ → Section
open_new_item p now pick none = record { pool = release p; closes = [] }
open_new_item p now pick (some c) = or_close p c (put_item p now pick c)

abbrev pub conns : List Item → List ℕ
conns = map λ i. i.c

-- `Close`. A second call changes nothing.
unfoldable pub close : SlicePool → Section
close p = if p.closed then record { pool = p; closes = [] } else record {
  pool = record p { free = []; closed = true; closed_keys = p.requests };
  closes = conns p.free;
}
