-- ===== src/Core/Events.antt =====
-- daemon/crates/core/src/events.rs: the bus of published events. The ring keeps the last 64; a
-- poll reads what came after a sequence number. A time is in seconds. `T` is the type of topics, `V`
-- of payloads and `L` of listeners, which are closures: publishing answers the calls it makes.
pub mod Ring
pub mod Polls
mod Tests
use pyren.Base.{
  ℕ, suc, ◌+◌, ◌-◌, min, Bool, true, false, Option, none, some, List, [], ◌∷◌, ◌++◌, map, ltb, leb,
  if◌then◌else◌, length, keep,
}

abbrev pub capacity : ℕ
capacity = 64

abbrev pub max_wait : ℕ
max_wait = 60

pub record Event (T V : Type 0) : Type 0 where
  pub seq : ℕ
  pub topic : T
  pub payload : V
  pub at : ℕ

-- The oldest event comes first.
pub record RingState (T V : Type 0) : Type 0 where
  pub events : List (Event T V)
  pub latest : ℕ
  pub oldest : ℕ

pub record EventBus (T V L : Type 0) : Type 0 where
  pub ring : RingState T V
  pub listeners : List L

pub record Batch (T V : Type 0) : Type 0 where
  pub seq : ℕ
  pub events : List (Event T V)
  pub missed : ℕ

-- A listener called, with what it is told.
pub record Call (T V L : Type 0) : Type 0 where
  pub listener : L
  pub topic : T
  pub payload : V

pub record Published (T V L : Type 0) : Type 0 where
  pub bus : EventBus T V L
  pub seq : ℕ
  pub calls : List (Call T V L)

-- What a waiting poll finds when it wakes up.
pub record Wake (T V : Type 0) : Type 0 where
  pub now : ℕ
  pub ring : RingState T V

module _ {T V : Type 0} where
  abbrev pub empty_ring : RingState T V
  empty_ring = record { events = []; latest = 0; oldest = 0 }

  -- `while ring.events.len() > CAPACITY`: pops from the front.
  pub evict : List (Event T V) → ℕ → ℕ → RingState T V
  evict [] latest oldest = record { events = []; latest = latest; oldest = oldest }
  evict (e ∷ es) latest oldest =
      if ltb capacity (length (e ∷ es))
      then evict es latest e.seq
      else record { events = e ∷ es; latest = latest; oldest = oldest }

  -- The part of `publish` under the ring's lock.
  pub ring_publish : RingState T V → T → V → ℕ → RingState T V
  unfolding evict
  ring_publish ring topic payload now =
      let latest' = ring.latest + 1 in
      evict
        (ring.events ++ (record { seq = latest'; topic = topic; payload = payload; at = now } ∷ []))
        latest' ring.oldest

  pub batch : RingState T V → ℕ → Batch T V
  batch ring since = record {
    seq = ring.latest;
    events = keep (λ e. ltb since e.seq) ring.events;
    missed = ring.oldest - since;
  }

  -- The loop of `read_since`, over what it finds each time it wakes up; `none` while it waits.
  pub wait_since : ℕ → ℕ → List (Wake T V) → Option (Batch T V)
  unfolding batch
  wait_since since deadline [] = none
  wait_since since deadline (w ∷ ws) =
      if ltb since w.ring.latest
      then some (batch w.ring since)
      else if leb deadline w.now
      then some (record { seq = w.ring.latest; events = []; missed = 0 })
      else wait_since since deadline ws

  pub read_since : ℕ → ℕ → ℕ → List (Wake T V) → Option (Batch T V)
  unfolding wait_since
  read_since since timeout start wakes = wait_since since (start + min timeout max_wait) wakes

module _ {T V L : Type 0} where
  abbrev pub new : EventBus T V L
  new = record { ring = empty_ring; listeners = [] }

  unfoldable pub subscribe : EventBus T V L → L → EventBus T V L
  subscribe bus l = record bus { listeners = bus.listeners ++ (l ∷ []) }

  pub publish : EventBus T V L → T → V → ℕ → Published T V L
  unfolding ring_publish
  publish bus topic payload now = record {
    bus = record bus { ring = ring_publish bus.ring topic payload now };
    seq = (ring_publish bus.ring topic payload now).latest;
    calls = map (λ l. record { listener = l; topic = topic; payload = payload }) bus.listeners;
  }

  pub latest : EventBus T V L → ℕ
  latest bus = bus.ring.latest
