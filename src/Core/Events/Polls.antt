-- ===== src/Core/Events/Polls.antt =====
-- daemon/crates/core/src/events.rs: a client that polls, each time from where the last answer ended.
use pyren.Base.{
  ℕ, suc, ◌+◌, ◌≤◌, ◌<◌, ◌≡◌, refl, max, min, true, Bool-cases, inl, inr, Option, none, some, List,
  [], ◌∷◌, ◌++◌, ltb, leb, length, length-append, any, is_some, arith,
}
use pyren.Core.Events.{
  Event, RingState, Batch, Wake, empty_ring, ring_publish, batch, wait_since, read_since,
}
use pyren.Core.Events.Ring.{
  Numbered, IsNumbered, empty_ring-IsNumbered, ring_publish-IsNumbered, ring_publish-latest,
  batch_accounts,
}

pub data Action (T V : Type 0) : Type 0 where
  publishes : T → V → ℕ → Action T V
  polls : ℕ → Action T V

-- The ring, and what one client has been told.
pub record Session (T V : Type 0) : Type 0 where
  pub ring : RingState T V
  pub since : ℕ
  pub got : List (Event T V)
  pub missed : ℕ

module _ {T V : Type 0} where
  abbrev pub start : Session T V
  start = record { ring = empty_ring; since = 0; got = []; missed = 0 }

  abbrev received : Session T V → Option (Batch T V) → Session T V
  received s none = s
  received s (some b) = record s {
    since = b.seq;
    got = s.got ++ b.events;
    missed = s.missed + b.missed;
  }

  -- A poll that does not wait.
  abbrev pub act : Session T V → Action T V → Session T V
  act s (publishes topic payload now) = record s { ring = ring_publish s.ring topic payload now }
  act s (polls now) =
      received s (read_since s.since 0 now (record { now = now; ring = s.ring } ∷ []))

  abbrev pub acts : Session T V → List (Action T V) → Session T V
  acts s [] = s
  acts s (a ∷ xs) = acts (act s a) xs

  -- Numbers that rise strictly from above `lo` to at most `hi`.
  abbrev pub Climbs : ℕ → List (Event T V) → ℕ → Type 0
  Climbs lo [] hi = lo ≤ hi
  Climbs lo (e ∷ es) hi = (lo < e.seq) × Climbs e.seq es hi

  Climbs-append :
      (lo : ℕ) (xs ys : List (Event T V)) (mid hi : ℕ)
      → Climbs lo xs mid
      → Climbs mid ys hi
      → Climbs lo (xs ++ ys) hi
  Climbs-append lo [] ys mid hi a b = lower lo mid ys hi a b
    where
      lower :
          (lo mid : ℕ) (ys : List (Event T V)) (hi : ℕ)
          → lo ≤ mid
          → Climbs mid ys hi
          → Climbs lo ys hi
      lower lo mid [] hi a b = omega arith
      lower lo mid (y ∷ ys) hi a b = (omega (arith, b.0), b.1)
  Climbs-append lo (x ∷ xs) ys mid hi a b = (a.0, Climbs-append x.seq xs ys mid hi a.1 b)

  Numbered-Climbs :
      (lo o hi : ℕ) (es : List (Event T V))
      → Numbered o es
      → lo ≤ o
      → o + length es ≤ hi
      → Climbs lo es hi
  Numbered-Climbs lo o hi [] n h k = omega arith
  Numbered-Climbs lo o hi (e ∷ es) n h k = (
    omega (arith, n.0),
    Numbered-Climbs e.seq (suc o) hi es n.1 (omega (arith, n.0)) (omega arith),
  )

  -- The counts and the numbers of a session.
  pub record Accounted (s : Session T V) : Type 0 where
    pub numbered : IsNumbered s.ring
    pub known : s.since ≤ s.ring.latest
    pub counted : s.missed + length s.got ≡ s.since
    pub ordered : Climbs 0 s.got s.since

  start-Accounted : Accounted start
  start-Accounted = record {
    numbered = empty_ring-IsNumbered;
    known = omega arith;
    counted = refl;
    ordered = omega arith;
  }

  publishes-Accounted :
      (s : Session T V) (topic : T) (payload : V) (now : ℕ)
      → Accounted s
      → Accounted (act s (publishes topic payload now))
  publishes-Accounted s topic payload now a = record {
    numbered = ring_publish-IsNumbered s.ring topic payload now a.numbered;
    known = omega (arith, a.known, ring_publish-latest s.ring topic payload now);
    counted = a.counted;
    ordered = a.ordered;
  }

  read_now :
      (ring : RingState T V) (since now : ℕ)
      → since < ring.latest
      → read_since since 0 now (record { now = now; ring = ring } ∷ []) ≡ some (batch ring since)
  unfolding read_since
  read_now ring since now h = ground arith

  read_idle :
      (ring : RingState T V) (since now : ℕ)
      → ring.latest ≤ since
      → read_since since 0 now (record { now = now; ring = ring } ∷ [])
        ≡ some (record { seq = ring.latest; events = []; missed = 0 })
  unfolding read_since
  read_idle ring since now h = ground arith

  missing_or_held :
      (r : RingState T V) (since : ℕ)
      → IsNumbered r
      → since + (batch r since).missed + length (batch r since).events ≡ (batch r since).seq
      → max r.oldest since + length (batch r since).events ≤ (batch r since).seq
  unfolding batch
  missing_or_held r since n h = omega arith

  batch-Accounted :
      (s : Session T V)
      → Accounted s
      → s.since < s.ring.latest
      → Accounted (received s (some (batch s.ring s.since)))
  batch-Accounted s a h =
      let b = batch_accounts s.ring s.since a.numbered a.known in
      record {
        numbered = a.numbered;
        known = omega (arith, b.2);
        counted = omega (arith, b.1, a.counted, length-append s.got (batch s.ring s.since).events);
        ordered =
            Climbs-append 0 s.got (batch s.ring s.since).events s.since (batch s.ring s.since).seq
              a.ordered
              (Numbered-Climbs s.since (max s.ring.oldest s.since) (batch s.ring s.since).seq
                (batch s.ring s.since).events b.0 (omega arith)
                (missing_or_held s.ring s.since a.numbered b.1));
      }

  idle-Accounted :
      (s : Session T V)
      → Accounted s
      → s.ring.latest ≤ s.since
      → Accounted (received s (some (record { seq = s.ring.latest; events = []; missed = 0 })))
  idle-Accounted s a h = record {
    numbered = a.numbered;
    known = omega arith;
    counted = omega (arith, a.counted, a.known, length-append s.got []);
    ordered = Climbs-append 0 s.got [] s.since s.ring.latest a.ordered a.known;
  }

  polls-Accounted : (s : Session T V) (now : ℕ) → Accounted s → Accounted (act s (polls now))
  polls-Accounted s now a = elim (Bool-cases (ltb s.since s.ring.latest)) [
    | inl new ↦ rw (read_now s.ring s.since now (ground arith)) (batch-Accounted s a (ground arith))
    | inr old ↦ rw (read_idle s.ring s.since now (ground arith)) (idle-Accounted s a (ground arith))
  ]

  act-Accounted : (s : Session T V) (x : Action T V) → Accounted s → Accounted (act s x)
  act-Accounted s (publishes topic payload now) a = publishes-Accounted s topic payload now a
  act-Accounted s (polls now) a = polls-Accounted s now a

  acts-Accounted : (s : Session T V) (xs : List (Action T V)) → Accounted s → Accounted (acts s xs)
  acts-Accounted s [] a = a
  acts-Accounted s (x ∷ xs) a = acts-Accounted (act s x) xs (act-Accounted s x a)

  -- However publishes and the polls of a client that passes each answer's number on follow one
  -- another, the client is told of each event at most once and in order, and the events it was told
  -- of and those it was told it missed make up all the events up to its number.
  pub client_accounts : (xs : List (Action T V)) → Accounted (acts start xs)
  client_accounts xs = acts-Accounted start xs start-Accounted

  wait-answers :
      (since deadline : ℕ) (ws : List (Wake T V))
      → any (λ w. leb deadline w.now) ws ≡ true
      → is_some (wait_since since deadline ws) ≡ true
  unfolding wait_since
  wait-answers since deadline [] h = h
  wait-answers since deadline (w ∷ ws) h = elim (Bool-cases (leb deadline w.now)) [
    | inl due ↦ ground arith
    | inr early ↦ ground (arith, wait-answers since deadline ws)
  ]

  -- A poll is answered by the time a wake-up comes 60 s after it began, whatever wait it asked for.
  pub read_since-answers :
      (since timeout began : ℕ) (ws : List (Wake T V))
      → any (λ w. leb (began + 60) w.now) ws ≡ true
      → is_some (read_since since timeout began ws) ≡ true
  unfolding read_since
  read_since-answers since timeout began ws h =
      wait-answers since (began + min timeout 60) ws (earlier ws h)
    where
      earlier :
          (ws : List (Wake T V))
          → any (λ w. leb (began + 60) w.now) ws ≡ true
          → any (λ w. leb (began + min timeout 60) w.now) ws ≡ true
      earlier [] h = h
      earlier (w ∷ ws) h = ground (arith, earlier ws)
