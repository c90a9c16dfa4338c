-- ===== src/Core/Events/Ring.antt =====
-- daemon/crates/core/src/events.rs: the numbering of the events that the ring holds.
use pyren.Base.{
  ℕ, suc, ◌+◌, ◌-◌, ◌≤◌, ◌≡◌, refl, max, min, Bool, Bool-cases, inl, inr, List, [], ◌∷◌, ◌++◌, ltb,
  length, length-append, keep, arith,
}
use pyren.Core.Events.{Event, RingState, empty_ring, evict, ring_publish, batch}

module _ {T V : Type 0} where
  -- The events are numbered in order from the number after `o`.
  abbrev pub Numbered : ℕ → List (Event T V) → Type 0
  Numbered o [] = Unit {0}
  Numbered o (e ∷ es) = (e.seq ≡ suc o) × Numbered (suc o) es

  pub record IsNumbered (r : RingState T V) : Type 0 where
    pub numbered : Numbered r.oldest r.events
    pub newest : r.oldest + length r.events ≡ r.latest
    pub bounded : length r.events ≤ 64

  Numbered-append :
      (o : ℕ) (es : List (Event T V)) (e : Event T V)
      → Numbered o es
      → e.seq ≡ suc (o + length es)
      → Numbered o (es ++ (e ∷ []))
  Numbered-append o [] e n h = (omega arith, tt)
  Numbered-append o (x ∷ xs) e n h = (n.0, Numbered-append (suc o) xs e n.1 (omega arith))

  evict-IsNumbered :
      (es : List (Event T V)) (latest o : ℕ)
      → Numbered o es
      → o + length es ≡ latest
      → IsNumbered (evict es latest o)
  unfolding evict
  evict-IsNumbered [] latest o n h = record { numbered = tt; newest = h; bounded = omega arith }
  evict-IsNumbered (e ∷ es) latest o n h = elim (Bool-cases (ltb 64 (length (e ∷ es)))) [
    | inl full ↦ rw (full, n.0) (evict-IsNumbered es latest (suc o) n.1 (omega arith))
    | inr fits ↦ rw fits (record { numbered = n; newest = h; bounded = ground arith })
  ]

  pub empty_ring-IsNumbered : IsNumbered empty_ring
  empty_ring-IsNumbered = record { numbered = tt; newest = refl; bounded = omega arith }

  -- A ring whose events carry the numbers from the one after the last dropped to the latest, at most
  -- 64 of them, is still such a ring after a publish.
  pub ring_publish-IsNumbered :
      (r : RingState T V) (topic : T) (payload : V) (now : ℕ)
      → IsNumbered r
      → IsNumbered (ring_publish r topic payload now)
  unfolding ring_publish
  ring_publish-IsNumbered r topic payload now n =
      evict-IsNumbered (r.events ++ (added ∷ [])) (r.latest + 1) r.oldest
        (Numbered-append r.oldest r.events added n.numbered (omega (arith, n.newest)))
        (omega (arith, n.newest, length-append r.events (added ∷ [])))
    where
      added : Event T V
      added = record { seq = r.latest + 1; topic = topic; payload = payload; at = now }

  evict-latest : (es : List (Event T V)) (l o : ℕ) → (evict es l o).latest ≡ l
  unfolding evict
  evict-latest [] l o = refl
  evict-latest (e ∷ es) l o = elim (Bool-cases (ltb 64 (length (e ∷ es)))) [
    | inl full ↦ rw full (evict-latest es l e.seq)
    | inr fits ↦ rw fits refl
  ]

  pub ring_publish-latest :
      (r : RingState T V) (topic : T) (payload : V) (now : ℕ)
      → (ring_publish r topic payload now).latest ≡ r.latest + 1
  unfolding ring_publish
  ring_publish-latest r topic payload now =
      evict-latest
        (r.events
          ++ (record { seq = r.latest + 1; topic = topic; payload = payload; at = now } ∷ []))
        (r.latest + 1) r.oldest

  abbrev newer : ℕ → Event T V → Bool
  newer since e = ltb since e.seq

  -- What a poll keeps of numbered events is numbered, from the number it gave.
  keep-Numbered :
      (o since m : ℕ) (es : List (Event T V))
      → Numbered o es
      → m ≡ max o since
      → Numbered m (keep (newer since) es)
  keep-Numbered o since m [] n h = tt
  keep-Numbered o since m (e ∷ es) n h = elim (Bool-cases (ltb since e.seq)) [
    | inl new ↦
        rw new
          (ground (arith, n.0), keep-Numbered (suc o) since (suc m) es n.1 (ground (arith, n.0)))
    | inr old ↦ rw old (keep-Numbered (suc o) since m es n.1 (ground (arith, n.0)))
  ]

  length-keep :
      (o since : ℕ) (es : List (Event T V))
      → Numbered o es
      → length (keep (newer since) es) ≡ min (length es) (o + length es - since)
  length-keep o since [] n = omega arith
  length-keep o since (e ∷ es) n = elim (Bool-cases (ltb since e.seq)) [
    | inl new ↦ ground (arith, n.0, length-keep (suc o) since es n.1)
    | inr old ↦ ground (arith, n.0, length-keep (suc o) since es n.1)
  ]

  -- In a ring whose events carry the numbers from the one after the last dropped to the latest, a
  -- poll from a number of the past answers, in order and without a gap, the events after it that
  -- are still held, and the number of those that are not: together, all that came after it.
  pub batch_accounts :
      (r : RingState T V) (since : ℕ)
      → IsNumbered r
      → since ≤ r.latest
      → (Numbered (max r.oldest since) (batch r since).events)
        × (since + (batch r since).missed + length (batch r since).events ≡ (batch r since).seq)
        × ((batch r since).seq ≡ r.latest)
  unfolding batch
  batch_accounts r since n h = (
    keep-Numbered r.oldest since (max r.oldest since) r.events n.numbered refl,
    omega (arith, length-keep r.oldest since r.events n.numbered, n.newest),
    refl,
  )
