-- ===== src/Core/Events/Tests.antt =====
-- The bus on a few events, as in the tests of daemon/crates/core/src/events.rs.
use pyren.Base.{ℕ, ◌≡◌, refl, List, [], ◌∷◌, length}
use pyren.Core.Events.{RingState, Wake, empty_ring, ring_publish, read_since}
use pyren.Core.Events.Ring.{IsNumbered, empty_ring-IsNumbered, ring_publish-IsNumbered}
use pyren.Core.Events.Polls.{Action, publishes, polls, Accounted, acts, start, client_accounts}

-- Topics and payloads are numbers.
abbrev one : RingState ℕ ℕ
one = ring_publish empty_ring 7 8 0

ring_publish-IsNumbered_example : IsNumbered (ring_publish (empty_ring {T = ℕ} {V = ℕ}) 7 8 0)
ring_publish-IsNumbered_example = ring_publish-IsNumbered empty_ring 7 8 0 empty_ring-IsNumbered

abbrev script : List (Action ℕ ℕ)
script = publishes 1 2 0 ∷ polls 1 ∷ publishes 3 4 2 ∷ publishes 5 6 3 ∷ polls 4 ∷ []

client_accounts_example : Accounted (acts start script)
client_accounts_example = client_accounts script

script_hears_all : length (acts start script).got ≡ 3
unfolding ring_publish read_since
script_hears_all = refl

abbrev late : Wake ℕ ℕ
late = record { now = 61; ring = empty_ring }
