-- ===== src/Tests/Buses.antt =====
-- Runs of src/lbus.c.
use boggart.Base.{
  Says, ℕ, ◌==◌, ◌≡◌, ◌≢◌, ◌↔◌, refl, List, [], ◌∷◌, some, true, length, bytes_eq, if◌then◌else◌,
}
use boggart.Bus.Glob.{glob_match, globs}
use boggart.Bus.Glob.Spec.{Matches}
use boggart.Bus.Glob.Track.{Decides}
use boggart.Bus.Glob.Correct.{glob_match-Decides}
use boggart.Bus.State.{Bytes, Pending, Bus, init, subscribe, unsubscribe, has}
use boggart.Bus.Queues.{push, pull, first, rest}
use boggart.Bus.Dispatch.{unsubscribes, publishes, pushes, attaches, Script, publish, publish_cross}
use boggart.Bus.Valid.{IsValid, subscribe-Keeps, push-Keeps}
use boggart.Bus.Keep.{init-IsValid, Leaves, publish-Leaves, publish_cross-IsValid}
use boggart.Bus.Select.{Selected, deliver-Selected, Wanted, has-Says}
use boggart.Bus.Fifo.{contents, pull_lem}
use boggart.Bus.Subscribed.{Live, unsubscribe_lem}

-- `tool:*` and the topic `tool:x`
abbrev pattern_tool : Bytes
pattern_tool = b't' ∷ b'o' ∷ b'*' ∷ []

abbrev topic_tool : Bytes
topic_tool = b't' ∷ b'o' ∷ b':' ∷ b'x' ∷ []

abbrev one_sub : Bus
one_sub = (subscribe pattern_tool 5 init).0

abbrev two_subs : Bus
two_subs = (subscribe (b'*' ∷ []) 6 one_sub).0

one_sub-IsValid : IsValid one_sub
one_sub-IsValid = (subscribe-Keeps pattern_tool 5 init init-IsValid).valid

two_subs-IsValid : IsValid two_subs
two_subs-IsValid = (subscribe-Keeps (b'*' ∷ []) 6 one_sub one_sub-IsValid).valid

abbrev one_pending : Bus
one_pending = (publish_cross topic_tool [] two_subs).0

one_pending-IsValid : IsValid one_pending
one_pending-IsValid = publish_cross-IsValid topic_tool [] two_subs two_subs-IsValid

-- The first callback unsubscribes both entries, attaches the main loop, publishes again and pushes the
-- payload.
abbrev calls : Script
calls r topic payload b =
    if r == 5
    then unsubscribes 1
      ∷ unsubscribes 2
      ∷ attaches
      ∷ publishes topic payload
      ∷ pushes topic payload
      ∷ []
    else []

glob_match-Decides_example : Decides (Matches pattern_tool topic_tool) (some true)
unfolding glob_match
glob_match-Decides_example = glob_match-Decides pattern_tool topic_tool

publish-Leaves_example : Leaves one_pending (publish calls 3 topic_tool [] one_pending).0
publish-Leaves_example = publish-Leaves calls 3 topic_tool [] one_pending one_pending-IsValid

-- The callback's drain takes the pending entry out.
publish_drains : (publish calls 3 topic_tool [] one_pending).0.pending ≡ []
unfolding publish subscribe init globs push unsubscribe publish_cross
publish_drains = refl

-- Both entries are gone, and the callback's item is queued.
publish_empties : (publish calls 3 topic_tool [] two_subs).0.subs ≡ []
unfolding publish subscribe init globs push unsubscribe
publish_empties = refl

deliver-Selected_example : (rs : List ℕ) × Selected topic_tool two_subs.subs rs × (2 ≡ length rs)
unfolding publish subscribe init globs
deliver-Selected_example = deliver-Selected calls 3 topic_tool [] two_subs

has-Says_example : Says (Wanted topic_tool two_subs.subs) true
unfolding has subscribe init globs
has-Says_example = has-Says topic_tool two_subs.subs

unsubscribe_lem_example :
    ((true ≡ true) ↔ Live 1 two_subs.subs)
    × (¬ Live 1 (unsubscribe 1 two_subs).0.subs)
    × ((j : ℕ) → j ≢ 1 → Live j (unsubscribe 1 two_subs).0.subs ↔ Live j two_subs.subs)
unfolding subscribe unsubscribe init
unsubscribe_lem_example = unsubscribe_lem 1 two_subs two_subs-IsValid

abbrev waiting_one : Pending
waiting_one = record { topic = topic_tool; payload = b'p' ∷ [] }

abbrev two_items : Bus
two_items = push topic_tool (b'2' ∷ []) (push topic_tool (b'1' ∷ []) init)

two_items-IsValid : IsValid two_items
two_items-IsValid =
    (push-Keeps topic_tool (b'2' ∷ []) _
      (push-Keeps topic_tool (b'1' ∷ []) init init-IsValid).valid).valid

pull_lem_example :
    ((pull topic_tool two_items).1 ≡ first (contents topic_tool two_items))
    × (contents topic_tool (pull topic_tool two_items).0 ≡ rest (contents topic_tool two_items))
unfolding bytes_eq
pull_lem_example = pull_lem topic_tool topic_tool two_items
