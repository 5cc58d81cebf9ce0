-- ===== src/Tests/Telemetry.antt =====
-- The buffers of configdirector/_telemetry/queue.py on concrete events.
use python_server_sdk.Base.{
  ◌≡◌, refl, some, [], ◌∷◌, ◌++◌, ℕ, ◌+◌, Text, codes, text_eq, nat_eq, length, arith,
  if◌then◌else◌,
}
use python_server_sdk.Base.Dict
use python_server_sdk.Telemetry.EventQueue
use python_server_sdk.Telemetry.ContextRegistry
use python_server_sdk.Telemetry.ContextRegistry.{ContextRegistry}
use python_server_sdk.Telemetry.InvalidContexts

-- A queue of two after three pushes.
abbrev full_queue : EventQueue.EventQueue ℕ
full_queue = record { limit = 2; events = 7 ∷ 8 ∷ []; start_time = some 1; dropped_count = 1 }

full_queue-Tracks : EventQueue.Tracks full_queue (6 ∷ 7 ∷ 8 ∷ [])
full_queue-Tracks = record { kept = refl; dropped = refl }

push-Tracks_example :
    EventQueue.Tracks (EventQueue.push 5 9 full_queue) ((6 ∷ 7 ∷ 8 ∷ []) ++ 9 ∷ [])
push-Tracks_example = EventQueue.push-Tracks 5 9 full_queue (6 ∷ 7 ∷ 8 ∷ []) full_queue-Tracks

take_snapshot-Tracks_example :
    ((EventQueue.take_snapshot 5 full_queue).0.events ≡ 7 ∷ 8 ∷ [])
    × (length (EventQueue.take_snapshot 5 full_queue).0.events
          + (EventQueue.take_snapshot 5 full_queue).0.dropped_count
        ≡ 3)
    × EventQueue.Tracks (EventQueue.take_snapshot 5 full_queue).1 []
take_snapshot-Tracks_example =
    EventQueue.take_snapshot-Tracks 5 full_queue (6 ∷ 7 ∷ 8 ∷ []) full_queue-Tracks

abbrev registry : ContextRegistry Text ℕ
registry = record { limit = 1; contexts = (codes "a", 1) ∷ []; dropped_count = 0 }

registry-IsValid : ContextRegistry.IsValid registry
unfolding Dict.has
registry-IsValid = record { bounded = omega arith; distinct = (refl, tt) }

add-IsValid_example : ContextRegistry.IsValid (ContextRegistry.add (codes "b") 2 registry)
add-IsValid_example = ContextRegistry.add-IsValid (codes "b") 2 registry registry-IsValid

add_keeps_example :
    (Dict.get (codes "b") (ContextRegistry.add (codes "b") 2 registry).contexts ≡ some 2)
    × (length (ContextRegistry.add (codes "b") 2 registry).contexts
          + (ContextRegistry.add (codes "b") 2 registry).dropped_count
        ≡ 1 + 0 + (if Dict.has (codes "b") registry.contexts then 0 else 1))
add_keeps_example = ContextRegistry.add_keeps (codes "b") 2 registry registry-IsValid (omega arith)

record_kind-Tracks_example :
    InvalidContexts.Tracks
      (InvalidContexts.record_kind 3 (codes "A B") InvalidContexts.new).1
      ([] ++ codes "A B" ∷ [])
record_kind-Tracks_example =
    InvalidContexts.record_kind-Tracks 3 (codes "A B") InvalidContexts.new []
      InvalidContexts.new-Tracks
