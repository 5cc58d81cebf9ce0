-- ===== src/Telemetry/EventQueue.antt =====
-- `EventQueue` of configdirector-server-sdk/src/configdirector/_telemetry/queue.py, over any events.
-- An instant is a number, the `now` of an operation; the lock makes each method one step.
use python_server_sdk.Base.{
  ℕ, zero, suc, ◌+◌, ◌-◌, ◌≡◌, refl, sym, ap, ◌∙◌, Bool, ◌&&◌, Option, none, some, List, [], ◌∷◌,
  ◌++◌, length, drop, is_empty, ltb, eqb, length-append, length-drop, drop-append, drop-drop_one,
  arith, if◌then◌else◌,
}
use mathlib.Core.Option

pub record EventQueue (E : Type 0) : Type 0 where
  pub limit : ℕ
  pub events : List E
  pub start_time : Option ℕ
  pub dropped_count : ℕ

pub record EventQueueSnapshot (E : Type 0) : Type 0 where
  pub start_time : ℕ
  pub end_time : ℕ
  pub events : List E
  pub dropped_count : ℕ

module _ {E : Type 0} where
  -- `append` of a deque with `maxlen`: it discards from the left once it is full.
  unfoldable pub append : ℕ → List E → E → List E
  append maxlen events event =
      let all = events ++ event ∷ [] in if ltb maxlen (length all) then drop 1 all else all

  unfoldable pub new : ℕ → EventQueue E
  new limit = record { limit = limit; events = []; start_time = none; dropped_count = 0 }

  unfoldable pub push : ℕ → E → EventQueue E → EventQueue E
  unfolding append
  push now event q = record q {
    start_time = some (Option.get_or q.start_time now);
    dropped_count = if eqb (length q.events) q.limit then q.dropped_count + 1 else q.dropped_count;
    events = append q.limit q.events event;
  }

  -- `_reset`, which is also all that `clear` does
  unfoldable pub reset : EventQueue E → EventQueue E
  reset q = record q { events = []; start_time = none; dropped_count = 0 }

  unfoldable pub take_snapshot : ℕ → EventQueue E → EventQueueSnapshot E × EventQueue E
  unfolding reset
  take_snapshot now q = (
    record {
      start_time = Option.get_or q.start_time now;
      end_time = now;
      events = q.events;
      dropped_count = q.dropped_count;
    },
    reset q,
  )

  -- `is_empty` of a snapshot
  unfoldable pub snapshot_is_empty : EventQueueSnapshot E → Bool
  snapshot_is_empty s = is_empty s.events && eqb s.dropped_count 0

module _ {E : Type 0} where
  -- The queue after the events `history` were pushed: the last `limit` of them, and the number of
  -- those before.
  pub record Tracks (q : EventQueue E) (history : List E) : Type 0 where
    pub kept : q.events ≡ drop (length history - q.limit) history
    pub dropped : q.dropped_count ≡ length history - q.limit

  drop-at : (m n : ℕ) (xs : List E) → m ≡ n → drop m xs ≡ drop n xs
  drop-at m n xs h = ap (λ i. drop i xs) h

  drop-nil : (m : ℕ) → drop {A = E} m [] ≡ []
  drop-nil zero = refl
  drop-nil (suc m) = refl

  kept-length :
      (q : EventQueue E) (history : List E)
      → Tracks q history
      → length q.events ≡ length history - (length history - q.limit)
  kept-length q history t = ap length t.kept ∙ length-drop (length history - q.limit) history

  -- A full window moves on by one.
  append-window :
      (limit : ℕ) (history : List E) (event : E)
      → append limit (drop (length history - limit) history) event
        ≡ drop (length (history ++ event ∷ []) - limit) (history ++ event ∷ [])
  unfolding append
  append-window limit history event =
      let k = length history - limit in
      let all = history ++ event ∷ [] in
      let moved : drop k history ++ event ∷ [] ≡ drop k all =
        sym (drop-append k history (event ∷ []) (omega arith)) in
      rw moved (
        ground (
          arith,
          length-drop k all,
          length-append history (event ∷ []),
          drop-drop_one k all,
          drop-at k (length all - limit) all,
          drop-at (suc k) (length all - limit) all,
        ))

  -- Every push keeps the queue at the newest events: the last `limit` of all that were pushed,
  -- in order, with the number of the older ones as the dropped count.
  pub push-Tracks :
      (now : ℕ) (event : E) (q : EventQueue E) (history : List E)
      → Tracks q history
      → Tracks (push now event q) (history ++ event ∷ [])
  unfolding push
  push-Tracks now event q history t = record {
    kept = rw t.kept (append-window q.limit history event);
    dropped = ground (arith, kept-length q history t, length-append history (event ∷ []));
  }

  new-Tracks : (limit : ℕ) → Tracks (new limit) []
  unfolding new
  new-Tracks limit = record {
    kept = sym (drop-nil (length {A = E} [] - limit));
    dropped = omega arith;
  }

  -- A snapshot holds the newest events that were pushed since the last one and counts the others,
  -- and the queue starts over.
  pub take_snapshot-Tracks :
      (now : ℕ) (q : EventQueue E) (history : List E)
      → Tracks q history
      → ((take_snapshot now q).0.events ≡ drop (length history - q.limit) history)
        × (length (take_snapshot now q).0.events + (take_snapshot now q).0.dropped_count
            ≡ length history)
        × Tracks (take_snapshot now q).1 []
  unfolding take_snapshot
  take_snapshot-Tracks now q history t = (
    t.kept,
    omega (arith, kept-length q history t, t.dropped),
    record { kept = sym (drop-nil (length {A = E} [] - q.limit)); dropped = omega arith },
  )
