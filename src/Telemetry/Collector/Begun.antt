-- ===== src/Telemetry/Collector/Begun.antt =====
-- The first half of a flush of _telemetry/collector.py, up to the request, and the close, where every
-- event that waits can be counted.
use python_server_sdk.Base.{
  ◌≡◌, refl, sym, subst, ap, ◌∙◌, ℕ, zero, suc, ◌+◌, ◌≤◌, Bool, true, false, Option, none, some,
  List, [], ◌∷◌, ◌++◌, all, drop, length, Exc, ok, Error, Option-cases, Bool-cases, inl, inr, ◌⊎◌,
  text_eq, pair_eq, if◌then◌else◌, arith,
}
use python_server_sdk.Evaluation.Types.{Context}
use python_server_sdk.Telemetry.Counting.{Keys, aggregate-reported}
use python_server_sdk.Telemetry.EventQueue
use python_server_sdk.Telemetry.ContextRegistry
use python_server_sdk.Telemetry.InvalidContexts
use python_server_sdk.Telemetry.Reporter.{EventReport, Posting, report_is_empty, response_to}
use python_server_sdk.Telemetry.Collector.{
  Collector, clear, report_of, emptied, begin_with, begin_flush, end_flush, close_with, close,
  is_some,
}
use python_server_sdk.Telemetry.Collector.Conservation.{
  weight, handed, pending, under_way, is_countable, compact_all-ok, empty-weight, is_fatal,
  end_flush-IsEnded,
}

module _ {E : Type 0} (p : E → Bool) where
  all-drop : (n : ℕ) (l : List E) → all p l ≡ true → all p (drop n l) ≡ true
  all-drop zero l h = h
  all-drop (suc n) [] h = refl
  all-drop (suc n) (x ∷ l) h = all-drop n l (ground (arith, h))

  all-snoc : (l : List E) (x : E) → all p l ≡ true → p x ≡ true → all p (l ++ x ∷ []) ≡ true
  all-snoc [] x h k = ground (arith, k)
  all-snoc (y ∷ l) x h k = ground (arith, h, all-snoc l x (ground (arith, h)) k)

  pub all-push :
      (now : ℕ) (x : E) (q : EventQueue.EventQueue E)
      → all p q.events ≡ true
      → p x ≡ true
      → all p (EventQueue.push now x q).events ≡ true
  unfolding EventQueue.push EventQueue.append
  all-push now x q h k =
      let l = all-snoc q.events x h k in ground (arith, l, all-drop 1 (q.events ++ x ∷ []) l)

module _ {E : Type 0} (keys : Keys E) (compact : E → Exc E) where
  -- The events that wait can be counted, and are not more than the limit.
  pub record IsReady (q : EventQueue.EventQueue E) : Type 0 where
    pub within : length q.events ≤ q.limit
    pub countable : all (is_countable keys compact) q.events ≡ true

  pub reset-IsReady : (q : EventQueue.EventQueue E) → IsReady (EventQueue.reset q)
  unfolding EventQueue.reset
  reset-IsReady q = record { within = omega arith; countable = refl }

reset-pending : {E : Type 0} (q : EventQueue.EventQueue E) → pending (EventQueue.reset q) ≡ 0
unfolding pending EventQueue.reset
reset-pending q = omega arith

module _ {E F : Type 0} (keys : Keys E) (compact : E → Exc E) where
  report_of-ok :
      (now : ℕ) (c : Collector E F)
      → IsReady keys compact c.events
      → (r : EventReport E (Context F)) × (report_of keys compact now c ≡ ok r)
        × (weight r ≡ pending c.events)
  unfolding report_of weight pending EventQueue.take_snapshot
  report_of-ok now c h =
      let (forms, found, n, hashed) = compact_all-ok keys compact c.events.events h.countable in
      let snapshot = (EventQueue.take_snapshot now c.events).0 in
      let (lines, counted, m) =
        aggregate-reported keys forms snapshot.start_time snapshot.end_time hashed in
      let (contexts, dropped) = (ContextRegistry.take_snapshot c.contexts).0 in
      (
        record {
          evaluations = lines;
          dropped_evaluations = c.events.dropped_count;
          contexts = contexts;
          dropped_contexts = dropped;
          invalid_contexts = (InvalidContexts.take_snapshot now c.invalid_contexts).0;
        },
        rw (found, counted) refl,
        omega (arith, n, m),
      )

  -- What the first half of a flush leaves: the evaluations that waited are under way.
  pub record IsBegun (c : Collector E F) (x : Collector E F × Option Error) : Type 0 where
    pub error : x.1 ≡ none
    pub total :
        under_way x.0.in_flight + pending x.0.events ≡ under_way c.in_flight + pending c.events
    pub reporter : x.0.reporter ≡ c.reporter
    pub closed : x.0.closed ≡ c.closed
    pub collecting : x.0.collecting ≡ c.collecting
    pub emptied : c.in_flight ≡ none → pending x.0.events ≡ 0
    pub ready : IsReady keys compact x.0.events

  begin_with-IsBegun :
      (now : ℕ) (r : EventReport E (Context F)) (c : Collector E F)
      → c.in_flight ≡ none
      → weight r ≡ pending c.events
      → IsReady keys compact c.events
      → IsBegun c (begin_with keys compact now (ok r) c)
  unfolding begin_with emptied EventQueue.take_snapshot
  begin_with-IsBegun now r c idle w h = elim (Bool-cases (report_is_empty r)) [
    | inl e ↦ rw e (record {
      error = refl;
      total = omega (arith, empty-weight r e, w, ap under_way idle, reset-pending c.events);
      reporter = refl;
      closed = refl;
      collecting = refl;
      emptied = λ e. reset-pending c.events;
      ready = reset-IsReady keys compact c.events;
    })
    | inr f ↦ rw f (record {
      error = refl;
      total = omega (arith, w, ap under_way idle, reset-pending c.events);
      reporter = refl;
      closed = refl;
      collecting = refl;
      emptied = λ e. reset-pending c.events;
      ready = reset-IsReady keys compact c.events;
    })
  ]

  pub begin_flush-IsBegun :
      (now : ℕ) (c : Collector E F)
      → IsReady keys compact c.events
      → IsBegun c (begin_flush keys compact now c)
  unfolding begin_flush
  begin_flush-IsBegun now c h = elim (Option-cases c.in_flight) [
    | inr (r, e) ↦ waiting (ap is_some e)
    | inl e ↦ begun e (report_of-ok now c h)
  ]
    where
      whole : Bool → Collector E F × Option Error
      whole b =
          if b then (c, none) else begin_with keys compact now (report_of keys compact now c) c

      waiting : is_some c.in_flight ≡ true → IsBegun c (whole (is_some c.in_flight))
      waiting e = rw e (record {
        error = refl;
        total = refl;
        reporter = refl;
        closed = refl;
        collecting = refl;
        emptied = λ i. absurd (ground (arith, e, ap is_some i));
        ready = h;
      })

      begun :
          c.in_flight ≡ none
          → (r : EventReport E (Context F)) × (report_of keys compact now c ≡ ok r)
            × (weight r ≡ pending c.events)
          → IsBegun c (whole (is_some c.in_flight))
      begun e (r, found, w) = rw (ap is_some e, found) (begin_with-IsBegun now r c e w h)

  close_with-handed :
      (posting : Posting) (c : Collector E F) (x : Collector E F × Option Error)
      → c.reporter.send_requests ≡ true
      → c.in_flight ≡ none
      → IsBegun c x
      → ((close_with keys compact posting x).1 ≡ none)
        × (handed (close_with keys compact posting x).0.reporter.tried
            ≡ handed c.reporter.tried + pending c.events)
  unfolding close_with clear
  close_with-handed posting c (d, some e) sends idle b = absurd (ground (arith, b.error))
  close_with-handed posting c (d, none) sends idle b =
      let k = end_flush-IsEnded posting d (ap (λ t. t.send_requests) b.reporter ∙ sends) in
      let nothing_waits : pending d.events ≡ 0 = b.emptied idle in
      (
        refl,
        omega (
          arith,
          k.handed_over,
          b.total,
          nothing_waits,
          ap (λ t. handed t.tried) b.reporter,
          ap under_way idle,
        ),
      )

  -- `close` hands over all that waits, and what is under way, unless the answer to that is fatal.
  pub close-handed :
      (now : ℕ) (beside posting : Posting) (c : Collector E F)
      → IsReady keys compact c.events
      → c.closed ≡ false
      → c.collecting ≡ true
      → c.reporter.send_requests ≡ true
      → (c.in_flight ≡ none) ⊎ (is_fatal (response_to beside) ≡ false)
      → let x = close keys compact now beside posting c in
        (x.1 ≡ none)
        × (handed x.0.reporter.tried
            ≡ handed c.reporter.tried + under_way c.in_flight + pending c.events)
  unfolding close close_with clear
  close-handed now beside posting c h unclosed going sends fine =
      let closing = record c { closed = true; collecting = false } in
      let settled = end_flush beside closing in
      let k = end_flush-IsEnded beside closing sends in
      let same : settled.events ≡ c.events = k.idle refl in
      let b = begin_flush-IsBegun now settled (subst (IsReady keys compact) (sym same) h) in
      let (none_raised, all) =
        close_with-handed posting settled (begin_flush keys compact now settled) (k.sends fine)
          k.ended b in
      rw (unclosed, going) (none_raised, omega (arith, all, k.handed_over, ap pending same))
