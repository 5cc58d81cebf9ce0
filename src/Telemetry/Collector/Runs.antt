-- ===== src/Telemetry/Collector/Runs.antt =====
-- Any sequence of calls of a TelemetryCollector, _telemetry/collector.py, where every event that is
-- recorded can be counted.
use python_server_sdk.Base.{
  ◌≡◌, refl, sym, subst, ap, ◌∙◌, ℕ, ◌+◌, Bool, true, false, Option, none, List, [], ◌∷◌, Text,
  text_eq, pair_eq, inl, inr, ◌⊎◌, Exc, arith,
}
use python_server_sdk.Evaluation.Types.{Context}
use python_server_sdk.Telemetry.Counting.{Keys}
use python_server_sdk.Telemetry.EventQueue
use python_server_sdk.Telemetry.Reporter
use python_server_sdk.Telemetry.Reporter.{Posting, Reporter, response_to}
use python_server_sdk.Telemetry.Collector.{
  Collector, new, record_evaluation, record_invalid_context, begin_flush, end_flush, close,
}
use python_server_sdk.Telemetry.Collector.Conservation.{
  handed, pending, push-pending, under_way, is_countable, is_fatal, end_flush-IsKept, IsEnded,
  end_flush-IsEnded,
}
use python_server_sdk.Telemetry.Collector.Begun.{
  IsReady, reset-IsReady, all-push, begin_flush-IsBegun, close-handed,
}

-- A call of the application or of the thread that flushes, with the time at which it is made; a
-- flush is two calls, between which others are made.
pub data Call (E F : Type 0) : Type 0 where
  evaluation : ℕ → E → Option (Context F) → Call E F
  invalid_context : ℕ → Text → Call E F
  flush_begins : ℕ → Call E F
  flush_ends : Posting → Call E F

-- The evaluations that are recorded.
pub evaluations : {E F : Type 0} → List (Call E F) → ℕ
evaluations [] = 0
evaluations (evaluation now event context ∷ calls) = 1 + evaluations calls
evaluations (invalid_context now sample ∷ calls) = evaluations calls
evaluations (flush_begins now ∷ calls) = evaluations calls
evaluations (flush_ends posting ∷ calls) = evaluations calls

module _ {E F : Type 0} (keys : Keys E) (compact : E → Exc E) where
  unfoldable pub make : Call E F → Collector E F → Collector E F
  make (evaluation now event context) c = record_evaluation now event context c
  make (invalid_context now sample) c = (record_invalid_context now sample c).1
  make (flush_begins now) c = (begin_flush keys compact now c).0
  make (flush_ends posting) c = end_flush posting c

  unfoldable pub make_all : List (Call E F) → Collector E F → Collector E F
  unfolding make
  make_all [] c = c
  make_all (call ∷ calls) c = make_all calls (make call c)

  unfoldable pub from_start : ℕ → List (Call E F) → Collector E F
  from_start limit calls = make_all calls (new limit Reporter.new)

  -- Every event that is recorded can be compacted, and then hashed.
  abbrev pub AllCountable : List (Call E F) → Type 0
  AllCountable [] = Unit
  AllCountable (evaluation now event context ∷ calls) =
      (is_countable keys compact event ≡ true) × AllCountable calls
  AllCountable (call ∷ calls) = AllCountable calls

  -- After `accepted` evaluations were recorded: as long as the collector collects, the reporter sends,
  -- and the reports that were tried stand, with the one under way and the evaluations that wait, for
  -- all that were accepted.
  record Conserves (accepted : ℕ) (c : Collector E F) : Type 0 where
    unclosed : c.closed ≡ false
    ready : IsReady keys compact c.events
    sending : c.collecting ≡ true → c.reporter.send_requests ≡ true
    total :
        c.collecting ≡ true
        → accepted ≡ handed c.reporter.tried + under_way c.in_flight + pending c.events

  new-Conserves : (limit : ℕ) → Conserves 0 (new limit Reporter.new)
  unfolding new EventQueue.new Reporter.new handed pending
  new-Conserves limit = record {
    unclosed = refl;
    ready = record { within = omega arith; countable = refl };
    sending = λ g. refl;
    total = λ g. refl;
  }

  evaluation-Conserves :
      (n now : ℕ) (event : E) (context : Option (Context F)) (c : Collector E F)
      → is_countable keys compact event ≡ true
      → Conserves n c
      → Conserves (1 + n) (record_evaluation now event context c)
  unfolding record_evaluation
  evaluation-Conserves n now event context c good h = recorded_if c.collecting refl
    where
      recorded_if :
          (b : Bool) → c.collecting ≡ b → Conserves (1 + n) (record_evaluation now event context c)
      recorded_if true k =
          let (p, w) = push-pending now event c.events h.ready.within in
          let l = all-push (is_countable keys compact) now event c.events h.ready.countable good in
          record {
            unclosed = ground (arith, k, h.unclosed);
            ready = record { within = ground (arith, k, w); countable = ground (arith, k, l) };
            sending = λ g. ground (arith, k, h.sending k);
            total = λ g. ground (arith, k, p, h.total k);
          }
      recorded_if false k = record {
        unclosed = ground (arith, k, h.unclosed);
        ready = record {
          within = ground (arith, k, h.ready.within);
          countable = ground (arith, k, h.ready.countable);
        };
        sending = λ g. absurd (ground (arith, k, g));
        total = λ g. absurd (ground (arith, k, g));
      }

  invalid_context-Conserves :
      (n now : ℕ) (sample : Text) (c : Collector E F)
      → Conserves n c
      → Conserves n (record_invalid_context now sample c).1
  unfolding record_invalid_context
  invalid_context-Conserves n now sample c h = recorded_if c.collecting refl
    where
      recorded_if :
          (b : Bool) → c.collecting ≡ b → Conserves n (record_invalid_context now sample c).1
      recorded_if true k = record {
        unclosed = ground (arith, k, h.unclosed);
        ready = record {
          within = ground (arith, k, h.ready.within);
          countable = ground (arith, k, h.ready.countable);
        };
        sending = λ g. ground (arith, k, h.sending k);
        total = λ g. ground (arith, k, h.total k);
      }
      recorded_if false k = record {
        unclosed = ground (arith, k, h.unclosed);
        ready = record {
          within = ground (arith, k, h.ready.within);
          countable = ground (arith, k, h.ready.countable);
        };
        sending = λ g. absurd (ground (arith, k, g));
        total = λ g. absurd (ground (arith, k, g));
      }

  begin_flush-Conserves :
      (n now : ℕ) (c : Collector E F)
      → Conserves n c
      → Conserves n (begin_flush keys compact now c).0
  begin_flush-Conserves n now c h =
      let b = begin_flush-IsBegun keys compact now c h.ready in
      record {
        unclosed = b.closed ∙ h.unclosed;
        ready = b.ready;
        sending = λ g. ap (λ t. t.send_requests) b.reporter ∙ h.sending (sym b.collecting ∙ g);
        total = λ g.
            omega
              (arith, h.total (sym b.collecting ∙ g), b.total, ap (λ t. handed t.tried) b.reporter);
      }

  end_flush-Conserves :
      (n : ℕ) (posting : Posting) (c : Collector E F)
      → Conserves n c
      → Conserves n (end_flush posting c)
  end_flush-Conserves n posting c h =
      let k = end_flush-IsKept posting c in
      let after : (end_flush posting c).collecting ≡ true
          → IsEnded posting c (end_flush posting c) =
        λ g. end_flush-IsEnded posting c (h.sending (k.going g)) in
      record {
        unclosed = k.closed ∙ h.unclosed;
        ready = elim k.events [
          | inl same ↦ subst (IsReady keys compact) (sym same) h.ready
          | inr same ↦ subst (IsReady keys compact) (sym same) (reset-IsReady keys compact c.events)
        ];
        sending = λ g. ((after g).going g).0;
        total = λ g. omega (
          arith,
          h.total (k.going g),
          (after g).handed_over,
          ap under_way (after g).ended,
          ap pending ((after g).going g).1,
        );
      }

  make-Conserves :
      (n m : ℕ) (calls : List (Call E F)) (c : Collector E F)
      → m ≡ n + evaluations calls
      → AllCountable calls
      → Conserves n c
      → Conserves m (make_all calls c)
  unfolding make_all make evaluations
  make-Conserves n m [] c k good h =
      let same : n ≡ m = omega (arith, k) in subst (λ i. Conserves i c) same h
  make-Conserves n m (evaluation now event context ∷ calls) c k good h =
      make-Conserves (1 + n) m calls _ (omega (arith, k)) good.1
        (evaluation-Conserves n now event context c good.0 h)
  make-Conserves n m (invalid_context now sample ∷ calls) c k good h =
      make-Conserves n m calls _ (omega (arith, k)) good
        (invalid_context-Conserves n now sample c h)
  make-Conserves n m (flush_begins now ∷ calls) c k good h =
      make-Conserves n m calls _ (omega (arith, k)) good (begin_flush-Conserves n now c h)
  make-Conserves n m (flush_ends posting ∷ calls) c k good h =
      make-Conserves n m calls _ (omega (arith, k)) good (end_flush-Conserves n posting c h)

  start-Conserves :
      (limit : ℕ) (calls : List (Call E F))
      → AllCountable calls
      → Conserves (evaluations calls) (from_start limit calls)
  unfolding from_start
  start-Conserves limit calls good =
      make-Conserves 0 (evaluations calls) calls (new limit Reporter.new) (omega arith) good
        (new-Conserves limit)

  -- Whatever the calls of a new collector are, flushes that run beside others among them, if every
  -- event that is recorded can be compacted and hashed: as long as the collector collects, the reports
  -- that its reporter tried to send stand, with the one under way and the evaluations that wait or
  -- were dropped since, for exactly the evaluations that were recorded. A report stands for the
  -- counts of its evaluations and those that were dropped before it.
  pub make_all-counts :
      (limit : ℕ) (calls : List (Call E F))
      → AllCountable calls
      → (from_start limit calls).collecting ≡ true
      → let c = from_start limit calls in
        evaluations calls ≡ handed c.reporter.tried + under_way c.in_flight + pending c.events
  make_all-counts limit calls good going = (start-Conserves limit calls good).total going

  -- If every event that is recorded can be compacted and hashed, and the collector still collects
  -- when it is closed, with no flush under way or one whose answer `beside` is not fatal, then every
  -- evaluation that was recorded is counted in a report that its reporter tried to send, whatever
  -- becomes of the request of the last one, and the close raises nothing.
  pub close-counts :
      (limit : ℕ) (calls : List (Call E F)) (now : ℕ) (beside posting : Posting)
      → AllCountable calls
      → (from_start limit calls).collecting ≡ true
      → ((from_start limit calls).in_flight ≡ none) ⊎ (is_fatal (response_to beside) ≡ false)
      → let x = close keys compact now beside posting (from_start limit calls) in
        (x.1 ≡ none) × (handed x.0.reporter.tried ≡ evaluations calls)
  close-counts limit calls now beside posting good going fine =
      let c = from_start limit calls in
      let h = start-Conserves limit calls good in
      let (quiet, all) =
        close-handed keys compact now beside posting c h.ready h.unclosed going (h.sending going)
          fine in
      (quiet, all ∙ sym (h.total going))
