-- ===== src/Telemetry/Collector/Conservation.antt =====
-- No evaluation is lost between its recording and the report that counts it.
use python_server_sdk.Base.{
  all, Exc, ok, raised, Bool-cases, inl, inr, ◌⊎◌, ◌≡◌, refl, ap, ◌∙◌, ℕ, suc, ◌+◌, ◌≤◌, Bool, true,
  false, not, Option, none, some, List, [], ◌∷◌, ◌++◌, is_empty, length, text_eq, pair_eq,
  length-append, length-drop, if◌then◌else◌, arith,
}
use python_server_sdk.Evaluation.Types.{Context}
use python_server_sdk.Telemetry.Counting.{Keys, AggregatedEvent, reported}
use python_server_sdk.Telemetry.EventQueue
use python_server_sdk.Telemetry.Reporter.{
  EventReport, ReporterResponse, Posting, Reporter, report_is_empty, report, latched, response_to,
}
use python_server_sdk.Telemetry.Collector.{
  Collector, clear, stop_collecting, on_response, compact_all, end_with, end_flush,
}

module _ {E C : Type 0} where
  -- The evaluations that a report stands for.
  unfoldable pub weight : EventReport E C → ℕ
  weight r = reported r.evaluations + r.dropped_evaluations

  -- Those of all the reports that were tried.
  unfoldable pub handed : List (EventReport E C) → ℕ
  unfolding weight
  handed [] = 0
  handed (r ∷ reports) = weight r + handed reports

  handed-snoc :
      (reports : List (EventReport E C)) (r : EventReport E C)
      → handed (reports ++ r ∷ []) ≡ handed reports + weight r
  unfolding handed
  handed-snoc [] r = omega arith
  handed-snoc (s ∷ reports) r = omega (arith, handed-snoc reports r)

module _ {E C : Type 0} where
  pub empty-weight : (r : EventReport E C) → report_is_empty r ≡ true → weight r ≡ 0
  unfolding weight report_is_empty
  empty-weight r h =
      no_evaluations r.evaluations r.dropped_evaluations (ground (arith, h)) (ground (arith, h))
    where
      no_evaluations :
          (l : List (AggregatedEvent E)) (n : ℕ) → is_empty l ≡ true → n ≡ 0 → reported l + n ≡ 0
      no_evaluations [] n h k = omega arith
      no_evaluations (a ∷ l) n h k = absurd (ground (arith, h))

-- The evaluations that a queue holds or has dropped since the last snapshot.
unfoldable pub pending : {E : Type 0} → EventQueue.EventQueue E → ℕ
pending q = length q.events + q.dropped_count

pub push-pending :
    {E : Type 0} (now : ℕ) (event : E) (q : EventQueue.EventQueue E)
    → length q.events ≤ q.limit
    → (pending (EventQueue.push now event q) ≡ pending q + 1)
      × (length (EventQueue.push now event q).events ≤ (EventQueue.push now event q).limit)
unfolding pending EventQueue.push EventQueue.append
push-pending now event q h =
    let all = q.events ++ event ∷ [] in
    let n = length-append q.events (event ∷ []) in
    (ground (arith, n, length-drop 1 all), ground (arith, n, length-drop 1 all))

-- The evaluations of the report that is under way.
abbrev pub under_way : {E C : Type 0} → Option (EventReport E C) → ℕ
under_way none = 0
under_way (some r) = weight r

module _ {E : Type 0} (keys : Keys E) (compact : E → Exc E) where
  -- What an event is compacted to can be hashed.
  is_hashed : Exc E → Bool
  is_hashed (ok event) = keys.hashable event
  is_hashed (raised x) = false

  -- An event that a report can count.
  unfoldable pub is_countable : E → Bool
  unfolding is_hashed
  is_countable event = is_hashed (compact event)

  pub compact_all-ok :
      (events : List E)
      → all is_countable events ≡ true
      → (forms : List E) × (compact_all compact events ≡ ok forms)
        × (length forms ≡ length events)
        × (all keys.hashable forms ≡ true)
  unfolding compact_all is_countable
  compact_all-ok [] h = ([], refl, refl, refl)
  compact_all-ok (event ∷ events) h =
      let (forms, found, n, hashed) = compact_all-ok events (ground (arith, h)) in
      joined (compact event) refl (ground (arith, h)) forms found n hashed
    where
      joined :
          (x : Exc E)
          → compact event ≡ x
          → is_hashed x ≡ true
          → (forms : List E) → compact_all compact events ≡ ok forms
          → length forms ≡ length events
          → all keys.hashable forms ≡ true
          → (forms : List E) × (compact_all compact (event ∷ events) ≡ ok forms)
            × (length forms ≡ length (event ∷ events))
            × (all keys.hashable forms ≡ true)
      joined (raised e) same k forms found n hashed = absurd (ground (arith, k))
      joined (ok first) same k forms found n hashed =
          (first ∷ forms, rw (compact_all, same, found) refl, ap suc n, ground (arith, k, hashed))

abbrev pub is_fatal : Option ReporterResponse → Bool
is_fatal none = false
is_fatal (some x) = x.fatal

module _ {E C : Type 0} where
  -- The report was tried, and the reporter sends others if the response is not fatal.
  record IsSent (r : EventReport E C) (s : Reporter E C)
      (x : Option ReporterResponse × Reporter E C) : Type 0 where
    tried : x.1.tried ≡ s.tried ++ r ∷ []
    goes_on : is_fatal x.0 ≡ false → x.1.send_requests ≡ true

  report-IsSent :
      (posting : Posting) (r : EventReport E C) (s : Reporter E C)
      → s.send_requests ≡ true
      → report_is_empty r ≡ false
      → IsSent r s (report posting r s)
  unfolding report latched
  report-IsSent posting r s sends filled =
      reported_as s.send_requests (report_is_empty r) sends filled
    where
      t : Reporter E C
      t = record s { tried = s.tried ++ r ∷ [] }

      answered_with : (x : Option ReporterResponse) → IsSent r s (x, latched x t)
      answered_with none = record { tried = refl; goes_on = λ h. sends }
      answered_with (some x) = latched_on x.fatal x refl
        where
          latched_on :
              (b : Bool) (x : ReporterResponse)
              → x.fatal ≡ b
              → IsSent r s (some x, if x.fatal then record t { send_requests = false } else t)
          latched_on true x h = record {
            tried = ground (arith, h);
            goes_on = λ k. absurd (ground (arith, h, k));
          }
          latched_on false x h = record {
            tried = ground (arith, h);
            goes_on = λ k. ground (arith, h, sends);
          }

      reported_as :
          (b d : Bool)
          → b ≡ true
          → d ≡ false
          → IsSent r s (
              if not b
              then (some (record { success = false; fatal = true }), s)
              else if d
              then (some (record { success = true; fatal = false }), s)
              else (response_to posting, latched (response_to posting) t))
      reported_as true false h k = answered_with (response_to posting)
      reported_as true true h k = absurd (ground (arith, k))
      reported_as false d h k = absurd (ground (arith, h))

  report-empty :
      (posting : Posting) (r : EventReport E C) (s : Reporter E C)
      → s.send_requests ≡ true
      → report_is_empty r ≡ true
      → report posting r s ≡ (some (record { success = true; fatal = false }), s)
  unfolding report
  report-empty posting r s sends e = ground (arith, sends, e)

  report-response :
      (posting : Posting) (r : EventReport E C) (s : Reporter E C)
      → s.send_requests ≡ true
      → report_is_empty r ≡ false
      → (report posting r s).0 ≡ response_to posting
  unfolding report
  report-response posting r s sends e = ground (arith, sends, e)

  report-handed :
      (posting : Posting) (r : EventReport E C) (s : Reporter E C)
      → s.send_requests ≡ true
      → let x = report posting r s in
        (handed x.1.tried ≡ handed s.tried + weight r)
        × (is_fatal x.0 ≡ false → x.1.send_requests ≡ true)
        × (is_fatal (response_to posting) ≡ false → is_fatal x.0 ≡ false)
  report-handed posting r s sends = elim (Bool-cases (report_is_empty r)) [
    | inl e ↦ nothing_sent e
    | inr filled ↦
        let sent = report-IsSent posting r s sends filled in
        (ap handed sent.tried ∙ handed-snoc s.tried r, sent.goes_on, response filled)
  ]
    where
      nothing_sent :
          report_is_empty r ≡ true
          → let x = report posting r s in
            (handed x.1.tried ≡ handed s.tried + weight r)
            × (is_fatal x.0 ≡ false → x.1.send_requests ≡ true)
            × (is_fatal (response_to posting) ≡ false → is_fatal x.0 ≡ false)
      nothing_sent e =
          let n = empty-weight r e in
          let same = report-empty posting r s sends e in
          rw same (omega (arith, n), (λ h. sends), (λ h. refl))

      response :
          report_is_empty r ≡ false
          → is_fatal (response_to posting) ≡ false
          → is_fatal (report posting r s).0 ≡ false
      response filled h = ap is_fatal (report-response posting r s sends filled) ∙ h

module _ {E F : Type 0} where
  -- What a response does to the collector.
  record IsAnswered (x : Option ReporterResponse) (c d : Collector E F) : Type 0 where
    reporter : d.reporter ≡ c.reporter
    in_flight : d.in_flight ≡ c.in_flight
    closed : d.closed ≡ c.closed
    going :
        d.collecting ≡ true → (c.collecting ≡ true) × (is_fatal x ≡ false) × (d.events ≡ c.events)
    idle : c.collecting ≡ false → d.events ≡ c.events
    events : (d.events ≡ c.events) ⊎ (d.events ≡ EventQueue.reset c.events)

  on_response-IsAnswered :
      (x : Option ReporterResponse) (c : Collector E F) → IsAnswered x c (on_response x c)
  unfolding on_response stop_collecting clear
  on_response-IsAnswered none c = record {
    reporter = refl;
    in_flight = refl;
    closed = refl;
    going = λ g. (g, refl, refl);
    idle = λ g. refl;
    events = inl refl;
  }
  on_response-IsAnswered (some y) c = answered_on y.fatal c.collecting refl refl
    where
      answered_on :
          (b g : Bool)
          → y.fatal ≡ b
          → c.collecting ≡ g
          → IsAnswered (some y) c (on_response (some y) c)
      answered_on true true h k = record {
        reporter = ground (arith, h, k);
        in_flight = ground (arith, h, k);
        closed = ground (arith, h, k);
        going = λ l. absurd (ground (arith, h, k, l));
        idle = λ l. absurd (ground (arith, k, l));
        events = inr (ground (arith, h, k));
      }
      answered_on true false h k = record {
        reporter = ground (arith, h, k);
        in_flight = ground (arith, h, k);
        closed = ground (arith, h, k);
        going = λ l. absurd (ground (arith, h, k, l));
        idle = λ l. ground (arith, h, k);
        events = inl (ground (arith, h, k));
      }
      answered_on false g h k = record {
        reporter = ground (arith, h);
        in_flight = ground (arith, h);
        closed = ground (arith, h);
        going = λ l. (ground (arith, h, l), h, ground (arith, h));
        idle = λ l. ground (arith, h);
        events = inl (ground (arith, h));
      }

  -- What the end of a flush keeps, whatever the reporter does.
  pub record IsKept (c d : Collector E F) : Type 0 where
    pub closed : d.closed ≡ c.closed
    pub going : d.collecting ≡ true → c.collecting ≡ true
    pub events : (d.events ≡ c.events) ⊎ (d.events ≡ EventQueue.reset c.events)

  end_with-IsKept :
      (posting : Posting) (o : Option (EventReport E (Context F))) (c : Collector E F)
      → IsKept c (end_with posting o c)
  unfolding end_with
  end_with-IsKept posting none c = record { closed = refl; going = λ g. g; events = inl refl }
  end_with-IsKept posting (some r) c =
      let x = report posting r c.reporter in
      let h = on_response-IsAnswered x.0 (record c { reporter = x.1; in_flight = none }) in
      record { closed = h.closed; going = λ g. (h.going g).0; events = h.events }

  pub end_flush-IsKept : (posting : Posting) (c : Collector E F) → IsKept c (end_flush posting c)
  unfolding end_flush
  end_flush-IsKept posting c = end_with-IsKept posting c.in_flight c

  -- What the end of a flush leaves, of a reporter that sends.
  pub record IsEnded (posting : Posting) (c d : Collector E F) : Type 0 where
    pub handed_over : handed d.reporter.tried ≡ handed c.reporter.tried + under_way c.in_flight
    pub ended : d.in_flight ≡ none
    pub going : d.collecting ≡ true → (d.reporter.send_requests ≡ true) × (d.events ≡ c.events)
    pub idle : c.collecting ≡ false → d.events ≡ c.events
    pub sends :
        (c.in_flight ≡ none) ⊎ (is_fatal (response_to posting) ≡ false)
        → d.reporter.send_requests ≡ true

  end_with-IsEnded :
      (posting : Posting) (o : Option (EventReport E (Context F))) (c : Collector E F)
      → c.in_flight ≡ o
      → c.reporter.send_requests ≡ true
      → IsEnded posting c (end_with posting o c)
  unfolding end_with
  end_with-IsEnded posting none c e sends = record {
    handed_over = omega (arith, ap under_way e);
    ended = e;
    going = λ g. (sends, refl);
    idle = λ g. refl;
    sends = λ g. sends;
  }
  end_with-IsEnded posting (some r) c e sends =
      let x = report posting r c.reporter in
      let (total, on, fatal) = report-handed posting r c.reporter sends in
      let h = on_response-IsAnswered x.0 (record c { reporter = x.1; in_flight = none }) in
      record {
        handed_over = ap (λ t. handed t.tried) h.reporter ∙ omega (arith, total, ap under_way e);
        ended = h.in_flight;
        going = λ g.
            let (before, fine, same) = h.going g in
            (ap (λ t. t.send_requests) h.reporter ∙ on fine, same);
        idle = h.idle;
        sends = λ g. elim g [
          | inl none_there ↦ absurd (ground (arith, e, none_there))
          | inr fine ↦ ap (λ t. t.send_requests) h.reporter ∙ on (fatal fine)
        ];
      }

  pub end_flush-IsEnded :
      (posting : Posting) (c : Collector E F)
      → c.reporter.send_requests ≡ true
      → IsEnded posting c (end_flush posting c)
  unfolding end_flush
  end_flush-IsEnded posting c sends = end_with-IsEnded posting c.in_flight c refl sends
