-- ===== src/Tests/Collector.antt =====
-- The collector of configdirector/_telemetry/collector.py on concrete calls.
use python_server_sdk.Base.{
  ◌≡◌, refl, ℕ, ◌+◌, Bool, false, List, [], ◌∷◌, none, some, true, codes, Text, text_beq, text_eq,
  ◌==◌, ◌⊎◌, inr, Exc, ok, type_error, all, raised,
}
use python_server_sdk.Base.Json.{Value, scalar, text, array, nil}
use python_server_sdk.Values.{found_match}
use python_server_sdk.Telemetry.Counting.{
  Keys, IsKeys, AggregatedEvent, aggregate, count_all, reported, reported_of, occurs, IsMerged,
  aggregate_counts,
}
use python_server_sdk.Telemetry.Events.{
  TelemetryValue, EvaluatedConfigEvent, compacted_value, compacted, event_keys, event_same,
  is_container, value_max_length,
}
use python_server_sdk.Telemetry.Events.Equality.{event_keys-IsKeys, text_symmetric, text_transitive}
use python_server_sdk.Telemetry.EventQueue
use python_server_sdk.Telemetry.Reporter
use python_server_sdk.Telemetry.Reporter.{
  answered, no_response, report_is_empty, report, response_to,
}
use python_server_sdk.Transport.{is_fatal_status}
use python_server_sdk.Telemetry.Collector.{
  new, record_evaluation, record_invalid_context, compact_all, begin_flush, end_flush, close,
}
use python_server_sdk.Telemetry.Collector.Conservation.{
  handed, pending, under_way, is_countable, is_fatal,
}
use python_server_sdk.Telemetry.Collector.Runs.{
  Call, evaluation, invalid_context, flush_begins, flush_ends, evaluations, from_start, make_all,
  AllCountable, make_all-counts, close-counts,
}

-- A config type as a text: two of them are `==` if these are, for texts and no type.
abbrev type_text : Value ℕ → Text
type_text (scalar (text s)) = s
type_text v = 0 ∷ []

abbrev same_type : Value ℕ → Value ℕ → Bool
same_type v w = type_text v == type_text w

abbrev keys : Keys (EvaluatedConfigEvent ℕ)
keys = event_keys same_type

toy_keys_lem : IsKeys (event_keys same_type)
toy_keys_lem =
    event_keys-IsKeys same_type (λ a b. text_symmetric (type_text a) (type_text b))
      (λ a b c. text_transitive (type_text a) (type_text b) (type_text c))

abbrev shown : Text → TelemetryValue
shown s = record { value = some s; value_id = none; type = none }

-- An evaluation of a config, with its type.
abbrev of_type : Text → Value ℕ → EvaluatedConfigEvent ℕ
of_type key type = record {
  key = key;
  default_value = shown (codes "false");
  evaluated_value = shown (codes "true");
  requested_type = codes "bool";
  used_default = false;
  evaluation_reason = found_match;
  context_id = none;
  context_kind = none;
  type = type;
  evaluated_value_id = none;
}

abbrev of_a : EvaluatedConfigEvent ℕ
of_a = of_type (codes "a") (scalar (text (codes "boolean")))

abbrev of_b : EvaluatedConfigEvent ℕ
of_b = of_type (codes "b") (scalar (text (codes "boolean")))

abbrev of_list : EvaluatedConfigEvent ℕ
of_list = of_type (codes "c") (array nil)

abbrev itself : Text → Exc Text
itself s = ok s

abbrev compact : EvaluatedConfigEvent ℕ → Exc (EvaluatedConfigEvent ℕ)
compact = compacted itself

-- Two evaluations, a report that is lost, with an evaluation beside its request, an invalid context,
-- and a report that is still under way.
abbrev calls : List (Call (EvaluatedConfigEvent ℕ) ℕ)
calls =
    evaluation 1 of_a none
    ∷ evaluation 2 of_b none
    ∷ flush_begins 3
    ∷ evaluation 4 of_a none
    ∷ flush_ends no_response
    ∷ invalid_context 5 (codes "A B")
    ∷ flush_begins 6
    ∷ evaluation 7 of_a none
    ∷ []

calls-AllCountable : AllCountable keys compact calls
unfolding is_countable compacted compacted_value event_keys is_container value_max_length
calls-AllCountable = (refl, (refl, (refl, (refl, tt))))

calls-collecting : (from_start keys compact 100 calls).collecting ≡ true
unfolding from_start make_all record_evaluation record_invalid_context begin_flush end_flush
    report_is_empty aggregate new response_to count_all EventQueue.take_snapshot EventQueue.push
    EventQueue.new report Reporter.new compact_all compacted event_keys event_same text_beq
    value_max_length
calls-collecting = refl

make_all-counts_example :
    let c = from_start keys compact 100 calls in
    evaluations calls ≡ handed c.reporter.tried + under_way c.in_flight + pending c.events
make_all-counts_example = make_all-counts keys compact 100 calls calls-AllCountable calls-collecting

not_fatal : is_fatal (response_to (answered 500)) ≡ false
unfolding response_to is_fatal_status
not_fatal = refl

close-counts_example :
    let x =
      close keys compact 8 (answered 500) (answered 200) (from_start keys compact 100 calls) in
    (x.1 ≡ none) × (handed x.0.reporter.tried ≡ evaluations calls)
close-counts_example =
    close-counts keys compact 100 calls 8 (answered 500) (answered 200) calls-AllCountable
      calls-collecting (inr not_fatal)

-- A config whose type is an array cannot be hashed, and costs the report.
cannot_be_counted : aggregate keys (of_a ∷ of_list ∷ []) 1 2 ≡ raised type_error
unfolding aggregate count_all event_keys is_container
cannot_be_counted = refl

aggregate_counts_example :
    ((lines : List (AggregatedEvent (EvaluatedConfigEvent ℕ))) × (all keys.hashable
          (of_a ∷ of_b ∷ of_a ∷ [])
        ≡ true)
      × (aggregate keys (of_a ∷ of_b ∷ of_a ∷ []) 1 2 ≡ ok lines)
      × ((k : EvaluatedConfigEvent ℕ)
          → reported_of keys k lines ≡ occurs keys k (of_a ∷ of_b ∷ of_a ∷ []))
      × (reported lines ≡ 3)
      × IsMerged keys lines)
    ⊎ ((all keys.hashable (of_a ∷ of_b ∷ of_a ∷ []) ≡ false)
        × (aggregate keys (of_a ∷ of_b ∷ of_a ∷ []) 1 2 ≡ raised type_error))
aggregate_counts_example =
    aggregate_counts (event_keys same_type) toy_keys_lem (of_a ∷ of_b ∷ of_a ∷ []) 1 2
