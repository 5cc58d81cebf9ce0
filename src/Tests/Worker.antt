-- ===== src/Tests/Worker.antt =====
-- The worker of configdirector/_eventsource/client.py on concrete sessions.
use python_server_sdk.Base.{
  ◌≡◌, refl, ℕ, ◌/◌, [], ◌∷◌, none, some, true, false, Exc, ok, codes, value_out_of_range,
  starts_with, text_beq, join, inl, inr,
}
use python_server_sdk.Base.Json.{scalar, float}
use python_server_sdk.EventSource.Parser.{Options, init, feed, dispatch_line}
use python_server_sdk.EventSource.Worker.{
  connecting, open_stream, nothing, closing, Source, Session, answered, run, notify, failed,
  reconnect_delay, as_seconds, finite, checked, in_range,
}
use python_server_sdk.EventSource.Worker.Attempts.{IsWhole, AllWhole, IsApart}
use python_server_sdk.EventSource.Worker.Loop.{AllApart, IsSettled, run-IsSettled}
use python_server_sdk.EventSource.Worker.Delays.{IsChecked, reconnect_delay-IsChecked}
use python_server_sdk.Tests.Evaluation.{toy}

abbrev pub options : Options
options = record {
  max_line_chars = 64;
  max_event_chars = 64;
  has_on_event = true;
  has_on_retry = true;
  has_on_comment = true;
  max_int_digits = 4300;
}

-- Milliseconds as whole tenths of a second.
abbrev pub tenths : ℕ → Exc ℕ
tenths n = ok (n / 100)

abbrev pub started : Source ℕ
started = record {
  ready_state = connecting;
  attempt = 0;
  server_delay = 20;
  stopped = false;
  last_event_id = none;
  notices = [];
}

-- An answer with a retry field, that ends and is tried again after 2 seconds.
abbrev pub session : ℕ → Session ℕ
session status = record {
  opening = answered status;
  closes_opening = nothing;
  closes_published = nothing;
  closes_starting = nothing;
  closes_setting_open = nothing;
  reads = record { closes = nothing; content = codes "retry: 3000\n\n" } ∷ [];
  closes_ending = nothing;
  ending = none;
  rest = [];
  closes_read = nothing;
  closes_failed = nothing;
  reconnects = some true;
  delay = some (scalar (float 20));
  closes_asked = nothing;
  closes_setting_connecting = nothing;
  closes_waiting = nothing;
}

read_then_gone :
    (run toy tenths options (session 200 ∷ session 503 ∷ session 204 ∷ []) started).alive ≡ false
unfolding run feed init starts_with dispatch_line text_beq join
read_then_gone = refl

retry_read : (run toy tenths options (session 200 ∷ []) started).source.server_delay ≡ 30
unfolding run feed init starts_with dispatch_line text_beq join
retry_read = refl

-- A close that lands before the look of `_set_state`, and one between that and its write.
abbrev closed_starting : Session ℕ
closed_starting = record (session 200) { closes_starting = closing }

abbrev closed_within : Session ℕ
closed_within = record (session 200) { closes_setting_open = closing }

session-IsApart : IsApart (session 200)
unfolding IsWhole AllWhole
session-IsApart = record {
  opening = inl refl;
  published = inl refl;
  starting = inl refl;
  setting_open = refl;
  reads = (inl refl, tt);
  ending = inl refl;
  read = inl refl;
  failed = inl refl;
  asked = inl refl;
  setting_connecting = refl;
  waiting = inl refl;
}

closed_starting-IsApart : IsApart closed_starting
unfolding IsWhole AllWhole
closed_starting-IsApart = record {
  opening = inl refl;
  published = inl refl;
  starting = inr refl;
  setting_open = refl;
  reads = (inl refl, tt);
  ending = inl refl;
  read = inl refl;
  failed = inl refl;
  asked = inl refl;
  setting_connecting = refl;
  waiting = inl refl;
}

run-IsSettled_example :
    IsSettled toy tenths options
      (run toy tenths options (session 200 ∷ closed_starting ∷ []) started)
unfolding AllApart
run-IsSettled_example =
    run-IsSettled toy tenths options (session 200 ∷ closed_starting ∷ []) started
      (session-IsApart, (closed_starting-IsApart, tt)) refl refl

-- The worker that is closed between the look and the write leaves the client open for good.
left_open : (run toy tenths options (closed_within ∷ []) started).source.ready_state ≡ open_stream
unfolding run feed init starts_with dispatch_line text_beq join
left_open = refl

-- A delay of 4000 seconds is out of range, and the server's is taken.
too_long :
    reconnect_delay toy tenths options (some (scalar (float 40000))) started
    ≡ ok (20, notify (failed value_out_of_range) started)
unfolding reconnect_delay as_seconds finite checked in_range
too_long = refl

reconnect_delay-IsChecked_example :
    IsChecked toy tenths options 0 started (20, notify (failed value_out_of_range) started)
reconnect_delay-IsChecked_example =
    reconnect_delay-IsChecked toy tenths options 0 (some (scalar (float 40000))) started
      (20, notify (failed value_out_of_range) started) refl too_long
