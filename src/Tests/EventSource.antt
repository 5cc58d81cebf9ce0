-- ===== src/Tests/EventSource.antt =====
-- The parser of configdirector/_eventsource/parser.py on concrete chunks.
use python_server_sdk.Base.{
  ◌≡◌, refl, false, true, none, [], ◌∷◌, ◌++◌, codes, stream_too_large, starts_with, join, text_beq,
  arith,
}
use python_server_sdk.EventSource.Parser.{
  Options, Parser, done, raised, ◌>>=◌, init, feed, dispatch_line, on_event, on_retry, on_comment,
}
use python_server_sdk.EventSource.Parser.Reference.{view, read}
use python_server_sdk.EventSource.Parser.Agreement.{Agrees, IsBounded}
use python_server_sdk.EventSource.Parser.Chunks.{
  opened, feed-Agrees, feed-append, init-IsBounded, bom_after_empty_chunk, strip_bom-append,
}
use python_server_sdk.EventSource.Parser.Bounds.{IsWithin, init-IsWithin, feed-IsWithin}

abbrev options : Options
options = record {
  max_line_chars = 64;
  max_event_chars = 64;
  has_on_event = true;
  has_on_retry = true;
  has_on_comment = true;
  max_int_digits = 4300;
}

abbrev after_start : Parser
after_start = record {
  first_chunk = false;
  line_parts = [];
  line_len = 0;
  pending_lf = true;
  events = record {
    event_type = none;
    data_parts = codes "on" ∷ [];
    data_len = 3;
    last_event_id = none;
    calls = [];
  };
}

abbrev after_end : Parser
after_end = record after_start {
  line_parts = [];
  line_len = 0;
  pending_lf = false;
  events = record {
    event_type = none;
    data_parts = [];
    data_len = 0;
    last_event_id = none;
    calls = on_event (record { content = codes "on"; event_type = none; id = none }) ∷ [];
  };
}

program : Unit {0}
unfolding feed init dispatch_line starts_with join text_beq
program = tt

start_run : feed options (codes "data: on\r") init ≡ done after_start
unfolding program
start_run = refl

end_run : feed options (codes "\n\r\n") after_start ≡ done after_end
unfolding program
end_run = refl

feed-append_example :
    (q : Parser) × (feed options (codes "data: on\r" ++ codes "\n\r\n") init ≡ done q)
    × (view q ≡ view after_end)
unfolding init
feed-append_example =
    feed-append options (codes "data: on\r") (codes "\n\r\n") init after_start after_end
      (init-IsBounded options)
      (λ first. strip_bom-append (codes "data: on\r") (codes "\n\r\n") (omega arith)) start_run
      end_run

feed-Agrees_example :
    Agrees options
      (feed options (codes "data: on\r\n\r\n") init)
      (read options (opened init (codes "data: on\r\n\r\n")) (view init))
feed-Agrees_example = feed-Agrees options (codes "data: on\r\n\r\n") init (init-IsBounded options)

feed-IsWithin_example : IsBounded options after_start × IsWithin options after_start.events
feed-IsWithin_example =
    feed-IsWithin options (codes "data: on\r") init after_start (init-IsBounded options)
      (init-IsWithin options) start_run

bom_after_empty_chunk_example :
    Agrees options
      (feed options (0xfeff ∷ codes "data: on\n\n") init)
      (read options (codes "data: on\n\n") (view init))
    × Agrees options
        (feed options [] init >>= feed options (0xfeff ∷ codes "data: on\n\n"))
        (read options (0xfeff ∷ codes "data: on\n\n") (view init))
bom_after_empty_chunk_example = bom_after_empty_chunk options (codes "data: on\n\n")

-- An unterminated line over the limit raises, with a comment and a retry read before it.
long_line :
    feed (record options { max_line_chars = 2 }) (codes ":hi\nretry: 10\nabc") init
    ≡ raised stream_too_large (record after_start {
      line_len = 3;
      pending_lf = false;
      events = record {
        event_type = none;
        data_parts = [];
        data_len = 0;
        last_event_id = none;
        calls = on_comment (codes "hi") ∷ on_retry 10 ∷ [];
      };
    })
unfolding program
long_line = refl
