-- ===== src/EventSource/Parser.antt =====
-- configdirector-server-sdk/src/configdirector/_eventsource/parser.py: the incremental parser of an
-- event stream. The callbacks are called in order, which is what `calls` records; a callback that
-- is not given is a `false` in `Options`.
pub mod Reference
pub mod Agreement
pub mod Chunks
pub mod Bounds
use python_server_sdk.Base.{
  ℕ, zero, suc, ◌+◌, ◌-◌, ◌*◌, take, Bool, true, false, not, ◌&&◌, ◌||◌, Option, none, some, List,
  [], ◌∷◌, ◌++◌, length, drop, is_empty, all, Text, codes, starts_with, join, text_eq, nat_eq,
  pair_eq, ltb, leb, ◌==◌, contains, if◌then◌else◌, Error, stream_too_large, value_error,
}

pub record EventSourceMessage : Type 0 where
  pub content : Text
  pub event_type : Option Text
  pub id : Option Text

-- A call of one of the three callbacks.
pub data Call : Type 0 where
  on_event : EventSourceMessage → Call
  on_retry : ℕ → Call
  on_comment : Text → Call

-- `max_int_digits` is the interpreter's limit on the digits that `int(text)` reads.
pub record Options : Type 0 where
  pub max_line_chars : ℕ
  pub max_event_chars : ℕ
  pub has_on_event : Bool
  pub has_on_retry : Bool
  pub has_on_comment : Bool
  pub max_int_digits : ℕ

-- The attributes that hold the event under construction, and the calls made so far.
pub record EventBuffer : Type 0 where
  pub event_type : Option Text
  pub data_parts : List Text
  pub data_len : ℕ
  pub last_event_id : Option Text
  pub calls : List Call

pub record Parser : Type 0 where
  pub first_chunk : Bool
  pub line_parts : List Text
  pub line_len : ℕ
  pub pending_lf : Bool
  pub events : EventBuffer

-- A method returns with the new state, or raises and leaves the state as it is by then.
pub data Run {ℓ} (S : Type ℓ) : Type ℓ where
  done : S → Run S
  raised : Error → S → Run S

infixl 5 ◌>>=◌
abbrev pub ◌>>=◌ {ℓ} : {S : Type ℓ} → Run S → (S → Run S) → Run S
done s >>= f = f s
raised e s >>= f = raised e s

abbrev pub empty_buffer : EventBuffer
empty_buffer = record {
  event_type = none;
  data_parts = [];
  data_len = 0;
  last_event_id = none;
  calls = [];
}

unfoldable pub init : Parser
init = record {
  first_chunk = true;
  line_parts = [];
  line_len = 0;
  pending_lf = false;
  events = empty_buffer;
}

pub strip_bom : Text → Text
strip_bom chunk =
    if starts_with chunk (0xfeff ∷ [])
    then drop 1 chunk
    else if starts_with chunk (0xef ∷ 0xbb ∷ 0xbf ∷ [])
    then drop 3 chunk
    else chunk

-- `_field_value(line, start)` of the text from `start` on
strip_space : Text → Text
strip_space [] = []
strip_space (c ∷ s) = if c == b' ' then s else c ∷ s

field_value : Text → ℕ → Text
unfolding strip_space
field_value line start = strip_space (drop start line)

-- `line.find(":")`, from position `i` on
find_colon : ℕ → Text → Option ℕ
find_colon i [] = none
find_colon i (c ∷ s) = if c == b':' then some i else find_colon (suc i) s

reset_event : EventBuffer → EventBuffer
reset_event b = record b { event_type = none; data_parts = []; data_len = 0 }

call : Bool → Call → EventBuffer → EventBuffer
call given c b = if given then record b { calls = b.calls ++ c ∷ [] } else b

emit_event : Options → EventBuffer → EventBuffer
unfolding reset_event call
emit_event o b =
    let text = join (codes "\n") b.data_parts in
    let m : EventSourceMessage = record {
      content = text;
      event_type = b.event_type;
      id = b.last_event_id;
    } in
    reset_event (call (not (is_empty text) && o.has_on_event) (on_event m) b)

-- `value.isascii() and value.isdigit()`
is_digits : Text → Bool
is_digits value = not (is_empty value) && all (λ c. leb b'0' c && leb c b'9') value

-- The number that a text of ASCII digits writes, after the digits read so far.
digits_value : ℕ → Text → ℕ
digits_value n [] = n
digits_value n (c ∷ s) = digits_value (n * 10 + (c - b'0')) s

apply_retry : Options → Text → EventBuffer → Run EventBuffer
unfolding is_digits digits_value call
apply_retry o value b =
    if is_digits value && o.has_on_retry
    then (if ltb o.max_int_digits (length value)
        then raised value_error b
        else done (call true (on_retry (digits_value 0 value)) b))
    else done b

apply_data : Options → Text → EventBuffer → Run EventBuffer
apply_data o value b =
    let n = b.data_len + (length value + 1) in
    if ltb o.max_event_chars n
    then raised stream_too_large (record b { data_len = n })
    else done (record b { data_len = n; data_parts = b.data_parts ++ value ∷ [] })

apply_field : Options → Text → Text → EventBuffer → Run EventBuffer
unfolding apply_data apply_retry
apply_field o field value b =
    if field == codes "event"
    then done (record b { event_type = some value })
    else if field == codes "data"
    then apply_data o value b
    else if field == codes "id"
    then (if contains value 0 then done b else done (record b { last_event_id = some value }))
    else if field == codes "retry"
    then apply_retry o value b
    else done b

-- A line whose first colon stands at the given position, or that has none.
dispatch_at : Options → Text → Option ℕ → EventBuffer → Run EventBuffer
unfolding apply_field field_value
dispatch_at o line none b = apply_field o line [] b
dispatch_at o line (some colon) b = apply_field o (take colon line) (field_value line (colon + 1)) b

dispatch_field : Options → Text → EventBuffer → Run EventBuffer
unfolding dispatch_at find_colon
dispatch_field o line b = dispatch_at o line (find_colon 0 line) b

-- `_dispatch_line`
unfoldable pub dispatch_line : Options → Text → EventBuffer → Run EventBuffer
unfolding dispatch_field emit_event field_value call
dispatch_line o line b =
    if starts_with line (codes ":")
    then done (call o.has_on_comment (on_comment (field_value line 1)) b)
    else if is_empty line
    then done (emit_event o b)
    else dispatch_field o line b

-- `_buffer_line`
buffer_line : Options → Text → Parser → Run Parser
buffer_line o fragment p =
    let n = p.line_len + length fragment in
    if ltb o.max_line_chars n
    then raised stream_too_large (record p { line_len = n })
    else done (record p { line_len = n; line_parts = p.line_parts ++ fragment ∷ [] })

-- The state of the parser, from the state of the event that the dispatch left.
with_events : Parser → Run EventBuffer → Run Parser
with_events p (done b) = done (record p { events = b })
with_events p (raised e b) = raised e (record p { events = b })

-- `_finish_line`
finish_line : Options → Text → Parser → Run Parser
unfolding with_events
finish_line o fragment p =
    if is_empty p.line_parts
    then with_events p (dispatch_line o fragment p.events)
    else with_events (record p { line_parts = []; line_len = 0 })
        (dispatch_line o (join [] (p.line_parts ++ fragment ∷ [])) p.events)

unfoldable pub is_terminator : ℕ → Bool
is_terminator c = c == 13 || c == 10

end_of_chunk : Options → Text → Parser → Run Parser
unfolding buffer_line
end_of_chunk o fragment p = if is_empty fragment then done p else buffer_line o fragment p

-- The loop of `feed` over the rest of the chunk; `fragment` is `chunk[start:index]`.
scan : Options → Text → Text → Parser → Run Parser
unfolding is_terminator finish_line end_of_chunk
scan o fragment [] p = end_of_chunk o fragment p
scan o fragment (c ∷ []) p =
    if is_terminator c
    then finish_line o fragment p
      >>= (λ q. done (if c == 13 then record q { pending_lf = true } else q))
    else end_of_chunk o (fragment ++ c ∷ []) p
scan o fragment (c ∷ d ∷ rest) p =
    let more = scan o (fragment ++ c ∷ []) (d ∷ rest) p in
    let crlf = finish_line o fragment p >>= (λ q. scan o [] rest q) in
    let line = finish_line o fragment p >>= (λ q. scan o [] (d ∷ rest) q) in
    if is_terminator c then (if c == 13 && d == 10 then crlf else line) else more

-- `feed` after the mark at the start of the stream is gone
pub feed_stripped : Options → Text → Parser → Run Parser
unfolding scan
feed_stripped o [] p = done p
feed_stripped o (c ∷ rest) p =
    if p.pending_lf
    then (let q = record p { pending_lf = false } in
        if c == 10 then scan o [] rest q else scan o [] (c ∷ rest) q)
    else scan o [] (c ∷ rest) p

unfoldable pub feed : Options → Text → Parser → Run Parser
unfolding feed_stripped strip_bom
feed o chunk p =
    let q = record p { first_chunk = false } in
    if p.first_chunk then feed_stripped o (strip_bom chunk) q else feed_stripped o chunk q

unfoldable pub finish : Parser → Parser
unfolding reset_event
finish p = record p {
  line_parts = [];
  line_len = 0;
  pending_lf = false;
  events = reset_event p.events;
}
