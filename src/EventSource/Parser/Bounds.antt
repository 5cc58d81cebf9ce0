-- ===== src/EventSource/Parser/Bounds.antt =====
-- What the parser holds of an event under construction stays within its limit.
use python_server_sdk.Base.{
  ℕ, take, ◌+◌, ◌≤◌, ◌≡◌, Bool, List, [], ◌∷◌, ◌++◌, Text, length, arith, Option, none, some,
}
use python_server_sdk.EventSource.Parser.{
  Options, EventBuffer, Parser, Run, done, raised, ◌>>=◌, init, dispatch_line, emit_event,
  apply_data, apply_retry, apply_field, dispatch_at, Call, on_comment, call, feed, field_value,
  find_colon,
}
use python_server_sdk.EventSource.Parser.Reference.{Reading, view, ended, read_char, read}
use python_server_sdk.EventSource.Parser.Agreement.{IsBounded}
use python_server_sdk.EventSource.Parser.Chunks.{opened, feed-done}

-- The characters of the data lines, each with the newline that joins it to the next.
pub data_chars : List Text → ℕ
data_chars [] = 0
data_chars (s ∷ parts) = (length s + 1) + data_chars parts

data_chars-snoc :
    (parts : List Text) (s : Text)
    → data_chars (parts ++ s ∷ []) ≡ data_chars parts + (length s + 1)
unfolding data_chars
data_chars-snoc [] s = omega arith
data_chars-snoc (t ∷ parts) s = omega (arith, data_chars-snoc parts s)

pub record IsWithin (o : Options) (b : EventBuffer) : Type 0 where
  pub counted : b.data_len ≡ data_chars b.data_parts
  pub within : b.data_len ≤ o.max_event_chars

-- A property of the state that a method returns with.
abbrev pub Returns {ℓ κ} : {S : Type ℓ} → (S → Type κ) → Run S → Type κ
Returns P (done s) = P s
Returns P (raised e s) = Unit

module _ (o : Options) where
  apply_data-IsWithin :
      (value : Text) (b : EventBuffer) → IsWithin o b → Returns (IsWithin o) (apply_data o value b)
  unfolding apply_data
  apply_data-IsWithin value b h = ground (arith, data_chars-snoc b.data_parts value)

  apply_retry-IsWithin :
      (value : Text) (b : EventBuffer) → IsWithin o b → Returns (IsWithin o) (apply_retry o value b)
  unfolding apply_retry
  apply_retry-IsWithin value b h = ground arith

  apply_field-IsWithin :
      (field value : Text) (b : EventBuffer)
      → IsWithin o b
      → Returns (IsWithin o) (apply_field o field value b)
  unfolding apply_field
  apply_field-IsWithin field value b h =
      ground (arith, apply_data-IsWithin value b h, apply_retry-IsWithin value b h)

  dispatch_at-IsWithin :
      (line : Text) (colon : Option ℕ) (b : EventBuffer)
      → IsWithin o b
      → Returns (IsWithin o) (dispatch_at o line colon b)
  unfolding dispatch_at
  dispatch_at-IsWithin line none b h = apply_field-IsWithin line [] b h
  dispatch_at-IsWithin line (some i) b h =
      apply_field-IsWithin (take i line) (field_value line (i + 1)) b h

  emit_event-IsWithin : (b : EventBuffer) → IsWithin o (emit_event o b)
  unfolding emit_event data_chars
  emit_event-IsWithin b = omega arith

  call-IsWithin :
      (given : Bool) (c : Call) (b : EventBuffer) → IsWithin o b → IsWithin o (call given c b)
  unfolding call
  call-IsWithin given c b h = ground arith

  dispatch_line-IsWithin :
      (line : Text) (b : EventBuffer) → IsWithin o b → Returns (IsWithin o) (dispatch_line o line b)
  unfolding dispatch_line
  dispatch_line-IsWithin line b h = ground (
    arith,
    dispatch_at-IsWithin line (find_colon 0 line) b h,
    emit_event-IsWithin b,
    call-IsWithin o.has_on_comment (on_comment (field_value line 1)) b h,
  )

  ended-IsWithin :
      (c : ℕ) (d : Run EventBuffer)
      → Returns (IsWithin o) d
      → Returns (λ r. IsWithin o r.events) (ended c d)
  unfolding ended
  ended-IsWithin c (done b) h = h
  ended-IsWithin c (raised e b) h = tt

  read_char-IsWithin :
      (c : ℕ) (r : Reading)
      → IsWithin o r.events
      → Returns (λ q. IsWithin o q.events) (read_char o c r)
  unfolding read_char
  read_char-IsWithin c r h = ground (
    arith,
    ended-IsWithin c (dispatch_line o r.line r.events) (dispatch_line-IsWithin r.line r.events h),
  )

  >>=-Returns {ℓ κ} :
      {S : Type ℓ} (P : S → Type κ) (m : Run S) (k : S → Run S)
      → Returns P m
      → ((s : S) → P s → Returns P (k s))
      → Returns P (m >>= k)
  >>=-Returns P (done s) k h keep = keep s h
  >>=-Returns P (raised e s) k h keep = tt

  read-IsWithin :
      (s : Text) (r : Reading)
      → IsWithin o r.events
      → Returns (λ q. IsWithin o q.events) (read o s r)
  unfolding read
  read-IsWithin [] r h = h
  read-IsWithin (c ∷ s) r h =
      >>=-Returns (λ q. IsWithin o q.events) (read_char o c r) (read o s) (read_char-IsWithin c r h)
        (read-IsWithin s)

  -- The unterminated line and the data lines that the parser holds stay within their limits: if
  -- `feed` returns from a state where they are counted and within them, then it returns to such a
  -- state. The event type and the last event id are not bounded by it.
  pub feed-IsWithin :
      (chunk : Text) (p q : Parser)
      → IsBounded o p
      → IsWithin o p.events
      → feed o chunk p ≡ done q
      → IsBounded o q × IsWithin o q.events
  feed-IsWithin chunk p q h w e =
      let (same, bounded) = feed-done o chunk p q h e in
      (bounded, rw same at (read-IsWithin (opened p chunk) (view p) w))

pub init-IsWithin : (o : Options) → IsWithin o init.events
unfolding init data_chars
init-IsWithin o = omega arith
