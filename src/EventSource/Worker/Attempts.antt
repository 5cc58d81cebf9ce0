-- ===== src/EventSource/Worker/Attempts.antt =====
-- What one attempt of the worker leaves of the client's state.
use python_server_sdk.Base.{
  ℕ, ◌≡◌, refl, sym, ◌∙◌, Bool, true, false, Option, none, some, List, [], ◌∷◌, nat_eq, ◌==◌, leb,
  if◌then◌else◌, Exc, ok, raised, ◌>>=◌, arith, Bool-cases, Option-cases, inl, inr, ◌⊎◌,
}
use python_server_sdk.Base.Python.{Python}
use python_server_sdk.Base.Json.{Value}
use python_server_sdk.EventSource.Parser.{
  EventSourceMessage, Call, on_event, on_retry, on_comment, Options, Parser, Run, init, feed,
  ◌>>=◌ as and_then,
}
use python_server_sdk.EventSource.Worker.{
  ReadyState, open_stream, Landing, nothing, marks, stops, closing, mark_closed, set_stop, closed,
  Notice, Source, Failure, Opening, refused, answered, Read, Session, close, look, notify,
  set_state, begin_stream, disconnect, handle_event, with_delay, handle, handle_all, fed, silent,
  read_stream, after_read, on_answer, connect_once, checked, as_seconds, reconnect_delay, in_range,
}

abbrev pub at_end : {S : Type 0} → Run S → S
at_end (Run.done s) = s
at_end (Run.raised e s) = s

-- A `close` whose two writes are seen at once, or none.
unfoldable pub IsWhole : Landing → Type 0
IsWhole l = (l ≡ nothing) ⊎ (l ≡ closing)

unfoldable pub AllWhole : List Read → Type 0
AllWhole [] = Unit
AllWhole (r ∷ reads) = IsWhole r.closes × AllWhole reads

-- No `close` of the session is caught between its two writes, nor in the midst of a setting of the
-- state.
pub record IsApart {F : Type 0} (session : Session F) : Type 0 where
  pub opening : IsWhole session.closes_opening
  pub published : IsWhole session.closes_published
  pub starting : IsWhole session.closes_starting
  pub setting_open : session.closes_setting_open ≡ nothing
  pub reads : AllWhole session.reads
  pub ending : IsWhole session.closes_ending
  pub read : IsWhole session.closes_read
  pub failed : IsWhole session.closes_failed
  pub asked : IsWhole session.closes_asked
  pub setting_connecting : session.closes_setting_connecting ≡ nothing
  pub waiting : IsWhole session.closes_waiting

module _ {F : Type 0} where
  -- A stopped client is closed.
  pub record IsQuiet (s : Source F) : Type 0 where
    pub quiet : s.stopped ≡ true → s.ready_state ≡ closed

  -- The two attributes are as they were.
  pub record Keeps (s t : Source F) : Type 0 where
    pub stopped : t.stopped ≡ s.stopped
    pub ready : t.ready_state ≡ s.ready_state

  Keeps-refl : (s : Source F) → Keeps s s
  Keeps-refl s = record { stopped = refl; ready = refl }

  Keeps-trans : (s t u : Source F) → Keeps s t → Keeps t u → Keeps s u
  Keeps-trans s t u h k = record { stopped = k.stopped ∙ h.stopped; ready = k.ready ∙ h.ready }

  Keeps-IsQuiet : (s t : Source F) → Keeps s t → IsQuiet s → IsQuiet t
  Keeps-IsQuiet s t k h = record { quiet = λ e. k.ready ∙ h.quiet (sym k.stopped ∙ e) }

  pub look-IsQuiet : (l : Landing) (s : Source F) → IsWhole l → IsQuiet s → IsQuiet (look l s)
  unfolding look close mark_closed set_stop IsWhole
  look-IsQuiet nothing s w h = h
  look-IsQuiet closing s w h = record { quiet = λ e. refl }
  look-IsQuiet marks s w h = absurd (ground (arith, w))
  look-IsQuiet stops s w h = absurd (ground (arith, w))

  -- With no write of a `close` in its midst, a setting of the state leaves a stopped client closed,
  -- and gives one that is not stopped the state.
  pub record HasState (r : ReadyState) (t : Source F) : Type 0 where
    pub when_stopped : t.stopped ≡ true → t.ready_state ≡ closed
    pub when_not : t.stopped ≡ false → t.ready_state ≡ r

  pub look-HasState :
      (l : Landing) (r : ReadyState) (t : Source F)
      → IsWhole l
      → HasState r t
      → HasState r (look l t)
  unfolding look close mark_closed set_stop IsWhole
  look-HasState nothing r t w h = h
  look-HasState closing r t w h = record {
    when_stopped = λ e. refl;
    when_not = λ e. absurd (ground (arith, e));
  }
  look-HasState marks r t w h = absurd (ground (arith, w))
  look-HasState stops r t w h = absurd (ground (arith, w))

  pub look-stopped : (l : Landing) (t : Source F) → t.stopped ≡ true → (look l t).stopped ≡ true
  unfolding look close mark_closed set_stop
  look-stopped nothing t e = e
  look-stopped closing t e = refl
  look-stopped marks t e = e
  look-stopped stops t e = refl

  given-HasState :
      (r : ReadyState) (t : Source F) (b : Bool)
      → t.stopped ≡ b
      → IsQuiet t
      → HasState r (if b then t else record t { ready_state = r })
  given-HasState r t true e h = record {
    when_stopped = h.quiet;
    when_not = λ f. absurd (ground (arith, e, f));
  }
  given-HasState r t false e h = record {
    when_stopped = λ f. absurd (ground (arith, e, f));
    when_not = λ f. refl;
  }

  pub set_state-HasState :
      (before within : Landing) (r : ReadyState) (s : Source F)
      → IsWhole before
      → within ≡ nothing
      → IsQuiet s
      → HasState r (set_state before within r s)
  unfolding set_state look
  set_state-HasState before nothing r s w e h =
      let t = look before s in given-HasState r t t.stopped refl (look-IsQuiet before s w h)
  set_state-HasState before marks r s w e h = absurd (ground (arith, e))
  set_state-HasState before stops r s w e h = absurd (ground (arith, e))
  set_state-HasState before closing r s w e h = absurd (ground (arith, e))

  handle_event-Keeps : (m : EventSourceMessage) (s : Source F) → Keeps s (handle_event m s)
  unfolding handle_event notify
  handle_event-Keeps m s = record { stopped = ground arith; ready = ground arith }

module _ (py : Python) (of_milliseconds : ℕ → Exc py.Float) (o : Options) where
  open py use {Float}

  with_delay-Keeps :
      (d : Exc Float) (s : Source Float) → Keeps s (at_end (with_delay py of_milliseconds o d s))
  unfolding with_delay
  with_delay-Keeps (ok d) s = record { stopped = refl; ready = refl }
  with_delay-Keeps (raised e) s = Keeps-refl s

  handle-Keeps : (c : Call) (s : Source Float) → Keeps s (at_end (handle py of_milliseconds o c s))
  unfolding handle notify
  handle-Keeps (on_event m) s = handle_event-Keeps m s
  handle-Keeps (on_retry n) s = with_delay-Keeps (of_milliseconds n) s
  handle-Keeps (on_comment t) s = record { stopped = refl; ready = refl }

  pub handle_all-Keeps :
      (calls : List Call) (s : Source Float)
      → Keeps s (at_end (handle_all py of_milliseconds o calls s))
  unfolding handle_all
  handle_all-Keeps [] s = Keeps-refl s
  handle_all-Keeps (c ∷ calls) s =
      go (handle py of_milliseconds o c s) (handle-Keeps c s) (handle_all-Keeps calls)
    where
      go :
          (m : Run (Source Float))
          → Keeps s (at_end m)
          → ((t : Source Float) → Keeps t (at_end (handle_all py of_milliseconds o calls t)))
          → Keeps s (at_end (and_then m (handle_all py of_milliseconds o calls)))
      go (Run.done t) k rest = Keeps-trans s t _ k (rest t)
      go (Run.raised e t) k rest = k

  -- What a step keeps of the state, the handlers keep too.
  and_then-IsQuiet :
      (m : Run (Source Float)) (f : Source Float → Run (Source Float))
      → IsQuiet (at_end m)
      → ((t : Source Float) → IsQuiet t → IsQuiet (at_end (f t)))
      → IsQuiet (at_end (and_then m f))
  and_then-IsQuiet (Run.done t) f h k = k t h
  and_then-IsQuiet (Run.raised e t) f h k = h

  fed-IsQuiet :
      (r : Run Parser) (go_on : Parser → Source Float → Run (Source Float)) (s : Source Float)
      → IsQuiet s
      → ((p : Parser) (t : Source Float) → IsQuiet t → IsQuiet (at_end (go_on p t)))
      → IsQuiet (at_end (fed py of_milliseconds o r go_on s))
  unfolding fed
  fed-IsQuiet (Run.done p) go_on s h k =
      and_then-IsQuiet (handle_all py of_milliseconds o p.events.calls s) (go_on p)
        (Keeps-IsQuiet s _ (handle_all-Keeps p.events.calls s) h) (k p)
  fed-IsQuiet (Run.raised e p) go_on s h k =
      and_then-IsQuiet (handle_all py of_milliseconds o p.events.calls s) (Run.raised e)
        (Keeps-IsQuiet s _ (handle_all-Keeps p.events.calls s) h) (λ t q. q)

  read_stream-IsQuiet :
      (reads : List Read) (session : Session Float) (p : Parser) (s : Source Float)
      → AllWhole reads
      → IsWhole session.closes_ending
      → IsQuiet s
      → IsQuiet (at_end (read_stream py of_milliseconds o reads session p s))
  unfolding read_stream AllWhole
  read_stream-IsQuiet [] session p s ws w h = elim (Option-cases session.ending) [
    | inr (e, found) ↦ rw found (look-IsQuiet session.closes_ending s w h)
    | inl whole ↦ rw whole (elim (Bool-cases (look session.closes_ending s).stopped) [
      | inl t ↦ rw t (look-IsQuiet session.closes_ending s w h)
      | inr f ↦ rw f (
          fed-IsQuiet (feed o session.rest (silent py of_milliseconds o p)) (λ q t. Run.done t)
            (look session.closes_ending s) (look-IsQuiet session.closes_ending s w h) (λ q t k. k))
    ])
  ]
  read_stream-IsQuiet (r ∷ reads) session p s ws w h = elim (Bool-cases (look r.closes s).stopped) [
    | inl t ↦ rw t (look-IsQuiet r.closes s ws.0 h)
    | inr f ↦ rw f (
        fed-IsQuiet (feed o r.content (silent py of_milliseconds o p))
          (read_stream py of_milliseconds o reads session) (look r.closes s)
          (look-IsQuiet r.closes s ws.0 h)
          (λ q t k. read_stream-IsQuiet reads session q t ws.1 w k))
  ]

  -- An attempt without a failure has closed the client, and one with a failure was not stopped.
  unfoldable pub IsAttempted : Source Float × Option Failure → Type 0
  IsAttempted (s, none) = s.ready_state ≡ closed
  IsAttempted (s, some f) = s.stopped ≡ false

  after_read-IsAttempted :
      (status : ℕ) (b : Landing) (m : Run (Source Float))
      → IsWhole b
      → IsQuiet (at_end m)
      → IsAttempted (after_read py of_milliseconds o status b m)
  unfolding after_read IsAttempted notify
  after_read-IsAttempted status b (Run.done s) w h = elim (Bool-cases (look b s).stopped) [
    | inl t ↦ rw t ((look-IsQuiet b s w h).quiet t)
    | inr f ↦ ground (arith, f)
  ]
  after_read-IsAttempted status b (Run.raised e s) w h = elim (Bool-cases (look b s).stopped) [
    | inl t ↦ rw t ((look-IsQuiet b s w h).quiet t)
    | inr f ↦ ground (arith, f)
  ]

  begin_stream-IsQuiet :
      (before within : Landing) (s : Source Float)
      → IsWhole before
      → within ≡ nothing
      → IsQuiet s
      → IsQuiet (begin_stream before within s)
  unfolding begin_stream notify
  begin_stream-IsQuiet before within s w e h = record {
    quiet = (set_state-HasState before within open_stream s w e h).when_stopped;
  }

  on_answer-IsAttempted :
      (status : ℕ) (session : Session Float) (s : Source Float)
      → IsApart session
      → s.stopped ≡ false
      → IsAttempted (on_answer py of_milliseconds o status session s)
  unfolding on_answer IsAttempted disconnect notify close mark_closed set_stop
  on_answer-IsAttempted status session s apart running =
      let s' = look session.closes_published s in
      let h : IsQuiet s' =
        look-IsQuiet session.closes_published s apart.published
          (record { quiet = ground (arith, running) }) in
      elim (Bool-cases (status == 204)) [
        | inl gone ↦ rw gone refl
        | inr more ↦ rw more (elim (Bool-cases (leb 400 status)) [
          | inl bad ↦ rw bad running
          | inr good ↦ rw good (reading s' h s'.stopped refl)
        ])
      ]
    where
      reading :
          (t : Source Float)
          → IsQuiet t
          → (b : Bool) → t.stopped ≡ b
          → IsAttempted (
              if b
              then (t, none)
              else after_read py of_milliseconds o status session.closes_read (
                  read_stream py of_milliseconds o session.reads session init
                    (begin_stream session.closes_starting session.closes_setting_open t)))
      reading t h true e = h.quiet e
      reading t h false e =
          let begun = begin_stream session.closes_starting session.closes_setting_open t in
          after_read-IsAttempted status session.closes_read
            (read_stream py of_milliseconds o session.reads session init begun) apart.read
            (read_stream-IsQuiet session.reads session init begun apart.reads apart.ending (
              begin_stream-IsQuiet session.closes_starting session.closes_setting_open t
                apart.starting apart.setting_open h))

  pub connect_once-IsAttempted :
      (session : Session Float) (s : Source Float)
      → IsApart session
      → s.stopped ≡ false
      → IsAttempted (connect_once py of_milliseconds o session s)
  unfolding connect_once IsAttempted notify
  connect_once-IsAttempted session s apart running =
      let s' = look session.closes_opening s in
      let h : IsQuiet s' =
        look-IsQuiet session.closes_opening s apart.opening
          (record { quiet = ground (arith, running) }) in
      elim (Bool-cases s'.stopped) [
        | inl t ↦ rw t (h.quiet t)
        | inr f ↦ rw f (opened session.opening s' f)
      ]
    where
      opened :
          (opening : Opening) (t : Source Float)
          → t.stopped ≡ false
          → IsAttempted (elim opening [
            | refused e ↦
                (notify (Notice.failed e) t, some (record { status = none; error = some e }))
            | answered status ↦ on_answer py of_milliseconds o status session t
          ])
      opened (refused e) t f = f
      opened (answered status) t f = on_answer-IsAttempted status session t apart f

  checked-Keeps :
      (x : Option Float) (s : Source Float) → Keeps s (checked py of_milliseconds o x s).1
  unfolding checked notify
  checked-Keeps none s = record { stopped = refl; ready = refl }
  checked-Keeps (some x) s = elim (Bool-cases (in_range py of_milliseconds o x)) [
    | inl t ↦ rw t (Keeps-refl s)
    | inr f ↦ rw f (record { stopped = refl; ready = refl })
  ]

  from_checked :
      (x : Option Float) (s : Source Float) (p : Float × Source Float)
      → checked py of_milliseconds o x s ≡ p
      → Keeps s p.1
  from_checked x s p e = rw (← e) (checked-Keeps x s)

  from_seconds :
      (x : Exc (Option Float)) (s : Source Float) (p : Float × Source Float)
      → (x >>= (λ y. ok (checked py of_milliseconds o y s))) ≡ ok p
      → Keeps s p.1
  from_seconds (ok y) s p e = from_checked y s p (ground (arith, e))
  from_seconds (raised x) s p e = absurd (ground (arith, e))

  pub reconnect_delay-Keeps :
      (v : Option (Value Float)) (s : Source Float) (p : Float × Source Float)
      → reconnect_delay py of_milliseconds o v s ≡ ok p
      → Keeps s p.1
  unfolding reconnect_delay
  reconnect_delay-Keeps none s p e = from_checked (some s.server_delay) s p (ground (arith, e))
  reconnect_delay-Keeps (some v) s p e = from_seconds (as_seconds py of_milliseconds o v) s p e
