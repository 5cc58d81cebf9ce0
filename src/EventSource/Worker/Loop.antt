-- ===== src/EventSource/Worker/Loop.antt =====
-- What holds of the worker's loop, whatever happens in its rounds.
use python_server_sdk.Base.{
  ℕ, ◌≡◌, refl, sym, not, ◌∙◌, Bool, true, false, Option, none, some, List, [], ◌∷◌, nat_eq,
  if◌then◌else◌, Exc, ok, raised, arith, Bool-cases, inl, inr, ◌⊎◌,
}
use python_server_sdk.Base.Python.{Python}
use python_server_sdk.EventSource.Parser.{Options}
use python_server_sdk.EventSource.Worker.{
  Landing, waiting, connecting, mark_closed, set_stop, closed, Source, Failure, Session, Round,
  close, look, notify, set_state, disconnect, connect_once, reconnect_delay, wait, proceed,
  after_failure, after_attempt, round, run,
}
use python_server_sdk.EventSource.Worker.Attempts.{
  IsWhole, IsApart, HasState, look-HasState, look-stopped, set_state-HasState, IsQuiet,
  look-IsQuiet, IsAttempted, connect_once-IsAttempted, reconnect_delay-Keeps,
}

unfoldable pub AllApart : {F : Type 0} → List (Session F) → Type 0
AllApart [] = Unit
AllApart (session ∷ sessions) = IsApart session × AllApart sessions

module _ (py : Python) (of_milliseconds : ℕ → Exc py.Float) (o : Options) where
  open py use {Float}

  -- At the next attempt the client is connecting and was not stopped; a worker that has returned
  -- leaves the client closed.
  pub record Settles (r : Round Float) : Type 0 where
    pub going : r.alive ≡ true → (r.source.stopped ≡ false) × (r.source.ready_state ≡ connecting)
    pub returned : r.alive ≡ false → r.source.ready_state ≡ closed

  set-Settles :
      (t : Source Float)
      → HasState connecting t
      → Settles (record { source = t; alive = not t.stopped })
  set-Settles t h = record {
    going =
        λ x. let running : t.stopped ≡ false = ground (arith, x) in (running, h.when_not running);
    returned = λ x. h.when_stopped (ground (arith, x));
  }

  wait-Settles :
      (l : Landing) (d : Exc (Float × Source Float)) (s : Source Float)
      → IsWhole l
      → ((p : Float × Source Float) → d ≡ ok p → HasState connecting p.1)
      → Settles (wait py of_milliseconds o l d s)
  unfolding wait notify
  wait-Settles l (raised e) s w h = record {
    going = λ x. absurd (ground (arith, x));
    returned = λ x. refl;
  }
  wait-Settles l (ok (d, t)) s w h =
      waited t.stopped (py.float_lt py.timeout_max d) refl (h (d, t) refl)
    where
      u : Source Float
      u = notify (waiting d) t

      waited :
          (b c : Bool)
          → t.stopped ≡ b
          → HasState connecting t
          → Settles (
              if b
              then record { source = look l t; alive = false }
              else if c
              then record { source = record (look l t) { ready_state = closed }; alive = false }
              else record { source = look l u; alive = not (look l u).stopped })
      waited true c e k = record {
        going = λ x. absurd (ground (arith, x));
        returned = λ x. (look-HasState l connecting t w k).when_stopped (look-stopped l t e);
      }
      waited false true e k = record {
        going = λ x. absurd (ground (arith, x));
        returned = λ x. refl;
      }
      waited false false e k = set-Settles (look l u) (
          look-HasState l connecting u w
            (record { when_stopped = k.when_stopped; when_not = k.when_not }))

  proceed-Settles :
      (b : Bool) (session : Session Float) (s : Source Float)
      → IsApart session
      → s.stopped ≡ false
      → Settles (proceed py of_milliseconds o b session s)
  unfolding proceed disconnect close mark_closed set_stop notify
  proceed-Settles false session s apart running = record {
    going = λ x. absurd (ground (arith, x));
    returned = λ x. refl;
  }
  proceed-Settles true session s apart running =
      let t = set_state session.closes_asked session.closes_setting_connecting connecting s in
      let h : HasState connecting t =
        set_state-HasState session.closes_asked session.closes_setting_connecting connecting s
          apart.asked apart.setting_connecting (record { quiet = ground (arith, running) }) in
      wait-Settles session.closes_waiting (reconnect_delay py of_milliseconds o session.delay t) t
        apart.waiting
        (λ p e.
          let k = reconnect_delay-Keeps py of_milliseconds o session.delay t p e in
          record {
            when_stopped = λ x. k.ready ∙ h.when_stopped (sym k.stopped ∙ x);
            when_not = λ x. k.ready ∙ h.when_not (sym k.stopped ∙ x);
          })

  pub round-Settles :
      (session : Session Float) (s : Source Float)
      → IsApart session
      → s.stopped ≡ false
      → Settles (round py of_milliseconds o session s)
  unfolding round after_attempt after_failure notify IsAttempted
  round-Settles session s apart running =
      ended (connect_once py of_milliseconds o session s)
        (connect_once-IsAttempted py of_milliseconds o session s apart running)
    where
      looked :
          (f : Failure) (t : Source Float) (b : Bool)
          → IsQuiet t
          → t.stopped ≡ b
          → Settles (
              if b
              then record { source = t; alive = false }
              else after_failure py of_milliseconds o session f t)
      looked f t true h e = record {
        going = λ x. absurd (ground (arith, x));
        returned = λ x. h.quiet e;
      }
      looked f t false h e = proceed-Settles _ session _ apart e

      ended :
          (r : Source Float × Option Failure)
          → IsAttempted py of_milliseconds o r
          → Settles (after_attempt py of_milliseconds o session r)
      ended (t, none) h = record { going = λ x. absurd (ground (arith, x)); returned = λ x. h }
      ended (t, some f) h =
          let u = look session.closes_failed t in
          looked f u u.stopped
            (look-IsQuiet session.closes_failed t apart.failed
              (record { quiet = ground (arith, h) }))
            refl

  run-Settles :
      (sessions : List (Session Float)) (s : Source Float)
      → AllApart sessions
      → s.stopped ≡ false
      → s.ready_state ≡ connecting
      → Settles (run py of_milliseconds o sessions s)
  unfolding run AllApart
  run-Settles [] s apart running at_work = record {
    going = λ x. (running, at_work);
    returned = λ x. absurd (ground (arith, x));
  }
  run-Settles (session ∷ sessions) s apart running at_work =
      let r = round py of_milliseconds o session s in
      let h = round-Settles session s apart.0 running in
      elim (Bool-cases r.alive) [
        | inl t ↦ rw t (run-Settles sessions r.source apart.1 (h.going t).0 (h.going t).1)
        | inr f ↦ rw f h
      ]

  -- The worker is at its next attempt, with the client connecting and not stopped, or it has returned
  -- and the client is closed.
  unfoldable pub IsSettled : Round Float → Type 0
  IsSettled r =
      ((r.alive ≡ true) × (r.source.stopped ≡ false) × (r.source.ready_state ≡ connecting))
      ⊎ ((r.alive ≡ false) × (r.source.ready_state ≡ closed))

  -- As long as no close is caught between its two writes, or between the look and the write of a
  -- setting of the state, whatever else happens in the rounds of a worker that starts connecting:
  -- while it is at work, the client is connecting and was not closed between two rounds, and once
  -- the worker has returned, because of a close, an answer or an exception, the client is closed.
  pub run-IsSettled :
      (sessions : List (Session Float)) (s : Source Float)
      → AllApart sessions
      → s.stopped ≡ false
      → s.ready_state ≡ connecting
      → IsSettled (run py of_milliseconds o sessions s)
  unfolding IsSettled
  run-IsSettled sessions s apart running at_work =
      let h = run-Settles sessions s apart running at_work in
      elim (Bool-cases (run py of_milliseconds o sessions s).alive) [
        | inl t ↦ inl (t, (h.going t).0, (h.going t).1)
        | inr f ↦ inr (f, h.returned f)
      ]
