-- ===== src/EventSource/Worker/Retries.antt =====
-- The worker does not give up on its own, and what it waits between two attempts.
use python_server_sdk.Base.{ℕ, ◌≡◌, ◌≢◌, true, false, Option, some, List, [], ◌∷◌, Exc, ok}
use python_server_sdk.Base.Python.{Python}
use python_server_sdk.EventSource.Parser.{Options, Parser, ◌>>=◌ as and_then}
use python_server_sdk.EventSource.Worker.{
  nothing, Source, Failure, answered, Read, Session, reconnect_delay, yes_unless,
}

-- No `close` lands while the texts are read.
abbrev pub AllOpen : List Read → Type 0
AllOpen [] = Unit
AllOpen (r ∷ reads) = (r.closes ≡ nothing) × AllOpen reads

module _ (py : Python) (of_milliseconds : ℕ → Exc py.Float) (o : Options) where
  open py use {Float}

  -- An attempt that nobody closes, that the server does not end with a 204, after which
  -- `should_reconnect` does not say no, and whose delay, which the server's can stand in for, makes
  -- neither `float` nor the wait raise.
  pub record IsRetried (session : Session Float) : Type 0 where
    pub open_opening : session.closes_opening ≡ nothing
    pub open_published : session.closes_published ≡ nothing
    pub open_starting : session.closes_starting ≡ nothing
    pub open_setting_open : session.closes_setting_open ≡ nothing
    pub open_reads : AllOpen session.reads
    pub open_ending : session.closes_ending ≡ nothing
    pub open_read : session.closes_read ≡ nothing
    pub open_failed : session.closes_failed ≡ nothing
    pub open_asked : session.closes_asked ≡ nothing
    pub open_setting_connecting : session.closes_setting_connecting ≡ nothing
    pub open_waiting : session.closes_waiting ≡ nothing
    pub content : session.opening ≢ answered 204
    pub reconnects : yes_unless session.reconnects ≡ true
    pub delays :
        (s : Source Float)
        → (p : Float × Source Float) × (reconnect_delay py of_milliseconds o session.delay s ≡ ok p)
          × (py.float_lt py.timeout_max p.0 ≡ false)

  -- An attempt that has failed, with the client not stopped.
  HasFailed : Source Float × Option Failure → Type 0
  HasFailed r = (f : Failure) × (r.1 ≡ some f) × (r.0.stopped ≡ false)

  abbrev pub AllRetried : List (Session Float) → Type 0
  AllRetried [] = Unit
  AllRetried (session ∷ sessions) = IsRetried session × AllRetried sessions
