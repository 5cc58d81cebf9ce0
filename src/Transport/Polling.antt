-- ===== src/Transport/Polling.antt =====
-- PollingTransport of configdirector-server-sdk/src/configdirector/_transport/polling.py: one fetch,
-- and the loop of the polling thread. What a request comes back with is an argument.
use python_server_sdk.Base.{
  ◌≡◌, refl, ap, ◌∙◌, ℕ, Bool, true, false, not, ◌&&◌, ◌||◌, Option, none, some, List, [], ◌∷◌,
  Text, nat_eq, ◌==◌, if◌then◌else◌, Error, Exc, Bool-cases, inl, inr,
}
use python_server_sdk.Base.Python.{Python}
use python_server_sdk.Base.Json.{Value}
use python_server_sdk.Client.{ConfigBundle}
use python_server_sdk.Bundle.{Conversions}
use python_server_sdk.Transport.{
  is_fatal_status, is_ok, Parsed, bundle, invalid, unexpected, parse_payload,
}

-- What a request comes back with: an unusable URL, no response or one that is too large, a response
-- whose body cannot be read to its end, with the exception of urllib3, which `HttpClient.post` of
-- _http.py lets through, or a status and what `json.loads` makes of the body.
pub data Response (F : Type 0) : Type 0 where
  unusable_url no_response too_large : Response F
  cut_off : Error → Response F
  responded : ℕ → Exc (Value F) → Response F

-- What the poller exchanges: a request, with the timestamp in its body, and a bundle that is handed
-- on.
pub data Exchange (F : Type 0) : Type 0 where
  requested : Option Text → Exchange F
  delivered : ConfigBundle F → Exchange F

-- The attributes that change, and what was exchanged, the last first.
pub record Poller (F : Type 0) : Type 0 where
  pub fatal : Bool
  pub stopped : Bool
  pub last_update_timestamp : Option Text
  pub exchanges : List (Exchange F)

-- How `_fetch` ends: it returns, or raises a `ConfigDirectorConnectionError` or another exception.
pub data Ending : Type 0 where
  returned connection_error : Ending
  other_error : Error → Ending

-- The timestamp is kept if the bundle has none.
unfoldable pub newer : Option Text → Option Text → Option Text
newer none old = old
newer (some t) old = some t

module _ {F : Type 0} where
  -- `_fail_fatally`, with the `close` that it makes
  unfoldable pub fail_fatally : Poller F → Poller F
  fail_fatally s = record s { fatal = true; stopped = true }

  unfoldable pub deliver : ConfigBundle F → Poller F → Poller F
  unfolding newer
  deliver b s = record s {
    last_update_timestamp = newer b.timestamp s.last_update_timestamp;
    exchanges = delivered b ∷ s.exchanges;
  }

  unfoldable pub on_parsed : Parsed F → Poller F → Poller F × Ending
  unfolding deliver
  on_parsed (bundle b) s = (deliver b s, returned)
  on_parsed invalid s = (s, connection_error)
  on_parsed (unexpected e) s = (s, other_error e)

module _ (py : Python) (conv : Conversions py.Float) where
  open py use {Float}

  unfoldable pub on_response : Response Float → Poller Float → Poller Float × Ending
  unfolding fail_fatally on_parsed
  on_response unusable_url s = (fail_fatally s, connection_error)
  on_response no_response s = (s, connection_error)
  on_response too_large s = (s, connection_error)
  on_response (cut_off e) s = (s, other_error e)
  on_response (responded status body) s =
      if not (is_ok status)
      then (if is_fatal_status (some status) then fail_fatally s else s, connection_error)
      else if status == 200
      then on_parsed (parse_payload py conv body) s
      else (s, returned)

  -- `_fetch`
  unfoldable pub fetch : Response Float → Poller Float → Poller Float × Ending
  unfolding on_response
  fetch r s =
      let t = record s { exchanges = requested s.last_update_timestamp ∷ s.exchanges } in
      if s.fatal then (s, returned) else on_response r t

  -- Whether the polling thread goes on after a fetch.
  unfoldable pub goes_on : Poller Float × Ending → Bool
  goes_on (s, other_error e) = false
  goes_on (s, _) = not s.fatal

  -- `_poll` over the responses that it gets, until it returns or is stopped
  unfoldable pub poll : List (Response Float) → Poller Float → Poller Float × Bool
  unfolding fetch goes_on
  poll [] s = (s, true)
  poll (r ∷ responses) s =
      let f = fetch r s in
      let more = poll responses f.0 in
      if s.stopped then (s, false) else if goes_on f then more else (f.0, false)

  -- The responses after which there is no other poll.
  unfoldable pub is_final : Response Float → Bool
  is_final unusable_url = true
  is_final no_response = false
  is_final too_large = false
  is_final (cut_off e) = true
  is_final (responded status body) =
      is_fatal_status (some status)
      || status == 200 && elim (parse_payload py conv body) [ unexpected e ↦ true | _ ↦ false ]

  pub any_final : List (Response Float) → Bool
  unfolding is_final
  any_final [] = false
  any_final (r ∷ responses) = is_final r || any_final responses

-- The timestamp of the last bundle handed on that has one.
unfoldable pub last_timestamp : {F : Type 0} → List (Exchange F) → Option Text
last_timestamp [] = none
last_timestamp (requested t ∷ exchanges) = last_timestamp exchanges
last_timestamp (delivered b ∷ exchanges) = elim b.timestamp [
  | some t ↦ some t
  | none ↦ last_timestamp exchanges
]

-- Each request carried the timestamp of the last bundle handed on before it that has one.
abbrev pub AllEcho : {F : Type 0} → List (Exchange F) → Type 0
AllEcho [] = Unit
AllEcho (requested t ∷ exchanges) = (t ≡ last_timestamp exchanges) × AllEcho exchanges
AllEcho (delivered b ∷ exchanges) = AllEcho exchanges

newer-timestamp :
    {F : Type 0} (t : Option Text) (exchanges : List (Exchange F))
    → newer t (last_timestamp exchanges)
      ≡ elim t [ some u ↦ some u | none ↦ last_timestamp exchanges ]
unfolding newer
newer-timestamp none exchanges = refl
newer-timestamp (some t) exchanges = refl

module _ (py : Python) (conv : Conversions py.Float) where
  open py use {Float}

  -- The requests so far echoed the bundles before them, and the next one will.
  pub record Echoes (s : Poller Float) : Type 0 where
    pub next : s.last_update_timestamp ≡ last_timestamp s.exchanges
    pub all : AllEcho s.exchanges

  on_parsed-Echoes : (p : Parsed Float) (s : Poller Float) → Echoes s → Echoes (on_parsed p s).0
  unfolding on_parsed deliver last_timestamp
  on_parsed-Echoes (bundle b) s h = record {
    next = ap (newer b.timestamp) h.next ∙ newer-timestamp b.timestamp s.exchanges;
    all = h.all;
  }
  on_parsed-Echoes invalid s h = h
  on_parsed-Echoes (unexpected e) s h = h

  on_response-Echoes :
      (r : Response Float) (s : Poller Float) → Echoes s → Echoes (on_response py conv r s).0
  unfolding on_response fail_fatally
  on_response-Echoes unusable_url s h = record { next = h.next; all = h.all }
  on_response-Echoes no_response s h = h
  on_response-Echoes too_large s h = h
  on_response-Echoes (cut_off e) s h = h
  on_response-Echoes (responded status body) s h = elim (Bool-cases (is_ok status)) [
    | inl fine ↦ rw fine (elim (Bool-cases (status == 200)) [
      | inl full ↦ rw full (on_parsed-Echoes (parse_payload py conv body) s h)
      | inr empty ↦ rw empty h
    ])
    | inr bad ↦ rw bad (elim (Bool-cases (is_fatal_status (some status))) [
      | inl fatal ↦ rw fatal (record { next = h.next; all = h.all })
      | inr other ↦ rw other h
    ])
  ]

  fetch-Echoes : (r : Response Float) (s : Poller Float) → Echoes s → Echoes (fetch py conv r s).0
  unfolding fetch last_timestamp
  fetch-Echoes r s h = either _ s.fatal (
      on_response-Echoes r
        (record s { exchanges = requested s.last_update_timestamp ∷ s.exchanges })
        (record { next = h.next; all = (h.next, h.all) }))
    where
      either :
          (f : Poller Float × Ending) (b : Bool)
          → Echoes f.0
          → Echoes (if b then (s, returned) else f).0
      either f true k = h
      either f false k = k

  -- Polling asks for what is newer: if each request of a poller so far carried the timestamp of the
  -- last bundle handed on before it that has one, none if there is no such bundle, and the next
  -- request would, as is so before the first, then the same holds after any responses.
  pub poll-Echoes :
      (responses : List (Response Float)) (s : Poller Float)
      → Echoes s
      → Echoes (poll py conv responses s).0
  unfolding poll
  poll-Echoes [] s h = h
  poll-Echoes (r ∷ responses) s h =
      let k = fetch-Echoes r s h in
      chosen (fetch py conv r s) _ s.stopped (goes_on py conv (fetch py conv r s))
        (poll-Echoes responses (fetch py conv r s).0 k) k
    where
      chosen :
          (f : Poller Float × Ending) (g : Poller Float × Bool) (b c : Bool)
          → Echoes g.0
          → Echoes f.0
          → Echoes (if b then (s, false) else if c then g else (f.0, false)).0
      chosen f g true c l k = h
      chosen f g false true l k = l
      chosen f g false false l k = k
