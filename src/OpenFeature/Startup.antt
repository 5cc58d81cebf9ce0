-- ===== src/OpenFeature/Startup.antt =====
-- The interleavings of the threads of a provider that starts, provider.py: the one that initializes
-- it, the client's, the readiness check and the one that shuts it down, which here does not wait for the
-- check.
use python_server_sdk.Base.{◌≡◌, refl, ℕ, ◌≤◌, Bool, true, false, ◌&&◌, ◌||◌, eqb, arith}
use python_server_sdk.OpenFeature.{
  Phase, initializing, awaiting_recorded_failure, awaiting_config, ready, Check, not_started,
  waiting, reporting, returned, Notice, to_come, due, handled, Provider, new,
  report_ready_if_config_arrived, finish_initialize, on_client_ready, await_config, end_check,
  close_client,
}

-- One step of one thread. A provider is initialized once.
pub data Step : Provider → Provider → Type 0 where
  -- the client gets its first bundle, and is ready
  receive :
      (p : Provider)
      → p.client_ready ≡ false
      → p.client_closed ≡ false
      → p.notice ≡ to_come
      → Step p (record p { client_ready = true; notice = due })
  notify : (p : Provider) → p.notice ≡ due → Step p (on_client_ready p)
  initialize : (p : Provider) → p.phase ≡ initializing → Step p (finish_initialize p)
  record_failure :
      (p : Provider)
      → p.phase ≡ awaiting_recorded_failure
      → Step p (record p { failure_recorded = true })
  see_failure :
      (p : Provider) → p.check ≡ waiting → p.failure_recorded ≡ true → Step p (await_config p)
  report : (p : Provider) → p.check ≡ reporting → Step p (end_check p)
  begin_shutdown : (p : Provider) → Step p (record p { shut_down = true })
  leave_check :
      (p : Provider)
      → p.check ≡ waiting
      → p.shut_down ≡ true
      → Step p (record p { check = returned })
  close : (p : Provider) → p.shut_down ≡ true → Step p (close_client p)

pub data Reach : Provider → Type 0 where
  start : Reach new
  step : (p q : Provider) → Reach p → Step p q → Reach q

-- What the phase says of the check, of the failure and of the number of ready events.
unfoldable pub fits : Phase → Check → Bool → ℕ → Bool
fits initializing not_started recorded events = eqb events 0
fits awaiting_recorded_failure waiting recorded events = eqb events 0
fits awaiting_recorded_failure returned recorded events = eqb events 0
fits awaiting_config reporting recorded events = recorded && eqb events 0
fits awaiting_config returned recorded events = recorded && eqb events 0
fits ready waiting recorded events = false
fits ready check recorded events = eqb events 0 || (eqb events 1 && recorded)
fits _ _ recorded events = false

-- If the provider waits for config and the client is ready, a report is still to be made.
unfoldable pub is_heard : Phase → Check → Bool → Notice → Bool
is_heard phase check true to_come = false
is_heard awaiting_config returned true handled = false
is_heard _ _ _ _ = true

unfoldable pub is_orderly : Provider → Bool
is_orderly p =
    fits p.phase p.check p.failure_recorded p.ready_events
    && is_heard p.phase p.check p.client_ready p.notice

Step-IsOrderly : (p q : Provider) → Step p q → is_orderly p ≡ true → is_orderly q ≡ true
unfolding is_orderly fits is_heard report_ready_if_config_arrived finish_initialize on_client_ready
    await_config end_check close_client
Step-IsOrderly _ _ (receive p r c n) h =
    received p.phase p.check p.failure_recorded p.ready_events h
  where
    received :
        (a : Phase) (b : Check) (r : Bool) (n : ℕ)
        → (fits a b r n && is_heard a b p.client_ready p.notice) ≡ true
        → (fits a b r n && is_heard a b true due) ≡ true
    received a b r n h = ground (arith, h)
Step-IsOrderly _ _ (notify p n) h = ground (arith, n, h)
Step-IsOrderly _ _ (initialize p e) h = ground (arith, e, h)
Step-IsOrderly _ _ (record_failure p e) h = ground (arith, e, h)
Step-IsOrderly _ _ (see_failure p c f) h = ground (arith, c, f, h)
Step-IsOrderly _ _ (report p c) h = ground (arith, c, h)
Step-IsOrderly _ _ (begin_shutdown p) h = h
Step-IsOrderly _ _ (leave_check p c s) h = ground (arith, c, h)
Step-IsOrderly _ _ (close p s) h = ground (arith, h)

Reach-IsOrderly : (p : Provider) → Reach p → is_orderly p ≡ true
unfolding is_orderly fits is_heard new
Reach-IsOrderly _ start = refl
Reach-IsOrderly _ (step p q reach s) = Step-IsOrderly p q s (Reach-IsOrderly p reach)

-- The provider waits for config, which its client has, and nobody is left to report it.
unfoldable pub is_stranded : Phase → Check → Bool → Notice → Bool
is_stranded awaiting_config returned true handled = true
is_stranded _ _ _ _ = false

unfoldable pub is_ready_phase : Phase → Bool
is_ready_phase ready = true
is_ready_phase _ = false

pub record IsAnnounced (p : Provider) : Type 0 where
  pub not_stranded : is_stranded p.phase p.check p.client_ready p.notice ≡ false
  pub once : p.ready_events ≤ 1
  pub after_failure : (eqb p.ready_events 0 || p.failure_recorded) ≡ true
  pub in_phase : (eqb p.ready_events 0 || is_ready_phase p.phase) ≡ true

announced : (p : Provider) → is_orderly p ≡ true → IsAnnounced p
unfolding is_orderly fits is_heard is_stranded is_ready_phase
announced p h = record {
  not_stranded = ground (arith, h);
  once = ground (arith, h);
  after_failure = ground (arith, h);
  in_phase = ground (arith, h);
}

-- However the steps of the threads of a provider are interleaved, config that arrives after the
-- initialization failed is never left unreported: there is no state where the provider waits for
-- config that its client has, while the check has returned and the client's notice is handled. At
-- most one ready event is emitted, only once OpenFeature has recorded the failure, and the
-- provider is then ready.
pub Reach-IsAnnounced : (p : Provider) → Reach p → IsAnnounced p
Reach-IsAnnounced p reach = announced p (Reach-IsOrderly p reach)
