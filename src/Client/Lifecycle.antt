-- ===== src/Client/Lifecycle.antt =====
-- What holds of a client whatever is called, in whatever order.
use python_server_sdk.Base.{◌≡◌, ◌≢◌, refl, true, false, Option, none, some, ℕ, Text, arith, ◌∙◌}
use python_server_sdk.Evaluation.Types.{Context}
use python_server_sdk.Client.{
  ClientEvent, client_ready, configs_updated, config_evaluated, ConfigBundle, Watcher, Client, new,
  apply_bundle, watch, unwatch, unwatch_all, remove_watcher, on, off, close,
}

module _ {F V : Type 0} where
  -- One operation under the lock, of any thread.
  pub data Step (c : Client F V) : Client F V → Type 0 where
    bundle_step : (bundle : ConfigBundle F) → Step c (apply_bundle bundle c).0
    watch_step :
        (key : Text) (default : V) (callback : ℕ) (context : Option (Context F))
        → Step c (watch key default callback context c).1
    unwatch_step : (key : Text) (callback : Option ℕ) → Step c (unwatch key callback c)
    unwatch_all_step : Step c (unwatch_all c)
    remove_watcher_step : (key : Text) (w : Watcher V (Context F)) → Step c (remove_watcher key w c)
    on_step : (event : ClientEvent) (handler : ℕ) → Step c (on event handler c)
    off_step : (event : ClientEvent) (handler : Option ℕ) → Step c (off event handler c)
    close_step : Step c (close c)

  pub data Reach (c : Client F V) : Client F V → Type 0 where
    here : Reach c c
    next : {d e : Client F V} → Reach c d → Step d e → Reach c e

  pub record IsConsistent (c : Client F V) : Type 0 where
    pub closed_unready : c.closed ≡ true → c.ready ≡ false
    pub ready_configured : c.ready ≡ true → c.configs ≢ none

  Step-IsConsistent : {c d : Client F V} → Step c d → IsConsistent c → IsConsistent d
  unfolding apply_bundle watch unwatch unwatch_all remove_watcher on off close
  Step-IsConsistent {c} (bundle_step b) h = record {
    closed_unready = ground (arith, h.closed_unready);
    ready_configured = ground (arith, h.ready_configured);
  }
  Step-IsConsistent (watch_step k d f x) h = record {
    closed_unready = h.closed_unready;
    ready_configured = h.ready_configured;
  }
  Step-IsConsistent (unwatch_step k none) h = record {
    closed_unready = h.closed_unready;
    ready_configured = h.ready_configured;
  }
  Step-IsConsistent (unwatch_step k (some f)) h = record {
    closed_unready = h.closed_unready;
    ready_configured = h.ready_configured;
  }
  Step-IsConsistent unwatch_all_step h = record {
    closed_unready = h.closed_unready;
    ready_configured = h.ready_configured;
  }
  Step-IsConsistent (remove_watcher_step k w) h = record {
    closed_unready = h.closed_unready;
    ready_configured = h.ready_configured;
  }
  Step-IsConsistent (on_step client_ready f) h = record {
    closed_unready = h.closed_unready;
    ready_configured = h.ready_configured;
  }
  Step-IsConsistent (on_step configs_updated f) h = record {
    closed_unready = h.closed_unready;
    ready_configured = h.ready_configured;
  }
  Step-IsConsistent (on_step config_evaluated f) h = record {
    closed_unready = h.closed_unready;
    ready_configured = h.ready_configured;
  }
  Step-IsConsistent {c} (off_step e f) h = record {
    closed_unready = ground (arith, h.closed_unready);
    ready_configured = ground (arith, h.ready_configured);
  }
  Step-IsConsistent {c} close_step h = record {
    closed_unready = ground (arith, h.closed_unready);
    ready_configured = ground (arith, h.ready_configured);
  }

  -- Of a new client, whatever is called on it: it is never ready once it is closed, and it is ready
  -- only if it has received configs.
  pub Reach-IsConsistent : {c : Client F V} → Reach new c → IsConsistent c
  unfolding new
  Reach-IsConsistent here = record { closed_unready = λ e. refl; ready_configured = λ e. cc e }
  Reach-IsConsistent (next r s) = Step-IsConsistent s (Reach-IsConsistent r)

  -- What a closed client keeps.
  pub record StaysClosed (c d : Client F V) : Type 0 where
    pub closed : d.closed ≡ true
    pub ready : d.ready ≡ c.ready
    pub configs : d.configs ≡ c.configs
    pub segments : d.segments ≡ c.segments

  Step-StaysClosed : {c d : Client F V} → Step c d → c.closed ≡ true → StaysClosed c d
  unfolding apply_bundle watch unwatch unwatch_all remove_watcher on off close
  Step-StaysClosed {c} (bundle_step b) h = record {
    closed = ground arith;
    ready = ground arith;
    configs = ground arith;
    segments = ground arith;
  }
  Step-StaysClosed (off_step e f) h = record {
    closed = ground arith;
    ready = ground arith;
    configs = ground arith;
    segments = ground arith;
  }
  Step-StaysClosed (on_step e f) h = record {
    closed = ground arith;
    ready = ground arith;
    configs = ground arith;
    segments = ground arith;
  }
  Step-StaysClosed (unwatch_step k f) h = record {
    closed = ground arith;
    ready = ground arith;
    configs = ground arith;
    segments = ground arith;
  }
  Step-StaysClosed _ h = record {
    closed = ground arith;
    ready = ground arith;
    configs = ground arith;
    segments = ground arith;
  }

  -- Closing is final: whatever is called on a closed client, it stays closed, does not become
  -- ready, and the configs and segments that it serves stay as they are.
  pub Reach-StaysClosed : {c d : Client F V} → Reach c d → c.closed ≡ true → StaysClosed c d
  Reach-StaysClosed here h = record { closed = h; ready = refl; configs = refl; segments = refl }
  Reach-StaysClosed (next r s) h =
      let before = Reach-StaysClosed r h in
      let step = Step-StaysClosed s before.closed in
      record {
        closed = step.closed;
        ready = step.ready ∙ before.ready;
        configs = step.configs ∙ before.configs;
        segments = step.segments ∙ before.segments;
      }
