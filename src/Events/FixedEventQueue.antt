-- ===== src/Events/FixedEventQueue.antt =====
-- lib/pimc/events/FixedEventQueue.hpp. The handlers are code of the client: what they keep and share
-- is one state `S`, which `ready` may change too.
use pimc_toolkit.Common.{ℕ, ◌+◌, ◌%◌, ◌^◌, List, [], ◌∷◌, Bool, true, false}
use pimc_toolkit.Core.Result.{Result, ok, err}

pub record EventHandler (S E : Type 0) : Type 0 where
  pub ready : S → S × Bool
  pub fire : S → S × Result (Unit {0}) E

-- `if (eh.ready())`
abbrev pub when_ready {ℓ κ} : {S : Type ℓ} {A : Type κ} → S × Bool → (S → A) → (S → A) → A
when_ready (s, true) fires skips = fires s
when_ready (s, false) fires skips = skips s

module _ {S E : Type 0} where
  -- `if (r)`, or the error returned.
  abbrev pub when_fired : S × Result (Unit {0}) E → (S → S × Result ℕ E) → S × Result ℕ E
  when_fired (s, ok _) continues = continues s
  when_fired (s, err e) continues = (s, err e)

  -- `chainEvents<Idx>` on the handlers from `Idx` on; `count` is an unsigned of 32 bits.
  unfoldable pub chain_events : List (EventHandler S E) → ℕ → S → S × Result ℕ E
  chain_events [] count s = (s, ok count)
  chain_events (eh ∷ rest) count s =
      when_ready (eh.ready s)
        (λ s1. when_fired (eh.fire s1) (λ s2. chain_events rest ((count + 1) % 2 ^ 32) s2))
        (λ s1. chain_events rest count s1)

  unfoldable pub run_once : List (EventHandler S E) → S → S × Result ℕ E
  unfolding chain_events
  run_once handlers s = chain_events handlers 0 s
