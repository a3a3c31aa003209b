-- ===== src/Control/Session/Outcome.antt =====
-- What every session comes to, whatever the order of its actions.
use expo_iperf.Common.{ℕ, ◌+◌, ◌≡◌, Bool, true, false, Option, none, List, [], ◌∷◌, map}
use mathlib.Core.Option
use expo_iperf.State.{iperf_done}
use expo_iperf.Control.{ControlTest, Proc, ret, fail}
use expo_iperf.Control.Client
use expo_iperf.Control.Server
use expo_iperf.Control.Server.{Serving}
use expo_iperf.Control.Session.{Session, Action, Setup}
use expo_iperf.Control.Session.Stages.{Stage, session_at}
use expo_iperf.Control.Session.Stages.Fitting.{IsFine, Fits}
use expo_iperf.Control.Session.Stages.Rank.{rank, weight}
use expo_iperf.Control.Session.Opposite.{opposite}

abbrev pub fails : {A : Type 0} → Proc A → Bool
fails (fail t) = true
fails _ = false

-- Neither end has failed.
abbrev pub BothRun : Session → Type 0
BothRun s = (fails s.client_side ≡ false) × (fails s.server_side ≡ false)

-- Both ends have left their loops in the state IPERF_DONE without an error, nothing is left between
-- them, and the streams of the one are the other ends of those of the other.
pub record IsOver (s : Session) : Type 0 where
  pub client_test : ControlTest
  pub serving : Serving
  pub client_ends : s.client_side ≡ ret client_test
  pub server_ends : s.server_side ≡ ret serving
  pub client_done : client_test.state ≡ iperf_done
  pub server_done : serving.test.state ≡ iperf_done
  pub no_client_error : client_test.i_errno ≡ none
  pub no_server_error : serving.test.i_errno ≡ none
  pub all_read : (s.to_client ≡ []) × (s.to_server ≡ [])
  pub all_accepted : s.waiting ≡ 0
  pub same_streams : serving.test.streams ≡ map opposite client_test.streams

-- How many of the actions are those of the two ends.
abbrev pub own_actions : List Action → ℕ
own_actions [] = 0
own_actions (a ∷ l) = weight a + own_actions l

module _ (u : Setup) (f : IsFine u) where
  -- The session is at a stage, which as many own actions lead to as the rank has fallen.
  abbrev Behind : ℕ → Stage → Session → Type 0
  Behind n σ s = (τ : Stage) × Fits u τ × (s ≡ session_at u τ) × (n + rank u τ ≡ rank u σ)
