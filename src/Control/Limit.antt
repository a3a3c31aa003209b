-- ===== src/Control/Limit.antt =====
-- When the server starts a test: the limit on the total rate.
use expo_iperf.Common.{
  ℕ, ◌*◌, ◌^◌, ◌≤◌, ◌<◌, ◌≡◌, ◌≢◌, ◌⊎◌, inl, inr, refl, Bool, true, false, not, some, arith,
  if◌then◌else◌, if_both,
}
use expo_iperf.State.{test_running}
use expo_iperf.Control.{
  ie_totalrate, ie_listen, ControlTest, ret, set_state, is_bidirectional, refuse, act, cpu_util,
}
use expo_iperf.Control.Server.{exceeds_limit, settle_listener, start_test}
use expo_iperf.Control.Session.{Outbox, drive, succeeds}
use expo_iperf.Control.Session.Drive.{announced, drive-start_test}
use expo_iperf.Control.Ends.{Ends, Ends-bind}

-- The total rate that the client asks for.
abbrev pub asked_rate : ControlTest → ℕ
asked_rate t = t.num_streams * t.rate * (if is_bidirectional t.mode then 2 else 1)

abbrev pub IsRefused : ControlTest → Type 0
IsRefused t = (t.i_errno ≡ some ie_totalrate) ⊎ (t.i_errno ≡ some ie_listen)

settle_lem : (t : ControlTest) → Ends (λ a. a ≡ t) IsRefused (settle_listener t)
settle_lem t =
    let Q = Ends (λ (a : ControlTest). a ≡ t) IsRefused in
    if_both Q (not t.is_tcp) _ _ (λ _ _. refl)
      (λ _. if_both Q t.relisten _ _ (λ _ _. again) (λ _. refl))
  where
    again : (ok : Bool) → Ends (λ a. a ≡ t) IsRefused (if ok then ret t else refuse ie_listen t)
    again true = refl
    again false = inr refl

refused_lem : (t : ControlTest) → exceeds_limit t ≡ true → Ends (λ a. ⊥) IsRefused (start_test t)
unfolding start_test
refused_lem t e =
    Ends-bind (λ a. a ≡ t) (λ (a : ControlTest). ⊥) IsRefused (settle_listener t) _ (settle_lem t)
      λ a p.
        Ends-bind (λ (b : ControlTest). ⊥) (λ (b : ControlTest). ⊥) IsRefused
          (if exceeds_limit a then refuse ie_totalrate a else act cpu_util a) _
          (if_both (Ends (λ (b : ControlTest). ⊥) IsRefused) (exceeds_limit a) _ _ (λ _. inl refl)
            (λ q. absurd (cc)))
          λ b h. absurd h

-- With a control connection, and a total rate that fits in 64 bits: a rate within the limit, or no
-- limit, lets the test start, which the client is told by TEST_START and TEST_RUNNING; with a rate
-- above the limit, whatever the calls answer, the start fails with IETOTALRATE, or with IELISTEN
-- where the server could not listen anew.
pub start_test_lem :
    (t : ControlTest) (o : Outbox)
    → t.has_ctrl ≡ true
    → asked_rate t < 2 ^ 64
    → ((t.bitrate_limit ≡ 0) ⊎ (asked_rate t ≤ t.bitrate_limit)
        → drive succeeds (start_test t) o ≡ (announced o, ret (set_state test_running t)))
      × (t.bitrate_limit ≢ 0
          → t.bitrate_limit < asked_rate t
          → Ends (λ a. ⊥) IsRefused (start_test t))
start_test_lem t o h small =
    (λ w. drive-start_test t o (within w) h, λ p q. refused_lem t (ground arith))
  where
    within : (t.bitrate_limit ≡ 0) ⊎ (asked_rate t ≤ t.bitrate_limit) → exceeds_limit t ≡ false
    within (inl w) = ground arith
    within (inr w) = ground arith
