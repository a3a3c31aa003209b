-- ===== src/Control/Session/Stages/Server.antt =====
-- What the server does with a stream that it accepts, by whether the stream is the last one.
use expo_iperf.Common.{◌+◌, ◌==◌, ◌≡◌, refl, Bool, true, false, not, arith, if_both}
use expo_iperf.State.{test_running}
use expo_iperf.Control.{Call, ControlTest, Proc, ret, set_state, attach_stream, iperf_add_stream}
use expo_iperf.Control.Server.{
  Serving, with_test, assign_stream, all_accepted, exceeds_limit, start_test, start_if_complete,
}
use expo_iperf.Control.Session.{Outbox, drive, succeeds}
use expo_iperf.Control.Session.Drive.{drive-bind, drive-start_test, announced}

pub drive_incomplete :
    (answer : Call → Bool) (v : Serving) (o : Outbox)
    → all_accepted v ≡ false
    → drive answer (start_if_complete v) o ≡ (o, ret v)
unfolding drive start_if_complete
drive_incomplete answer v o e =
    if_both (λ (p : Proc Serving). drive answer p o ≡ (o, ret v)) (all_accepted v) _ _
      (λ h. absurd (cc)) (λ _. refl)

pub drive_complete :
    (v : Serving) (o : Outbox)
    → all_accepted v ≡ true
    → exceeds_limit v.test ≡ false
    → v.test.has_ctrl ≡ true
    → drive succeeds (start_if_complete v) o
      ≡ (announced o, ret (record v { test = set_state test_running v.test }))
unfolding drive start_if_complete
drive_complete v o e f h =
    if_both
      (λ (p : Proc Serving).
        drive succeeds p o ≡ (announced o, ret (record v { test = set_state test_running v.test })))
      (all_accepted v) _ _
      (λ _. drive-bind succeeds (start_test v.test) (with_test v) o (drive-start_test v.test o f h))
      (λ q. absurd (cc))

abbrev pub with_stream : Bool → ControlTest → ControlTest
with_stream sends t = record t { streams = iperf_add_stream sends t.streams }

abbrev pub received : Serving → Serving
received v = record v {
  test = with_stream false v.test;
  rec_streams_accepted = v.rec_streams_accepted + 1;
}

abbrev pub sending : Serving → Serving
sending v = record v {
  test = with_stream true v.test;
  send_streams_accepted = v.send_streams_accepted + 1;
}

pub drive-received :
    (v : Serving) (o : Outbox)
    → (v.rec_streams_accepted == v.streams_to_rec) ≡ false
    → drive succeeds (assign_stream v) o ≡ (o, ret (received v))
unfolding drive assign_stream attach_stream
drive-received v o e =
    if_both (λ (p : Proc Serving). drive succeeds p o ≡ (o, ret (received v)))
      (not (v.rec_streams_accepted == v.streams_to_rec)) _ _ (λ _. refl)
      (λ h. absurd (ground arith))

pub drive-sending :
    (v : Serving) (o : Outbox)
    → (v.rec_streams_accepted == v.streams_to_rec) ≡ true
    → (v.send_streams_accepted == v.streams_to_send) ≡ false
    → drive succeeds (assign_stream v) o ≡ (o, ret (sending v))
unfolding drive assign_stream attach_stream
drive-sending v o e f =
    let Q = λ (p : Proc Serving). drive succeeds p o ≡ (o, ret (sending v)) in
    if_both Q (not (v.rec_streams_accepted == v.streams_to_rec)) _ _ (λ h. absurd (ground arith))
      (λ _.
        if_both Q (not (v.send_streams_accepted == v.streams_to_send)) _ _ (λ _. refl)
          (λ h. absurd (ground arith)))
