-- ===== src/Control/Session/Drive.antt =====
-- What a sequence of calls does when the calls succeed.
use expo_iperf.Common.{
  ℕ, zero, suc, ◌+◌, ◌≡◌, refl, Bool, true, false, not, List, [], ◌∷◌, arith, ◌∙◌, ap, ◌++◌,
  if_both, if◌then◌else◌,
}
use expo_iperf.Args.{is_receiver, Mode, sender, receiver, bidirectional}
use expo_iperf.Control.{
  StreamInfo, ControlTest, Call, set_state, state_byte, iperf_set_send_state, refuse, ie_totalrate,
  cpu_util, act, create_send_timers, Proc, ret, fail, call, read, ◌>>=◌, iperf_add_stream,
  attach_stream,
}
use expo_iperf.State.{State, test_start, test_running}
use expo_iperf.Control.Server.{or_cleanup, settle_listener, start_test, exceeds_limit}
use expo_iperf.Control.Client.{create_loop, iperf_create_streams, create_all}
use expo_iperf.Control.Session.{Outbox, note, drive, succeeds}

module _ (answer : Call → Bool) {A B : Type 0} where
  -- The second part goes on where the first one has ended.
  pub drive-bind :
      (p : Proc A) (f : A → Proc B) (o : Outbox) {o' : Outbox} {a : A}
      → drive answer p o ≡ (o', ret a)
      → drive answer (p >>= f) o ≡ drive answer (f a) o'
  unfolding drive
  drive-bind (ret b) f o e = cc
  drive-bind (fail t) f o e = cc
  drive-bind (call c k) f o e = drive-bind (k (answer c)) f (note c o) e
  drive-bind (read k) f o e = cc

-- Without a failure there is nothing to clean up.
pub drive-or_cleanup :
    {A : Type 0} (answer : Call → Bool) (p : Proc A) (o : Outbox) {o' : Outbox} {a : A}
    → drive answer p o ≡ (o', ret a)
    → drive answer (or_cleanup p) o ≡ (o', ret a)
unfolding drive
drive-or_cleanup answer (ret b) o e = e
drive-or_cleanup answer (fail t) o e = cc
drive-or_cleanup answer (call c k) o e = drive-or_cleanup answer (k (answer c)) (note c o) e
drive-or_cleanup answer (read k) o e = cc

-- The streams that are added in a row.
abbrev pub add_all : ℕ → Bool → List StreamInfo → List StreamInfo
add_all zero sends l = l
add_all (suc k) sends l = add_all k sends (iperf_add_stream sends l)

abbrev pub with_streams : ControlTest → List StreamInfo → ControlTest
with_streams t l = record t { streams = l }

abbrev pub connected : ℕ → Outbox → Outbox
connected k o = record o { connects = o.connects + k }

pub drive-create_loop :
    (k i : ℕ) (sends : Bool) (t : ControlTest) (o : Outbox)
    → drive succeeds (create_loop k i sends t) o
      ≡ (connected k o, ret (with_streams t (add_all k sends t.streams)))
unfolding drive create_loop attach_stream
drive-create_loop zero i sends t o =
    ap (λ (n : ℕ). (record o { connects = n }, ret t)) (omega arith)
drive-create_loop (suc k) i sends t o =
    drive-create_loop k (suc i) sends (with_streams t (iperf_add_stream sends t.streams))
      (record o { connects = suc o.connects })
    ∙ ap
        (λ (n : ℕ).
          (record o { connects = n }, ret (with_streams t (add_all (suc k) sends t.streams))))
        (omega arith)

-- The streams of the client, in the order in which it makes them.
abbrev pub client_list : Mode → ℕ → List StreamInfo
client_list sender n = add_all n true []
client_list receiver n = add_all n false []
client_list bidirectional n = add_all n false (add_all n true [])

abbrev pub stream_count : Mode → ℕ → ℕ
stream_count bidirectional n = n + n
stream_count _ n = n

pub drive-create_all :
    (m : Mode) (t : ControlTest) (o : Outbox)
    → drive succeeds (create_all (record t { mode = m; streams = [] })) o ≡ (
      connected (stream_count m t.num_streams) o,
      ret (record t { mode = m; streams = client_list m t.num_streams }),
    )
unfolding create_all iperf_create_streams
drive-create_all sender t o = drive-create_loop t.num_streams 0 true _ o
drive-create_all receiver t o = drive-create_loop t.num_streams 0 false _ o
drive-create_all bidirectional t o =
    let a = record t { mode = bidirectional; streams = [] } in
    let b = record a { streams = add_all t.num_streams true [] } in
    drive-bind succeeds (create_loop t.num_streams 0 true a) (iperf_create_streams false) o
      (drive-create_loop t.num_streams 0 true a o)
    ∙ drive-create_loop t.num_streams 0 false b (connected t.num_streams o)
    ∙ ap
        (λ (n : ℕ). (
          record o { connects = n },
          ret (record b { streams = client_list bidirectional t.num_streams }),
        ))
        (omega arith)

abbrev pub sent : State → Outbox → Outbox
sent s o = record o { messages = o.messages ++ (state_byte s ∷ []) }

-- What the server sends when the test starts.
abbrev pub announced : Outbox → Outbox
announced o = sent test_running (sent test_start o)

-- Both branches of a test do the same.
pub drive-if :
    (b : Bool) (p q : Proc ControlTest) (o : Outbox) {r : Outbox × Proc ControlTest}
    → drive succeeds p o ≡ r
    → drive succeeds q o ≡ r
    → drive succeeds (if b then p else q) o ≡ r
drive-if true p q o e f = e
drive-if false p q o e f = f

drive-settle_listener :
    (t : ControlTest) (o : Outbox) → drive succeeds (settle_listener t) o ≡ (o, ret t)
unfolding drive
drive-settle_listener t o = drive-if (not t.is_tcp) _ _ o refl (drive-if t.relisten _ _ o refl refl)

drive-send :
    (s : State) (t : ControlTest) (o : Outbox)
    → t.has_ctrl ≡ true
    → drive succeeds (iperf_set_send_state s t) o ≡ (sent s o, ret (set_state s t))
unfolding drive iperf_set_send_state
drive-send s t o h =
    if_both (λ (p : Proc ControlTest). drive succeeds p o ≡ (sent s o, ret (set_state s t)))
      t.has_ctrl _ _ (λ _. refl) (λ e. absurd (cc))

drive-check :
    (t : ControlTest) (o : Outbox)
    → exceeds_limit t ≡ false
    → drive succeeds (if exceeds_limit t then refuse ie_totalrate t else act cpu_util t) o
      ≡ (o, ret t)
unfolding drive
drive-check t o e =
    if_both (λ (p : Proc ControlTest). drive succeeds p o ≡ (o, ret t)) (exceeds_limit t) _ _
      (λ p. absurd (cc)) (λ _. refl)

pub drive-start_test :
    (t : ControlTest) (o : Outbox)
    → exceeds_limit t ≡ false
    → t.has_ctrl ≡ true
    → drive succeeds (start_test t) o ≡ (announced o, ret (set_state test_running t))
unfolding drive start_test
drive-start_test t o e h =
    drive-bind succeeds (settle_listener t) _ o (drive-settle_listener t o)
    ∙ drive-bind succeeds (if exceeds_limit t then refuse ie_totalrate t else act cpu_util t) _ o
        (drive-check t o e)
    ∙ drive-bind succeeds (iperf_set_send_state test_start t) _ o (drive-send test_start t o h)
    ∙ drive-bind succeeds
        (if is_receiver t.mode
          then ret (set_state test_start t)
          else act create_send_timers (set_state test_start t))
        _ (sent test_start o) (drive-if (is_receiver t.mode) _ _ _ refl refl)
    ∙ drive-bind succeeds (iperf_set_send_state test_running (set_state test_start t)) _
        (sent test_start o) (drive-send test_running (set_state test_start t) (sent test_start o) h)
