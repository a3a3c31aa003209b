-- ===== src/Control/Ports.antt =====
-- The local ports that the client binds its streams to.
use expo_iperf.Common.{
  ℕ, zero, suc, ◌+◌, ◌^◌, ◌≤◌, ◌<◌, ◌≡◌, ◌≢◌, ◌∙◌, refl, ap, ap₂, arith, Bool, true, false, List,
  [], ◌∷◌, ◌++◌, append-nil,
}
use expo_iperf.Args.{Mode, sender, receiver, bidirectional}
use expo_iperf.Control.{
  Call, protocol_connect, ControlTest, Proc, ret, fail, call, read, ◌>>=◌, attach_stream,
  iperf_add_stream,
}
use expo_iperf.Control.Client.{stream_port, create_loop, iperf_create_streams, create_all}
use expo_iperf.Control.Session.Drive.{add_all, with_streams, stream_count}

abbrev port_of : Call → List ℕ
port_of (protocol_connect p) = p ∷ []
port_of _ = []

-- The ports of the streams that are connected in turn, if all calls succeed.
abbrev pub connect_ports : {A : Type 0} → Proc A → List ℕ
connect_ports (ret a) = []
connect_ports (fail t) = []
connect_ports (call c k) = port_of c ++ connect_ports (k true)
connect_ports (read k) = []

abbrev port_list : ℕ → ℕ → (ℕ → ℕ) → List ℕ
port_list zero i port = []
port_list (suc k) i port = port i ∷ port_list k (suc i) port

-- k ports from p on.
abbrev pub count_from : ℕ → ℕ → List ℕ
count_from p zero = []
count_from p (suc k) = p ∷ count_from (suc p) k

loop_lem :
    (k i : ℕ) (b : Bool) (t : ControlTest) (f : ControlTest → Proc ControlTest)
    → connect_ports (create_loop k i b t >>= f)
      ≡ port_list k i (stream_port t b)
        ++ connect_ports (f (with_streams t (add_all k b t.streams)))
unfolding create_loop attach_stream
loop_lem zero i b t f = refl
loop_lem (suc k) i b t f =
    ap (◌∷◌ (stream_port t b i))
      (loop_lem k (suc i) b (with_streams t (iperf_add_stream b t.streams)) f)

bind_ret : {A : Type 0} (p : Proc A) → connect_ports p ≡ connect_ports (p >>= (λ (a : A). ret a))
bind_ret (ret a) = refl
bind_ret (fail t) = refl
bind_ret (call c k) = ap (λ (l : List ℕ). port_of c ++ l) (bind_ret (k true))
bind_ret (read k) = refl

-- Ports in a row.
list_lem :
    (k i c p : ℕ) (port : ℕ → ℕ)
    → ((j : ℕ) → j < i + k → port j ≡ c + j)
    → c + i ≡ p
    → port_list k i port ≡ count_from p k
list_lem zero i c p port h e = refl
list_lem (suc k) i c p port h e =
    ap₂ (◌∷◌) (h i (omega arith) ∙ e)
      (list_lem k (suc i) c (suc p) port (λ j lt. h j (omega (arith, lt))) (omega arith))

count_from-add : (k l p q : ℕ) → q ≡ p + k → count_from p k ++ count_from q l ≡ count_from p (k + l)
count_from-add zero l p q e =
    let left : q ≡ p = omega arith in
    let right : l ≡ 0 + l = omega arith in
    ap (λ (n : ℕ). count_from n l) left ∙ ap (count_from p) right
count_from-add (suc k) l p q e =
    let right : suc (k + l) ≡ suc k + l = omega arith in
    ap (◌∷◌ p) (count_from-add k l (suc p) q (omega arith)) ∙ ap (count_from p) right

-- With a port to bind to, and as many ports from it on as there are streams (up to 65535), the
-- streams of the client are bound to that port and the following ones, each to one of its own, in
-- both directions too.
pub create_all-ports :
    (m : Mode) (t : ControlTest)
    → t.bind_port ≢ 0
    → t.bind_port + stream_count m t.num_streams ≤ 2 ^ 16
    → connect_ports (create_all (record t { mode = m }))
      ≡ count_from t.bind_port (stream_count m t.num_streams)
unfolding create_all iperf_create_streams
create_all-ports sender t h fits =
    let a = record t { mode = sender } in
    bind_ret (create_loop t.num_streams 0 true a)
    ∙ loop_lem t.num_streams 0 true a (λ b. ret b)
    ∙ append-nil _
    ∙ list_lem t.num_streams 0 t.bind_port t.bind_port (stream_port a true)
        (λ j lt. ground (arith, lt, h, fits)) (omega arith)
create_all-ports receiver t h fits =
    let a = record t { mode = receiver } in
    bind_ret (create_loop t.num_streams 0 false a)
    ∙ loop_lem t.num_streams 0 false a (λ b. ret b)
    ∙ append-nil _
    ∙ list_lem t.num_streams 0 t.bind_port t.bind_port (stream_port a false)
        (λ j lt. ground (arith, lt, h, fits)) (omega arith)
create_all-ports bidirectional t h fits =
    let a = record t { mode = bidirectional } in
    let n = t.num_streams in
    loop_lem n 0 true a (iperf_create_streams false)
    ∙ ap (λ (l : List ℕ). port_list n 0 (stream_port a true) ++ l)
        (bind_ret (create_loop n 0 false (with_streams a (add_all n true a.streams)))
          ∙ loop_lem n 0 false (with_streams a (add_all n true a.streams)) (λ b. ret b)
          ∙ append-nil _)
    ∙ ap₂ (◌++◌)
        (list_lem n 0 t.bind_port t.bind_port (stream_port a true)
          (λ j lt. ground (arith, lt, h, fits)) (omega arith))
        (list_lem n 0 (t.bind_port + n) (t.bind_port + n) (stream_port a false)
          (λ j lt. ground (arith, lt, h, fits)) (omega arith))
    ∙ count_from-add n n t.bind_port (t.bind_port + n) refl
