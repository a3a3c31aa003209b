-- ===== src/Examples/Datagrams.antt =====
-- Datagrams that are lost, late and refused, and the states of a test.
use expo_iperf.Common.{ℕ, ◌+◌, ◌≡◌, refl, true, List, [], ◌∷◌, length, arith}
use expo_iperf.Clock.{IperfTime}
use expo_iperf.Net.{bytes, soft_error}
use expo_iperf.Udp.{Sender}
use expo_iperf.Udp.Sending.{numbers, number_sent, count_up, numbers-count_up}
use expo_iperf.Udp.Sequence.{receive_all, fresh, highest, late, receive_all_lem}

-- The third datagram is lost, the second one comes late.
abbrev arrivals : List ℕ
arrivals = 1 ∷ 4 ∷ 2 ∷ 5 ∷ []

receive_all_lem_example :
    let c = receive_all arrivals fresh in
    (c.packet_count ≡ highest 0 arrivals)
    × (c.cnt_error + length arrivals ≡ highest 0 arrivals)
    × (c.outoforder_packets ≡ late 0 arrivals)
receive_all_lem_example = receive_all_lem arrivals (
  refl,
  ground arith,
  ground arith,
  (
    refl,
    ground arith,
    ground arith,
    (refl, ground arith, ground arith, (refl, ground arith, ground arith, tt)),
  ),
)

abbrev at_send : IperfTime
at_send = record { secs = 10; usecs = 900000 }

abbrev sender : Sender
sender = record {
  buffer = 0 ∷ 0 ∷ [];
  packet_count = 41;
  bytes_sent = 820;
  bytes_sent_this_interval = 820;
}

-- A send that fails leaves its number to the next one.
numbers-count_up_example :
    numbers true ((at_send, bytes 20) ∷ (at_send, soft_error) ∷ (at_send, bytes 20) ∷ []) sender
    ≡ count_up 42
        (number_sent ((at_send, bytes 20) ∷ (at_send, soft_error) ∷ (at_send, bytes 20) ∷ []))
numbers-count_up_example =
    numbers-count_up ((at_send, bytes 20) ∷ (at_send, soft_error) ∷ (at_send, bytes 20) ∷ []) sender
      (ground arith)
      (
        (ground arith, ground arith),
        ((ground arith, ground arith), ((ground arith, ground arith), tt)),
      )
      (ground arith)
