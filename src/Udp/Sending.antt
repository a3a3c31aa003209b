-- ===== src/Udp/Sending.antt =====
-- The numbers of the datagrams that reach the network.
use expo_iperf.Common.{
  ℕ, zero, suc, ◌+◌, ◌^◌, ◌<◌, ◌≡◌, refl, sym, ap, ap₂, ◌∙◌, Bool, true, false, if◌then◌else◌, List,
  [], ◌∷◌, ◌++◌, length, All, Bool-cases, inl, inr, arith, u64, drop,
}
use expo_iperf.Clock.{IperfTime}
use expo_iperf.Net.{NetResult, bytes, soft_error, hard_error}
use expo_iperf.Udp.{Sender, header, read_header, prepare, account, iperf_udp_send}
use expo_iperf.Udp.Header.{read_header-header}

abbrev pub is_sent : NetResult → Bool
is_sent (bytes (suc r)) = true
is_sent _ = false

abbrev pub sent_bytes : NetResult → ℕ
sent_bytes (bytes r) = r
sent_bytes _ = 0

account_lem :
    (r : NetResult) (sp : Sender)
    → sp.bytes_sent < 2 ^ 64
    → 0 < sp.packet_count
    → sp.packet_count < 2 ^ 64
    → ((account r sp).packet_count + 1 ≡ sp.packet_count + (if is_sent r then 1 else 0))
      × ((account r sp).bytes_sent ≡ u64 (sp.bytes_sent + sent_bytes r))
      × ((account r sp).buffer ≡ sp.buffer)
unfolding account
account_lem (bytes zero) sp h k l = (omega arith, omega arith, refl)
account_lem (bytes (suc r)) sp h k l = (omega arith, omega arith, refl)
account_lem soft_error sp h k l = (omega arith, omega arith, refl)
account_lem hard_error sp h k l = (omega arith, omega arith, refl)

-- Sending counts the bytes that `Nwrite` reports, modulo 2 ^ 64, and counts a datagram exactly if it took a byte of
-- it; a datagram that failed leaves its number to the next one. The result is that of `Nwrite`.
pub iperf_udp_send_lem :
    (nwrite : List ℕ → NetResult) (wide : Bool) (before : IperfTime) (sp : Sender)
    → sp.packet_count + 1 < 2 ^ 64
    → sp.bytes_sent < 2 ^ 64
    → let (r, sp') = iperf_udp_send nwrite wide before sp in
      (r ≡ nwrite sp'.buffer)
      × (sp'.packet_count ≡ sp.packet_count + (if is_sent r then 1 else 0))
      × (sp'.bytes_sent ≡ u64 (sp.bytes_sent + sent_bytes r))
      × (sp'.buffer
          ≡ header wide before (sp.packet_count + 1) ++ drop (if wide then 16 else 12) sp.buffer)
unfolding iperf_udp_send
iperf_udp_send_lem nwrite wide before sp h k =
    let ready = prepare wide before sp in
    let next : u64 (sp.packet_count + 1) ≡ sp.packet_count + 1 = omega arith in
    let count : ready.packet_count ≡ sp.packet_count + 1 = unfold prepare in next in
    let (packets, sent, buffer) =
      account_lem (nwrite ready.buffer) ready (unfold prepare in k) (omega arith) (omega arith) in
    (
      ap nwrite (sym buffer),
      omega arith,
      unfold prepare in sent,
      buffer
          ∙ unfold prepare in
            ap (λ n. header wide before n ++ drop (if wide then 16 else 12) sp.buffer) next,
    )

-- Any number of sends, with the time and the result of `Nwrite` of each: the sequence numbers that
-- a receiver reads from the datagrams that were sent.
pub numbers : Bool → List (IperfTime × NetResult) → Sender → List ℕ
numbers wide [] sp = []
numbers wide ((before, result) ∷ sends) sp =
    let sp' = (iperf_udp_send (λ _. result) wide before sp).1 in
    let rest = numbers wide sends sp' in
    if is_sent result then (read_header wide sp'.buffer).1 ∷ rest else rest

abbrev pub number_sent : List (IperfTime × NetResult) → ℕ
number_sent [] = 0
number_sent ((before, result) ∷ sends) = (if is_sent result then 1 else 0) + number_sent sends

-- `k` numbers from `n` on.
abbrev pub count_up : ℕ → ℕ → List ℕ
count_up n zero = []
count_up n (suc k) = n ∷ count_up (n + 1) k

count_up_suc : (n k : ℕ) → count_up n (1 + k) ≡ n ∷ count_up (n + 1) k
count_up_suc n k = let e : 1 + k ≡ suc k = omega arith in ap (count_up n) e

abbrev grow : Sender → Bool → ℕ
grow sp b = sp.packet_count + (if b then 1 else 0)

-- The datagrams that reach the network carry consecutive numbers, whichever sends fail in between.
pub numbers-count_up :
    (sends : List (IperfTime × NetResult)) (sp : Sender)
    → sp.bytes_sent < 2 ^ 64
    → All (λ s. (s.0.secs < 2 ^ 32) × (s.0.usecs < 2 ^ 32)) sends
    → sp.packet_count + length sends < 2 ^ 64
    → numbers true sends sp ≡ count_up (sp.packet_count + 1) (number_sent sends)
unfolding numbers
numbers-count_up [] sp b h k = refl
numbers-count_up ((before, result) ∷ sends) sp b h k =
    let (same, packets, sent, buffer) =
      iperf_udp_send_lem (λ _. result) true before sp (omega arith) b in
    let next = (iperf_udp_send (λ _. result) true before sp).1 in
    let rest = numbers-count_up sends next (omega arith) h.1 (ground arith) in
    let seen =
      ap (λ buf. (read_header true buf).1) buffer
      ∙ (read_header-header true before (sp.packet_count + 1) (drop 16 sp.buffer) h.0.0 h.0.1
          (omega arith)).2 in
    elim (Bool-cases (is_sent result)) [
      | inl e ↦
          let more : next.packet_count ≡ sp.packet_count + 1 =
            packets
            ∙ ap (λ r. sp.packet_count + (if is_sent r then 1 else 0)) same
            ∙ ap (grow sp) e in
          rw e (
            ap₂ ◌∷◌ seen (rest ∙ ap (λ m. count_up (m + 1) (number_sent sends)) more)
            ∙ sym (count_up_suc (sp.packet_count + 1) (number_sent sends)))
      | inr e ↦
          let equal : next.packet_count ≡ sp.packet_count =
            packets
            ∙ ap (λ r. sp.packet_count + (if is_sent r then 1 else 0)) same
            ∙ ap (grow sp) e
            ∙ omega arith in
          rw e (
            rest
            ∙ ap (λ m. count_up (m + 1) (number_sent sends)) equal
            ∙ ap (count_up (sp.packet_count + 1)) (omega arith))
    ]
