-- ===== src/Udp/Header.antt =====
-- The header of a datagram is read back as it was written.
use expo_iperf.Common.{
  ℕ, ◌+◌, ◌*◌, ◌/◌, ◌%◌, ◌^◌, ◌<◌, ◌≡◌, ◌∙◌, Bool, true, false, if◌then◌else◌, List, ◌++◌, arith,
  u32,
}
use expo_iperf.Clock.{IperfTime}
use expo_iperf.Udp.{header, read_header}

-- The number that four bytes make up.
abbrev of_be32 : ℕ → ℕ
of_be32 n =
    n / 2 ^ 24 % 256 * 2 ^ 24 + n / 2 ^ 16 % 256 * 2 ^ 16 + n / 2 ^ 8 % 256 * 2 ^ 8 + n % 256

be32_parts : (n : ℕ) → of_be32 n ≡ n % 2 ^ 32
be32_parts n = omega arith

be64_parts : (n : ℕ) → n < 2 ^ 64 → of_be32 (n / 2 ^ 32) * 2 ^ 32 + of_be32 n ≡ n
be64_parts n h = rw (be32_parts (n / 2 ^ 32), be32_parts n) (omega arith)

-- The receiver reads the time of sending and the sequence number that the sender wrote, all 64 bits
-- of the number with wide counters, the low 32 bits otherwise.
pub read_header-header :
    (wide : Bool) (before : IperfTime) (pcount : ℕ) (rest : List ℕ)
    → before.secs < 2 ^ 32
    → before.usecs < 2 ^ 32
    → pcount < 2 ^ 64
    → let (sent, seen) = read_header wide (header wide before pcount ++ rest) in
      (sent.secs ≡ before.secs)
      × (sent.usecs ≡ before.usecs)
      × (seen ≡ (if wide then pcount else u32 pcount))
unfolding header read_header
read_header-header true before pcount rest hs hu hp = (
  be32_parts before.secs ∙ omega arith,
  be32_parts before.usecs ∙ omega arith,
  be64_parts pcount hp,
)
read_header-header false before pcount rest hs hu hp = (
  be32_parts before.secs ∙ omega arith,
  be32_parts before.usecs ∙ omega arith,
  be32_parts (u32 pcount) ∙ omega arith,
)
