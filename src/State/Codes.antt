-- ===== src/State/Codes.antt =====
-- Every byte names one state.
use expo_iperf.Common.{ℕ, ◌≡◌, arith}
use expo_iperf.State.{to_byte, of_byte}

-- A byte that is read and sent on is the same byte.
pub to_byte-of_byte : (b : ℕ) → to_byte (of_byte b) ≡ b
unfolding to_byte of_byte
to_byte-of_byte b = ground arith
