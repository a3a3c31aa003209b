-- ===== src/Double.antt =====
-- The `double` arithmetic of the C implementation, which this library does not define: the type and
-- the operations that the program uses are a parameter.
use expo_iperf.Common.{ℕ, Bool}
use expo_iperf.Clock.{IperfTime}

pub record Doubles : Type 1 where
  pub Double : Type 0
  pub of_ℕ : ℕ → Double
  pub add : Double → Double → Double
  pub sub : Double → Double → Double
  pub mul : Double → Double → Double
  pub div : Double → Double → Double
  pub is_less : Double → Double → Bool
  pub is_zero : Double → Bool
  pub round : Double → ℕ
  pub truncate : Double → ℕ  -- the conversion to `uint64_t`

module _ (D : Doubles) where
  open D use {Double, of_ℕ, add, div}

  unfoldable pub iperf_time_in_secs : IperfTime → Double
  iperf_time_in_secs t = add (of_ℕ t.secs) (div (of_ℕ t.usecs) (of_ℕ 1000000))
