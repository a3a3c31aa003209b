-- ===== src/Examples/Reports.antt =====
-- Reports of a server with a limit on its total rate.
use expo_iperf.Common.{◌≡◌, none, some, [], ◌∷◌, replicate, arith}
use expo_iperf.Rate.{Limit, reset, iperf_check_total_rate, check_all}
use expo_iperf.Rate.Exceeded.{any_over, check_all_lem, check_all_overflow}
use expo_iperf.Examples.CommandLines.{whole}

check_all_lem_example :
    (t : Limit) × (check_all whole 1 (1000 ∷ 2000 ∷ 9000 ∷ []) (reset 20000 2) ≡ some t)
    × (t.exceeded ≡ any_over whole 1 2 20000 [] (1000 ∷ 2000 ∷ 9000 ∷ []))
check_all_lem_example =
    check_all_lem whole 1 2 20000 (1000 ∷ 2000 ∷ 9000 ∷ []) (ground arith) (ground arith)
      (λ e. ground arith) (ground arith)

-- An average over 60 seconds of reports that come every tenth of a second.
check_all_overflow_example :
    (t : Limit) × (check_all whole 1 (replicate 59 1000) (reset 20000 600) ≡ some t)
    × (iperf_check_total_rate whole 1 t 1000 ≡ none)
check_all_overflow_example =
    check_all_overflow whole 1 600 20000 (replicate 59 1000) 1000 (ground arith) (λ e. ground arith)
      (ground arith)
