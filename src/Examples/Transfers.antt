-- ===== src/Examples/Transfers.antt =====
-- Transfers in pieces.
use expo_iperf.Common.{◌≡◌, refl, true, false, some, List, [], ◌∷◌, arith}
use expo_iperf.Clock.{IperfTime, iperf_time_compare, iperf_time_add_usecs}
use expo_iperf.Net.{
  eintr, bytes, as_int, ReadResult, got, Received, recv_loop, nrecv_no_select, is_over, readable,
  timed_out, Round, read_loop, nread, WriteResult, wrote, write_failed, Written, write_loop, nwrite,
}
use expo_iperf.Net.Recv.{delivered, IsPrefixOf, nrecv_no_select-IsPrefixOf, nrecv_no_select_full}
use expo_iperf.Net.Select.{reads_of, IsReadOf, nread-IsReadOf}
use expo_iperf.Net.Write.{SentPrefix, nwrite-SentPrefix, nwrite_full}

-- A block in two pieces.
abbrev reads : List ReadResult
reads = got (1 ∷ 2 ∷ []) 2 ∷ got (3 ∷ []) 1 ∷ []

abbrev all_read : Received ReadResult
all_read = record { result = bytes 3; stored = 1 ∷ 2 ∷ 3 ∷ []; to_come = [] }

reads_run : nrecv_no_select false 3 reads ≡ some all_read
unfolding nrecv_no_select recv_loop as_int
reads_run = refl

nrecv_no_select-IsPrefixOf_example : IsPrefixOf 3 (delivered reads) all_read
nrecv_no_select-IsPrefixOf_example =
    nrecv_no_select-IsPrefixOf 3 reads {r = all_read} (ground arith)
      (refl, ground arith, (refl, ground arith, tt)) reads_run

nrecv_no_select_full_example :
    (r : Received ReadResult) × (nrecv_no_select false 3 reads ≡ some r) × (r.result ≡ bytes 3)
nrecv_no_select_full_example =
    nrecv_no_select_full 3 reads (ground arith) (refl, ground arith, (refl, ground arith, tt))
      (ground arith, (ground arith, tt)) (ground arith)

abbrev round : Round
round = record {
  read = got (1 ∷ 2 ∷ []) 2;
  now = record { secs = 5; usecs = 0 };
  select = timed_out;
}

abbrev partly_read : Received Round
partly_read = record { result = bytes 2; stored = 1 ∷ 2 ∷ []; to_come = [] }

round_runs : nread 3 readable (round ∷ []) ≡ some partly_read
unfolding nread read_loop iperf_time_compare iperf_time_add_usecs as_int
round_runs = refl

nread-IsReadOf_example : IsReadOf 3 (delivered (reads_of (round ∷ []))) partly_read
nread-IsReadOf_example =
    nread-IsReadOf 3 readable (round ∷ []) {r = partly_read} (ground arith) (refl, ground arith, tt)
      round_runs

abbrev ftimeout : IperfTime
ftimeout = record { secs = 4; usecs = 0 }

deadline_runs :
    read_loop 3 3 [] ftimeout (round ∷ round ∷ [])
    ≡ some (record partly_read { to_come = round ∷ [] })
unfolding read_loop iperf_time_compare as_int
deadline_runs = refl

is_late : is_over ftimeout round.now ≡ true
unfolding iperf_time_compare
is_late = refl

abbrev writes : List WriteResult
writes = wrote 2 ∷ wrote 1 ∷ []

abbrev interrupted : List WriteResult
interrupted = wrote 2 ∷ write_failed eintr ∷ []

abbrev partly_sent : Written
partly_sent = record { result = bytes 2; sent = 7 ∷ 8 ∷ [] }

interrupted_runs : nwrite (7 ∷ 8 ∷ 9 ∷ []) interrupted ≡ some partly_sent
unfolding nwrite write_loop as_int
interrupted_runs = refl

nwrite-SentPrefix_example : SentPrefix (7 ∷ 8 ∷ 9 ∷ []) partly_sent
nwrite-SentPrefix_example =
    nwrite-SentPrefix (7 ∷ 8 ∷ 9 ∷ []) interrupted {w = partly_sent} (ground arith)
      (ground arith, tt) interrupted_runs

nwrite_full_example :
    nwrite (7 ∷ 8 ∷ 9 ∷ []) writes ≡ some (record { result = bytes 3; sent = 7 ∷ 8 ∷ 9 ∷ [] })
nwrite_full_example =
    nwrite_full (7 ∷ 8 ∷ 9 ∷ []) writes (ground arith) (ground arith, (ground arith, tt))
      (ground arith, (ground arith, tt)) (ground arith)
