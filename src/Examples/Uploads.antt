-- ===== src/Examples/Uploads.antt =====
-- A file of six bytes that is sent in blocks of four.
use expo_iperf.Common.{ℕ, ◌^◌, ◌≡◌, refl, true, arith, some, List, [], ◌∷◌}
use expo_iperf.Files.{FileStream, diskfile_send}
use expo_iperf.Files.Whole.{idle, send_all, send_all_lem}

abbrev six_bytes : List ℕ
six_bytes = 1 ∷ 2 ∷ 3 ∷ 4 ∷ 5 ∷ 6 ∷ []

abbrev blank : List ℕ
blank = 0 ∷ 0 ∷ 0 ∷ 0 ∷ []

abbrev reads : List ℕ
reads = 3 ∷ 3 ∷ 3 ∷ 3 ∷ 3 ∷ 3 ∷ 3 ∷ []

send_all_lem_example :
    let e = send_all (2 ^ 31) reads (idle 4 six_bytes blank []) in
    (e.done ≡ true) × (e.sent ≡ six_bytes)
send_all_lem_example =
    send_all_lem (2 ^ 31) 4 reads six_bytes blank [] (omega arith) (omega arith) (omega arith) refl
      (
        omega arith,
        (
          omega arith,
          (omega arith, (omega arith, (omega arith, (omega arith, (omega arith, tt))))),
        ),
      )
      (omega arith)

-- A write that takes three of the four bytes: the next read puts the fifth byte in the place of the
-- fourth.
abbrev short_writes : FileStream
short_writes =
    let a = (diskfile_send (some 4) (some 3) (idle 4 six_bytes blank [])).1 in
    (diskfile_send (some 1) (some 1) a).1

short_writes-sent : short_writes.sent ≡ 1 ∷ 2 ∷ 3 ∷ 5 ∷ []
unfolding diskfile_send
short_writes-sent = refl
