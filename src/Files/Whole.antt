-- ===== src/Files/Whole.antt =====
-- A file is sent as a whole where every write takes all that is pending.
use expo_iperf.Common.{
  ℕ, zero, suc, ◌+◌, ◌⊎◌, inl, inr, ◌^◌, ◌≤◌, ◌<◌, ◌≡◌, ◌∙◌, refl, ap, sym, subst, arith, Bool,
  true, false, not, ◌&&◌, ◌||◌, if◌then◌else◌, min, Option, some, List, [], ◌∷◌, ◌++◌, length, take,
  drop, overwrite, All, length-take, length-drop, length-overwrite, take-overwrite,
  take-append-drop, append_assoc, append-nil,
}
use expo_iperf.Common.Int.{ℤ, pos, eq_ℤ, ltb_ℤ, ◌-ℤ◌}
use expo_iperf.Results.{to_uint64}
use expo_iperf.Files.{
  FileStream, read_file, fill_buffer, tcp_send, send_buffer, diskfile_send, keep_rest, filled,
  pending_of, take_pending, slide,
}

-- A stream between two calls, where nothing is left in the buffer.
abbrev pub idle : ℕ → List ℕ → List ℕ → List ℕ → FileStream
idle blksize file buffer sent = record {
  blksize = blksize;
  file = file;
  buffer = buffer;
  diskfile_left = pos 0;
  pending_size = pos 0;
  done = false;
  sent = sent;
}

size_lem : (n : ℕ) → n < 2 ^ 31 → to_uint64 (pos n -ℤ pos 0) ≡ n
unfolding to_uint64
size_lem n h = ground arith

bytes_lem : (n : ℕ) → n < 2 ^ 31 → to_uint64 (pos n) ≡ n
unfolding to_uint64
bytes_lem n h = ground arith

-- The stream with `k` bytes in the buffer.
abbrev loaded : ℕ → ℕ → List ℕ → List ℕ → List ℕ → FileStream
loaded k blksize file buffer sent = record (idle blksize file buffer sent) {
  pending_size = if eq_ℤ (pos k) (pos blksize) then pos 0 else pos k;
}

filled_lem :
    (k blksize : ℕ) (file buffer sent : List ℕ)
    → 0 < k
    → filled (pos 0) (pos k, idle blksize file buffer sent)
      ≡ (pos k, loaded k blksize file buffer sent)
filled_lem k blksize file buffer sent h = ground arith

pending_lem :
    (k blksize : ℕ) (file buffer sent : List ℕ)
    → 0 < k
    → pending_of (loaded k blksize file buffer sent) ≡ pos k
pending_lem k blksize file buffer sent h = ground arith

some_left : (k : ℕ) → 0 < k → (false || eq_ℤ (pos k) (pos 0)) ≡ false
some_left k h = ground arith

all_lem : (k w : ℕ) → k < 2 ^ 31 → 2 ^ 31 ≤ w → min w (to_uint64 (pos k)) ≡ k
all_lem k w h most = ap (min w) (bytes_lem k h) ∙ omega arith

sub_self : (k : ℕ) → pos k -ℤ pos k ≡ pos 0
sub_self k = ground arith

room_lem : (n : ℕ) → 0 < n → (ltb_ℤ (pos 0) (pos n) && not false) ≡ true
room_lem n h = ground arith

-- All that is pending is taken.
sent_lem :
    (k w blksize : ℕ) (file buffer sent : List ℕ)
    → 0 < k
    → k < 2 ^ 31
    → 2 ^ 31 ≤ w
    → send_buffer (some w) (pos k, loaded k blksize file buffer sent)
      ≡ (some k, idle blksize file buffer (sent ++ take k buffer))
unfolding send_buffer
sent_lem k w blksize file buffer sent h small most =
    let a = loaded k blksize file buffer sent in
    ap
      (λ (b : Bool).
        if b then (some 0, record a { done = true }) else keep_rest (pos k) (tcp_send (some w) a))
      (some_left k h)
    ∙ ap (λ (p : ℤ). keep_rest (pos k) (take_pending p (min w (to_uint64 p)) a))
        (pending_lem k blksize file buffer sent h)
    ∙ ap (λ (r : ℕ). keep_rest (pos k) (take_pending (pos k) r a)) (all_lem k w small most)
    ∙ ap
        (λ (z : ℤ). (
          some k,
          slide z (record a { diskfile_left = z; pending_size = z; sent = sent ++ take k buffer }),
        ))
        (sub_self k)

-- One call sends what it reads, and leaves the stream as it was otherwise.
call_lem :
    (n w blksize : ℕ) (file buffer sent : List ℕ)
    → 2 ^ 31 ≤ w
    → blksize < 2 ^ 31
    → length buffer ≡ blksize
    → 0 < length (take (min n blksize) file)
    → diskfile_send (some n) (some w) (idle blksize file buffer sent) ≡ (
      some (length (take (min n blksize) file)),
      idle blksize
          (drop (min n blksize) file)
          (overwrite (take (min n blksize) file) buffer)
          (sent ++ take (min n blksize) file),
    )
unfolding diskfile_send
call_lem n w blksize file buffer sent most small room some_bytes =
    let chunk = take (min n blksize) file in
    let k = length chunk in
    let s = idle blksize file buffer sent in
    let fits : k ≤ blksize = omega (arith, length-take (min n blksize) file) in
    ap (λ (b : Bool). send_buffer (some w) (if b then fill_buffer (some n) s else (pos 0, s)))
      (room_lem blksize (omega arith))
    ∙ ap (λ (m : ℕ). send_buffer (some w) (filled (pos 0) (read_file (some n) m s)))
        (size_lem blksize small)
    ∙ ap (send_buffer (some w))
        (filled_lem k blksize (drop (min n blksize) file) (overwrite chunk buffer) sent some_bytes)
    ∙ sent_lem k w blksize (drop (min n blksize) file) (overwrite chunk buffer) sent some_bytes
        (omega arith) most
    ∙ ap
        (λ (l : List ℕ).
          (some k, idle blksize (drop (min n blksize) file) (overwrite chunk buffer) (sent ++ l)))
        (take-overwrite chunk buffer (rw room fits))

take-nil : (n : ℕ) → take {A = ℕ} n [] ≡ []
take-nil zero = refl
take-nil (suc n) = refl

drop-nil : (n : ℕ) → drop {A = ℕ} n [] ≡ []
drop-nil zero = refl
drop-nil (suc n) = refl

-- The stream of a file that has been sent.
abbrev pub finished : ℕ → List ℕ → List ℕ → FileStream
finished blksize buffer sent = record (idle blksize [] buffer sent) { done = true }

if_same : (b : Bool) → (if b then pos 0 else pos 0) ≡ pos 0
if_same true = refl
if_same false = refl

and_false : (b : Bool) → (b && false) ≡ false
and_false true = refl
and_false false = refl

-- A call that finds the end of the file ends the test.
end_lem :
    (n w blksize : ℕ) (buffer sent : List ℕ)
    → 0 < blksize
    → blksize < 2 ^ 31
    → diskfile_send (some n) (some w) (idle blksize [] buffer sent)
      ≡ (some 0, finished blksize buffer sent)
unfolding diskfile_send
end_lem n w blksize buffer sent some_room small =
    let s = idle blksize [] buffer sent in
    ap (λ (b : Bool). send_buffer (some w) (if b then fill_buffer (some n) s else (pos 0, s)))
      (room_lem blksize some_room)
    ∙ ap (λ (m : ℕ). send_buffer (some w) (filled (pos 0) (read_file (some n) m s)))
        (size_lem blksize small)
    ∙ ap
        (λ (l : List ℕ). send_buffer (some w) (
          filled (pos 0) (
            pos (length l),
            record s { file = drop (min n blksize) []; buffer = overwrite l buffer },
          )))
        (take-nil (min n blksize))
    ∙ ap
        (λ (z : ℤ). (
          some 0,
          record (finished blksize buffer sent) {
            file = drop (min n blksize) [];
            pending_size = z;
          },
        ))
        (if_same (eq_ℤ (pos 0) (pos blksize)))
    ∙ ap (λ (l : List ℕ). (some 0, record (finished blksize buffer sent) { file = l }))
        (drop-nil (min n blksize))

stay_lem :
    (n w blksize : ℕ) (buffer sent : List ℕ)
    → diskfile_send (some n) (some w) (finished blksize buffer sent)
      ≡ (some 0, finished blksize buffer sent)
unfolding diskfile_send
stay_lem n w blksize buffer sent =
    let s = finished blksize buffer sent in
    ap (λ (b : Bool). send_buffer (some w) (if b then fill_buffer (some n) s else (pos 0, s)))
      (and_false (ltb_ℤ (pos 0) (pos blksize)))

-- The calls of a test, each of which reads at most so many bytes and writes with the answer `w`.
unfoldable pub send_all : ℕ → List ℕ → FileStream → FileStream
unfolding diskfile_send
send_all w [] s = s
send_all w (n ∷ l) s = send_all w l (diskfile_send (some n) (some w) s).1

stay_all :
    (w blksize : ℕ) (l buffer sent : List ℕ)
    → send_all w l (finished blksize buffer sent) ≡ finished blksize buffer sent
unfolding send_all
stay_all w blksize [] buffer sent = refl
stay_all w blksize (n ∷ l) buffer sent =
    ap (λ (r : Option ℕ × FileStream). send_all w l r.1) (stay_lem n w blksize buffer sent)
    ∙ stay_all w blksize l buffer sent

-- What has been sent and what is left of the file are the file; and the test is done with the whole
-- file sent, or every call has read something.
abbrev Sends : List ℕ → List ℕ → List ℕ → FileStream → Type 0
Sends file sent l e =
    (e.sent ++ e.file ≡ sent ++ file)
    × (((e.done ≡ true) × (e.sent ≡ sent ++ file)) ⊎ (length e.file + length l ≤ length file))

send_all-Sends :
    (w blksize : ℕ) (l file buffer sent : List ℕ)
    → 2 ^ 31 ≤ w
    → 0 < blksize
    → blksize < 2 ^ 31
    → length buffer ≡ blksize
    → All (λ n. 0 < n) l
    → Sends file sent l (send_all w l (idle blksize file buffer sent))
unfolding send_all
send_all-Sends w blksize [] file buffer sent most some_room small room h = (refl, inr (omega arith))
send_all-Sends w blksize (n ∷ l) [] buffer sent most some_room small room h =
    subst (Sends [] sent (n ∷ l))
      (sym (
        ap (λ (r : Option ℕ × FileStream). send_all w l r.1)
          (end_lem n w blksize buffer sent some_room small)
        ∙ stay_all w blksize l buffer sent))
      (refl, inl (refl, sym (append-nil sent)))
send_all-Sends w blksize (n ∷ l) (x ∷ file) buffer sent most some_room small room (some_n, hs) =
    let m = min n blksize in
    let chunk = take m (x ∷ file) in
    let rest = drop m (x ∷ file) in
    let some_bytes : 0 < length chunk = omega (arith, length-take m (x ∷ file)) in
    let (kept, ends) =
      send_all-Sends w blksize l rest (overwrite chunk buffer) (sent ++ chunk) most some_room small
        (length-overwrite chunk buffer ∙ room) hs in
    let joined : (sent ++ chunk) ++ rest ≡ sent ++ (x ∷ file) =
      append_assoc sent chunk rest
      ∙ ap (λ (t : List ℕ). sent ++ t) (take-append-drop m (x ∷ file)) in
    subst (Sends (x ∷ file) sent (n ∷ l))
      (sym (
        ap (λ (r : Option ℕ × FileStream). send_all w l r.1)
          (call_lem n w blksize (x ∷ file) buffer sent most small room some_bytes)))
      (
        kept ∙ joined,
        elim ends [
          | inl (done, all) ↦ inl (done, all ∙ joined)
          | inr few ↦ inr (omega (arith, few, length-drop m (x ∷ file), length-take m (x ∷ file)))
        ],
      )

-- With a buffer of one block, of 1 byte to below 2 ^ 31, where every write takes all that is pending,
-- every read gives something unless the file is at its end, and there are more calls than bytes:
-- whatever the sizes of the reads, the calls of diskfile_send send the whole file in order behind
-- what was sent before, and end the test.
pub send_all_lem :
    (w blksize : ℕ) (l file buffer sent : List ℕ)
    → 2 ^ 31 ≤ w
    → 0 < blksize
    → blksize < 2 ^ 31
    → length buffer ≡ blksize
    → All (λ n. 0 < n) l
    → length file < length l
    → let e = send_all w l (idle blksize file buffer sent) in
      (e.done ≡ true) × (e.sent ≡ sent ++ file)
send_all_lem w blksize l file buffer sent most some_room small room h enough =
    elim (send_all-Sends w blksize l file buffer sent most some_room small room h).1 [
      | inl r ↦ r
      | inr few ↦ absurd (omega (arith, enough, few))
    ]
