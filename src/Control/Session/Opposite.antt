-- ===== src/Control/Session/Opposite.antt =====
-- The two ends number their streams alike.
use expo_iperf.Common.{
  ℕ, zero, suc, ◌+◌, ◌≡◌, refl, Bool, true, false, not, List, [], ◌∷◌, ◌++◌, length, ◌∙◌, ap, map,
}
use expo_iperf.Args.{Mode, sender, receiver, bidirectional}
use expo_iperf.Control.{StreamInfo, iperf_add_stream, next_id}
use expo_iperf.Control.Session.Drive.{add_all, client_list}
use expo_iperf.Control.Session.Stages.{to_receive, to_send}

-- The other end of a stream has its number, and receives where this end sends.
abbrev pub opposite : StreamInfo → StreamInfo
opposite s = record s { sender = not s.sender }

length-map : (l : List StreamInfo) → length (map opposite l) ≡ length l
length-map [] = refl
length-map (s ∷ l) = ap suc (length-map l)

map-append : (l k : List StreamInfo) → map opposite (l ++ k) ≡ map opposite l ++ map opposite k
map-append [] k = refl
map-append (s ∷ l) k = ap (◌∷◌ (opposite s)) (map-append l k)

next_id-opposite : (l : List StreamInfo) → next_id (map opposite l) ≡ next_id l
unfolding next_id
next_id-opposite [] = refl
next_id-opposite (s ∷ l) = ap (λ (n : ℕ). suc n + 2) (length-map l)

add_stream-opposite :
    (b : Bool) (l : List StreamInfo)
    → iperf_add_stream b (map opposite l) ≡ map opposite (iperf_add_stream (not b) l)
unfolding iperf_add_stream
add_stream-opposite true l = rw (map-append l _, next_id-opposite l) refl
add_stream-opposite false l = rw (map-append l _, next_id-opposite l) refl

add_all-opposite :
    (k : ℕ) (b : Bool) (l : List StreamInfo)
    → add_all k b (map opposite l) ≡ map opposite (add_all k (not b) l)
add_all-opposite zero b l = refl
add_all-opposite (suc k) b l =
    ap (add_all k b) (add_stream-opposite b l) ∙ add_all-opposite k b (iperf_add_stream (not b) l)

pub lists-opposite :
    (m : Mode) (n : ℕ)
    → add_all (to_send m n) true (add_all (to_receive m n) false [])
      ≡ map opposite (client_list m n)
lists-opposite sender n = add_all-opposite n false []
lists-opposite receiver n = add_all-opposite n true []
lists-opposite bidirectional n =
    ap (add_all n true) (add_all-opposite n false []) ∙ add_all-opposite n true (add_all n true [])
