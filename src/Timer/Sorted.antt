-- ===== src/Timer/Sorted.antt =====
-- Insertion and removal in the list of running timers.
use expo_iperf.Common.{
  ℕ, ◌+◌, ◌≤◌, ◌<◌, ◌≡◌, ◌↔◌, refl, true, false, ◌==◌, if◌then◌else◌, none, some, List, [], ◌∷◌,
  ◌++◌, arith, All,
}
use expo_iperf.Clock.{IperfTime}
use expo_iperf.Clock.Laws.{IsNormal, micros, compare-micros}
use expo_iperf.Timer.{Timer, is_before, walk, list_add, list_remove, find}

pub before→lt :
    (s t : IperfTime) → IsNormal s → IsNormal t → is_before s t ≡ true → micros s < micros t
before→lt s t m n h = ground (arith, compare-micros s t m n)

pub before→ge :
    (s t : IperfTime) → IsNormal s → IsNormal t → is_before s t ≡ false → micros t ≤ micros s
before→ge s t m n h = ground (arith, compare-micros s t m n)

module _ {P : Type 0} where
  abbrev pub Normal : List (Timer P) → Type 0
  Normal = All (λ t. IsNormal t.time)

  abbrev pub NotBefore : ℕ → List (Timer P) → Type 0
  NotBefore n = All (λ t. n ≤ micros t.time)

  abbrev pub IsSorted : List (Timer P) → Type 0
  IsSorted [] = Unit
  IsSorted (t ∷ rest) = NotBefore (micros t.time) rest × IsSorted rest

  -- How often an address stands in the list.
  abbrev pub count_id : ℕ → List (Timer P) → ℕ
  count_id a [] = 0
  count_id a (t ∷ rest) = (if t.id == a then 1 else 0) + count_id a rest

  -- The head of the list needs no treatment of its own.
  pub list_add-walk : (t : Timer P) (l : List (Timer P)) → list_add t l ≡ walk t l
  unfolding list_add walk
  list_add-walk t [] = refl
  list_add-walk t (x ∷ l) = refl

  pub walk-Normal :
      (t : Timer P) (l : List (Timer P)) → IsNormal t.time → Normal l → Normal (walk t l)
  unfolding walk
  walk-Normal t [] n h = (n, tt)
  walk-Normal t (x ∷ l) n h = ground (arith, walk-Normal t l n h.1)

  pub walk-NotBefore :
      (k : ℕ) (t : Timer P) (l : List (Timer P))
      → k ≤ micros t.time
      → NotBefore k l
      → NotBefore k (walk t l)
  unfolding walk
  walk-NotBefore k t [] n h = (n, tt)
  walk-NotBefore k t (x ∷ l) n h = ground (arith, walk-NotBefore k t l n h.1)

  NotBefore-trans : (j k : ℕ) (l : List (Timer P)) → j ≤ k → NotBefore k l → NotBefore j l
  NotBefore-trans j k [] h p = tt
  NotBefore-trans j k (x ∷ l) h p = (omega arith, NotBefore-trans j k l h p.1)

  pub walk-IsSorted :
      (t : Timer P) (l : List (Timer P))
      → IsNormal t.time
      → Normal l
      → IsSorted l
      → IsSorted (walk t l)
  unfolding walk
  walk-IsSorted t [] n h s = (tt, tt)
  walk-IsSorted t (x ∷ l) n h s = ground (
    arith,
    before→lt t.time x.time n h.0,
    before→ge t.time x.time n h.0,
    NotBefore-trans (micros t.time) (micros x.time) l,
    walk-NotBefore (micros x.time) t l,
    walk-IsSorted t l n h.1 s.1,
  )

  pub count_id-walk :
      (a : ℕ) (t : Timer P) (l : List (Timer P))
      → count_id a (walk t l) ≡ (if t.id == a then 1 else 0) + count_id a l
  unfolding walk
  count_id-walk a t [] = refl
  count_id-walk a t (x ∷ l) = ground (arith, count_id-walk a t l)

  pub count_id-append :
      (a : ℕ) (l r : List (Timer P)) → count_id a (l ++ r) ≡ count_id a l + count_id a r
  count_id-append a [] r = omega arith
  count_id-append a (x ∷ l) r = omega (arith, count_id-append a l r)

  pub remove-Normal : (a : ℕ) (l : List (Timer P)) → Normal l → Normal (list_remove a l)
  unfolding list_remove
  remove-Normal a [] h = tt
  remove-Normal a (x ∷ l) h = ground (arith, remove-Normal a l h.1)

  remove-NotBefore : (k a : ℕ) (l : List (Timer P)) → NotBefore k l → NotBefore k (list_remove a l)
  unfolding list_remove
  remove-NotBefore k a [] h = tt
  remove-NotBefore k a (x ∷ l) h = ground (arith, remove-NotBefore k a l h.1)

  pub remove-IsSorted : (a : ℕ) (l : List (Timer P)) → IsSorted l → IsSorted (list_remove a l)
  unfolding list_remove
  remove-IsSorted a [] h = tt
  remove-IsSorted a (x ∷ l) h =
      ground (arith, remove-IsSorted a l h.1, remove-NotBefore (micros x.time) a l h.0)

  pub find-id : (a : ℕ) (l : List (Timer P)) {t : Timer P} → find a l ≡ some t → t.id ≡ a
  unfolding find
  find-id a [] h = cc
  find-id a (x ∷ l) {t} h = ground (arith, find-id a l {t = t})

  pub find-IsNormal :
      (a : ℕ) (l : List (Timer P)) {t : Timer P} → Normal l → find a l ≡ some t → IsNormal t.time
  unfolding find
  find-IsNormal a [] n h = cc
  find-IsNormal a (x ∷ l) {t} n h = ground (arith, find-IsNormal a l {t = t} n.1)

  pub count_id-remove :
      (a b : ℕ) (l : List (Timer P)) {t : Timer P}
      → find a l ≡ some t
      → count_id b (list_remove a l) + (if a == b then 1 else 0) ≡ count_id b l
  unfolding find list_remove
  count_id-remove a b [] h = cc
  count_id-remove a b (x ∷ l) {t} h = ground (arith, count_id-remove a b l {t = t})

  -- An address is found exactly where it stands in the list.
  pub find-none : (a : ℕ) (l : List (Timer P)) → (find a l ≡ none) ↔ (count_id a l ≡ 0)
  unfolding find
  find-none a [] = (λ e. refl, λ e. refl)
  find-none a (x ∷ l) = (λ e. ground (arith, find-none a l), λ e. ground (arith, find-none a l))
