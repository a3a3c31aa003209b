-- ===== src/Timer/Ops.antt =====
-- The calls of timer.c keep the list of running timers sorted and no structure in two places, and
-- `tmr_timeout` is the time to the earliest timer.
use expo_iperf.Common.{
  ℕ, ◌+◌, ◌-◌, ◌*◌, ◌/◌, ◌%◌, ◌≤◌, ◌<◌, ◌≡◌, ◌↔◌, ◌⊎◌, refl, Bool, ◌==◌, if◌then◌else◌, Option,
  none, some, List, [], ◌∷◌, arith, ap, ==_iff, subst, eq_of_some, inl, inr, Bool-cases,
  Option-cases,
}
use expo_iperf.Clock.{IperfTime, iperf_time_add_usecs, iperf_time_diff, iperf_time_in_usecs}
use expo_iperf.Clock.Laws.{IsNormal, micros, add_usecs-IsNormal, diff-micros, in_usecs-micros}
use expo_iperf.Timer.{
  Timer, Timers, list_add, list_remove, find, list_resort, alloc, start_timer, tmr_create,
  timeout_of, tmr_timeout, tmr_reset, tmr_cancel,
}
use expo_iperf.Timer.Sorted.{
  Normal, NotBefore, IsSorted, count_id, list_add-walk, walk-Normal, walk-IsSorted, count_id-walk,
  remove-Normal, remove-IsSorted, find-id, count_id-remove, find-none,
}

-- How often an address stands in a list of addresses.
abbrev pub count_addr : ℕ → List ℕ → ℕ
count_addr a [] = 0
count_addr a (b ∷ rest) = (if b == a then 1 else 0) + count_addr a rest

pub count_self : (a : ℕ) → ◌≡◌ {A = ℕ} (if a == a then 1 else 0) 1
count_self a = ground arith

alloc-once :
    (unused : List ℕ) (malloc : Option ℕ) (a : ℕ) (rest : List ℕ) (b k : ℕ)
    → alloc unused malloc ≡ some (a, rest)
    → k + count_addr b unused ≤ 1
    → (malloc ≡ some b → k + count_addr b unused ≡ 0)
    → (if a == b then 1 else 0) + count_addr b rest + k ≤ 1
unfolding alloc
alloc-once [] none a rest b k e h f = cc
alloc-once [] (some x) a rest b k e h f = elim (Bool-cases (x == b)) [
  | inl q ↦ ground (arith, f (ap some ((==_iff x b).0 q)))
  | inr q ↦ ground arith
]
alloc-once (x ∷ l) malloc a rest b k e h f = ground arith

module _ {P : Type 0} where
  -- How often a structure is held: running or unused.
  abbrev pub held : ℕ → Timers P → ℕ
  held a ts = count_id a ts.active + count_addr a ts.free_timers

  -- How many timers are due at an instant.
  abbrev pub count_time : ℕ → List (Timer P) → ℕ
  count_time k [] = 0
  count_time k (t ∷ rest) = (if micros t.time == k then 1 else 0) + count_time k rest

  pub record IsValid (ts : Timers P) : Type 0 where
    pub normal : Normal ts.active
    pub sorted : IsSorted ts.active
    pub once : (a : ℕ) → held a ts ≤ 1

  pub add-parts :
      (t : Timer P) (l : List (Timer P))
      → IsNormal t.time
      → Normal l
      → IsSorted l
      → Normal (list_add t l)
        × IsSorted (list_add t l)
        × ((a : ℕ) → count_id a (list_add t l) ≡ (if t.id == a then 1 else 0) + count_id a l)
  add-parts t l n h s =
      rw (list_add-walk t l)
        (walk-Normal t l n h, walk-IsSorted t l n h s, λ a. count_id-walk a t l)

  pub resort-parts :
      (t : Timer P) (l : List (Timer P)) (a : ℕ) {u : Timer P}
      → t.id ≡ a
      → IsNormal t.time
      → Normal l
      → IsSorted l
      → find a l ≡ some u
      → Normal (list_resort t l)
        × IsSorted (list_resort t l)
        × ((a : ℕ) → count_id a (list_resort t l) ≡ count_id a l)
  unfolding list_resort
  resort-parts t l a {u} e n h s f =
      let (added, sorted, count) =
        add-parts t (list_remove t.id l) n (remove-Normal t.id l h) (remove-IsSorted t.id l s) in
      (added, sorted, λ b. omega (arith, count b, count_id-remove t.id b l {t = u} (rw e f)))

  start_timer-IsValid :
      (a : ℕ) (unused : List ℕ) (now : IperfTime) (proc : P) (usecs : ℕ) (periodic : Bool)
      (ts : Timers P)
      → IsValid ts
      → ((b : ℕ) → (if a == b then 1 else 0) + count_addr b unused + count_id b ts.active ≤ 1)
      → let ts' = start_timer a unused now proc usecs periodic ts in
        IsValid ts'
        × ((b : ℕ) → count_id b ts'.active ≡ (if a == b then 1 else 0) + count_id b ts.active)
  unfolding start_timer
  start_timer-IsValid a unused now proc usecs periodic ts v free =
      let (normal, sorted, count) =
        add-parts _ ts.active (add_usecs-IsNormal now usecs) v.normal v.sorted in
      (
        record { normal = normal; sorted = sorted; once = λ b. omega (arith, count b, free b) },
        count,
      )

  -- A new timer takes an unused structure before a fresh one; the lists stay valid if `malloc` gives
  -- a structure that is not held yet, and the new timer is all that is added to the running ones.
  create-IsValid :
      (malloc : Option ℕ) (now : IperfTime) (proc : P) (usecs : ℕ) (periodic : Bool) (ts : Timers P)
      {a : ℕ} {ts' : Timers P}
      → IsValid ts
      → ((b : ℕ) → malloc ≡ some b → held b ts ≡ 0)
      → tmr_create malloc now proc usecs periodic ts ≡ some (a, ts')
      → IsValid ts'
        × ((b : ℕ) → count_id b ts'.active ≡ (if a == b then 1 else 0) + count_id b ts.active)
  unfolding tmr_create
  create-IsValid malloc now proc usecs periodic ts v fresh e =
      elim (Option-cases (alloc ts.free_timers malloc)) [
        | inl q ↦ cc
        | inr ((a, rest), q) ↦
            subst
              (λ (r : ℕ × Timers P).
                IsValid r.1
                × ((b : ℕ)
                    → count_id b r.1.active ≡ (if r.0 == b then 1 else 0) + count_id b ts.active))
              (cc)
              (start_timer-IsValid a rest now proc usecs periodic ts v (λ b.
                alloc-once ts.free_timers malloc a rest b (count_id b ts.active) q (v.once b)
                  (fresh b)))
      ]

  -- `tmr_create` gives the null pointer exactly when no structure is unused and `malloc` fails.
  pub create_none :
      (malloc : Option ℕ) (now : IperfTime) (proc : P) (usecs : ℕ) (periodic : Bool) (ts : Timers P)
      → (tmr_create malloc now proc usecs periodic ts ≡ none)
        ↔ ((ts.free_timers ≡ []) × (malloc ≡ none))
  unfolding tmr_create
  create_none malloc now proc usecs periodic ts = (λ e. ground arith, λ h. rw (h.0, h.1))

  -- Resetting a running timer keeps the lists valid and holds the same structures.
  reset-IsValid :
      (now : IperfTime) (a : ℕ) (ts : Timers P) {ts' : Timers P}
      → IsValid ts
      → tmr_reset now a ts ≡ some ts'
      → IsValid ts' × ((b : ℕ) → count_id b ts'.active ≡ count_id b ts.active)
  unfolding tmr_reset
  reset-IsValid now a ts v e = elim (Option-cases (find a ts.active)) [
    | inl q ↦ cc
    | inr (t, q) ↦
        let due = iperf_time_add_usecs now t.usecs in
        let (normal, sorted, count) =
          resort-parts (record t { time = due }) ts.active a {u = t} (find-id a ts.active q)
            (add_usecs-IsNormal now t.usecs) v.normal v.sorted q in
        subst (λ (r : Timers P). IsValid r × ((b : ℕ) → count_id b r.active ≡ count_id b ts.active))
          (eq_of_some (rw (q, tmr_reset) at e))
          (
            record {
              normal = normal;
              sorted = sorted;
              once = λ b. omega (arith, count b, v.once b);
            },
            count,
          )
  ]

  -- Cancelling a running timer keeps the lists valid, and moves its structure to the unused ones.
  pub cancel-IsValid :
      (a : ℕ) (ts : Timers P) {ts' : Timers P}
      → IsValid ts
      → tmr_cancel a ts ≡ some ts'
      → IsValid ts' × (count_id a ts'.active ≡ 0) × ((b : ℕ) → held b ts' ≡ held b ts)
  unfolding tmr_cancel
  cancel-IsValid a ts {ts'} v e = elim (Option-cases (find a ts.active)) [
    | inl q ↦ cc
    | inr (t, q) ↦
        let count = λ (b : ℕ). count_id-remove a b ts.active {t = t} q in
        subst
          (λ (r : Timers P).
            IsValid r × (count_id a r.active ≡ 0) × ((b : ℕ) → held b r ≡ held b ts))
          (eq_of_some (rw (q, tmr_cancel) at e))
          (
            record {
              normal = remove-Normal a ts.active v.normal;
              sorted = remove-IsSorted a ts.active v.sorted;
              once = λ b. omega (arith, count b, v.once b);
            },
            omega (arith, count a, v.once a, count_self a),
            λ b. omega (arith, count b),
          )
  ]

  -- Cancelling or resetting fails only for a timer that is not running.
  pub cancel_none : (a : ℕ) (ts : Timers P) → (tmr_cancel a ts ≡ none) ↔ (count_id a ts.active ≡ 0)
  unfolding tmr_cancel
  cancel_none a ts = (
    λ e. (find-none a ts.active).0 (ground arith),
    λ h. rw ((find-none a ts.active).1 h, tmr_cancel),
  )

  NotBefore-head :
      (k : ℕ) (t : Timer P) (l : List (Timer P))
      → k ≤ micros t.time
      → NotBefore (micros t.time) l
      → NotBefore k l
  NotBefore-head k t [] h n = tt
  NotBefore-head k t (x ∷ l) h n = (omega arith, NotBefore-head k t l h n.1)

  -- `tmr_timeout` is the time that is left, of whole seconds and fewer than a million microseconds,
  -- until the first of the running timers is due (0 if it is overdue); without a running timer it is
  -- the null pointer.
  pub timeout_lem :
      (now : IperfTime) (ts : Timers P)
      → IsValid ts
      → IsNormal now
      → ((tmr_timeout now ts ≡ none) × (ts.active ≡ []))
        ⊎ ((sec usec first : ℕ) × (tmr_timeout now ts ≡ some (sec, usec))
            × (sec * 1000000 + usec ≡ first - micros now)
            × (usec < 1000000)
            × NotBefore first ts.active
            × (0 < count_time first ts.active))
  unfolding tmr_timeout
  timeout_lem now ts v n = from_list ts.active v.normal v.sorted
    where
      from_list :
          (l : List (Timer P))
          → Normal l
          → IsSorted l
          → ((timeout_of now l ≡ none) × (l ≡ []))
            ⊎ ((sec usec first : ℕ) × (timeout_of now l ≡ some (sec, usec))
                × (sec * 1000000 + usec ≡ first - micros now)
                × (usec < 1000000)
                × NotBefore first l
                × (0 < count_time first l))
      from_list [] h s = inl (refl, refl)
      from_list (t ∷ l) h s =
          let (past, d) = iperf_time_diff t.time now in
          let left : ℕ = if past then 0 else iperf_time_in_usecs d in
          inr (
            left / 1000000,
            left % 1000000,
            micros t.time,
            refl,
            ground (
              arith,
              diff-micros t.time now h.0 n,
              in_usecs-micros {t = d} (diff-micros t.time now h.0 n).2,
            ),
            omega arith,
            (omega arith, s.0),
            ground arith,
          )
