-- ===== src/Timer/Loop/Visit.antt =====
-- One round of `tmr_run`: where an address leads in the list, and where a timer is put back.
use expo_iperf.Common.{
  ℕ, suc, ◌+◌, ◌-◌, ◌≤◌, ◌≡◌, ◌↔◌, refl, sym, ap, subst, ◌∙◌, true, if◌then◌else◌, some, List, [],
  ◌∷◌, ◌++◌, arith, All, inl, inr, Bool-cases, Option-cases, eq_of_some,
}
use expo_iperf.Clock.{iperf_time_add_usecs}
use expo_iperf.Clock.Laws.{micros, add_usecs-IsNormal}
use expo_iperf.Timer.{Timer, Timers, is_before, walk, list_remove, find, tmr_cancel}
use expo_iperf.Timer.Sorted.{count_id, find-id}
use expo_iperf.Timer.Ops.{IsValid, resort-parts, cancel-IsValid}
use expo_iperf.Timer.Loop.{head_id, next_of, reschedule, finish_timer}

module _ {P : Type 0} where
  pub reschedule-IsValid :
      (a : ℕ) (t : Timer P) (ts : Timers P)
      → IsValid ts
      → find a ts.active ≡ some t
      → IsValid (reschedule t ts)
  unfolding reschedule
  reschedule-IsValid a t ts v q =
      let (normal, sorted, count) =
        resort-parts (record t { time = iperf_time_add_usecs t.time t.usecs }) ts.active a {u = t}
          (find-id a ts.active q) (add_usecs-IsNormal t.time t.usecs) v.normal v.sorted q in
      record { normal = normal; sorted = sorted; once = λ b. omega (arith, count b, v.once b) }

  pub finish_timer_lem :
      (a : ℕ) (t : Timer P) (ts : Timers P)
      → find a ts.active ≡ some t
      → finish_timer a ts ≡ (if t.periodic then some (reschedule t ts) else tmr_cancel a ts)
  unfolding finish_timer
  finish_timer_lem a t ts q = rw (q, finish_timer)

  -- What follows a callback keeps the timers valid.
  pub finish-IsValid :
      (a : ℕ) (ts : Timers P) {ts' : Timers P}
      → IsValid ts
      → finish_timer a ts ≡ some ts'
      → IsValid ts'
  finish-IsValid a ts {ts'} v e = elim (Option-cases (find a ts.active)) [
    | inl q ↦ absurd (unfold finish_timer in cc)
    | inr (t, q) ↦ elim (Bool-cases t.periodic) [
      | inl p ↦
          subst IsValid
            (eq_of_some (
              sym (ap (λ b. if b then some (reschedule t ts) else tmr_cancel a ts) p)
              ∙ sym (finish_timer_lem a t ts q)
              ∙ e))
            (reschedule-IsValid a t ts v q)
      | inr p ↦
          (cancel-IsValid a ts v (
            sym (ap (λ b. if b then some (reschedule t ts) else tmr_cancel a ts) p)
            ∙ sym (finish_timer_lem a t ts q)
            ∙ e)).0
    ]
  ]

  pub walk-All :
      (Q : Timer P → Type 0) (t : Timer P) (l : List (Timer P)) → Q t → All Q l → All Q (walk t l)
  unfolding walk
  walk-All Q t [] q h = (q, tt)
  walk-All Q t (x ∷ l) q h = elim (Bool-cases (is_before t.time x.time)) [
    | inl e ↦ rw e (q, h)
    | inr e ↦ rw e (h.0, walk-All Q t l q h.1)
  ]

  pub All-append :
      (Q : Timer P → Type 0) (l r : List (Timer P)) → All Q (l ++ r) ↔ (All Q l × All Q r)
  All-append Q [] r = (λ h. (tt, h), λ h. h.1)
  All-append Q (x ∷ l) r = (
    λ h. let (a, b) = (All-append Q l r).0 h.1 in ((h.0, a), b),
    λ h. (h.0.0, (All-append Q l r).1 (h.0.1, h.1)),
  )

  -- In a list that holds a timer's address only where it stands, the address leads there.
  pub find-append :
      (l r : List (Timer P)) (t : Timer P) → count_id t.id l ≡ 0 → find t.id (l ++ t ∷ r) ≡ some t
  unfolding find
  find-append [] r t h = ground arith
  find-append (x ∷ l) r t h = ground (arith, find-append l r t)

  pub next_of-append :
      (l r : List (Timer P)) (t : Timer P)
      → count_id t.id l ≡ 0
      → next_of t.id (l ++ t ∷ r) ≡ head_id r
  unfolding next_of
  next_of-append [] r t h = ground arith
  next_of-append (x ∷ l) r t h = ground (arith, next_of-append l r t)

  pub remove-append :
      (l r : List (Timer P)) (t : Timer P)
      → count_id t.id l ≡ 0
      → list_remove t.id (l ++ t ∷ r) ≡ l ++ r
  unfolding list_remove
  remove-append [] r t h = ground arith
  remove-append (x ∷ l) r t h = ground (arith, remove-append l r t)

-- What a timer can still make the loop do at an instant.
abbrev pub cost : {P : Type 0} → ℕ → Timer P → ℕ
cost now t = suc (suc now - micros t.time)

abbrev pub total_cost : {P : Type 0} → ℕ → List (Timer P) → ℕ
total_cost now [] = 0
total_cost now (t ∷ rest) = cost now t + total_cost now rest

abbrev pub IsPeriodic : {P : Type 0} → Timer P → Type 0
IsPeriodic t = t.periodic ≡ true

module _ {P : Type 0} (now : ℕ) where
  total_cost-walk :
      (t : Timer P) (l : List (Timer P)) → total_cost now (walk t l) ≡ cost now t + total_cost now l
  unfolding walk
  total_cost-walk t [] = omega arith
  total_cost-walk t (x ∷ l) = ground (arith, total_cost-walk t l)

  -- A timer that is put back stands before the next one to be visited, or adds its cost behind it.
  pub record Split (t : Timer P) (l r : List (Timer P)) : Type 0 where
    pub visited : List (Timer P)
    pub rest : List (Timer P)
    pub whole : walk t (l ++ r) ≡ visited ++ rest
    pub next : head_id rest ≡ head_id r
    pub cheaper : total_cost now rest ≤ cost now t + total_cost now r
    pub periodic : All IsPeriodic visited

  pub walk-Split :
      (t : Timer P) (l r : List (Timer P)) → IsPeriodic t → All IsPeriodic l → Split t l r
  unfolding walk head_id
  walk-Split t [] [] p h = record {
    visited = t ∷ [];
    rest = [];
    whole = refl;
    next = refl;
    cheaper = omega arith;
    periodic = (p, tt);
  }
  walk-Split t [] (x ∷ r) p h = elim (Bool-cases (is_before t.time x.time)) [
    | inl e ↦ record {
      visited = t ∷ [];
      rest = x ∷ r;
      whole = rw e;
      next = refl;
      cheaper = omega arith;
      periodic = (p, tt);
    }
    | inr e ↦ record {
      visited = [];
      rest = x ∷ walk t r;
      whole = rw e;
      next = refl;
      cheaper = omega (arith, total_cost-walk t r);
      periodic = tt;
    }
  ]
  walk-Split t (x ∷ l) r p h = elim (Bool-cases (is_before t.time x.time)) [
    | inl e ↦ record {
      visited = t ∷ x ∷ l;
      rest = r;
      whole = rw e;
      next = refl;
      cheaper = omega arith;
      periodic = (p, h);
    }
    | inr e ↦
        let s = walk-Split t l r p h.1 in
        record {
          visited = x ∷ s.visited;
          rest = s.rest;
          whole = rw e (ap (◌∷◌ x) s.whole);
          next = s.next;
          cheaper = s.cheaper;
          periodic = (h.0, s.periodic);
        }
  ]
