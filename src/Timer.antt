-- ===== src/Timer.antt =====
-- timer.c: the list of running timers, sorted by time, and the list of unused timer structures. A
-- `Timer *` is an address; the links `prev` and `next` of the running timers are the order of
-- `active`, and those of the unused ones the order of `free_timers`. A call with a timer that is not
-- running, which in C would corrupt the lists, is `none`.
pub mod Sorted
pub mod Ops
pub mod Destroy
pub mod Loop
use expo_iperf.Common.{
  ℕ, zero, suc, ◌/◌, ◌%◌, Bool, true, false, ◌==◌, if◌then◌else◌, Option, none, some, List, [], ◌∷◌,
}
use expo_iperf.Clock.{
  IperfTime, Cmp, earlier, same, later, iperf_time_add_usecs, iperf_time_in_usecs,
  iperf_time_compare, iperf_time_diff,
}

-- `struct TimerStruct`. `proc` stands for `timer_proc` with its `client_data`.
pub record Timer (P : Type 0) : Type 0 where
  pub id : ℕ  -- the address
  pub proc : P
  pub usecs : ℕ
  pub periodic : Bool
  pub time : IperfTime

-- The two static lists of the file.
pub record Timers (P : Type 0) : Type 0 where
  pub active : List (Timer P)
  pub free_timers : List ℕ

-- `iperf_time_compare(a, b) < 0`
abbrev pub is_before : IperfTime → IperfTime → Bool
is_before a b = elim (iperf_time_compare a b) [ earlier ↦ true | _ ↦ false ]

-- `iperf_time_compare(a, b) > 0`
abbrev pub is_after : IperfTime → IperfTime → Bool
is_after a b = elim (iperf_time_compare a b) [ later ↦ true | _ ↦ false ]

-- The structure that `tmr_create` takes: an unused one, or what `malloc` gives.
unfoldable pub alloc : List ℕ → Option ℕ → Option (ℕ × List ℕ)
alloc (a ∷ rest) malloc = some (a, rest)
alloc [] (some a) = some (a, [])
alloc [] none = none

module _ {P : Type 0} where
  -- The loop of `list_add` behind the head of the list.
  unfoldable pub walk : Timer P → List (Timer P) → List (Timer P)
  walk t [] = t ∷ []
  walk t (t2 ∷ rest) =
      let later_on = walk t rest in
      if is_before t.time t2.time then t ∷ t2 ∷ rest else t2 ∷ later_on

  unfoldable pub list_add : Timer P → List (Timer P) → List (Timer P)
  list_add t [] = t ∷ []
  list_add t (head ∷ rest) =
      if is_before t.time head.time then t ∷ head ∷ rest else head ∷ walk t rest

  unfoldable pub list_remove : ℕ → List (Timer P) → List (Timer P)
  list_remove a [] = []
  list_remove a (t ∷ rest) = let rest' = list_remove a rest in if t.id == a then rest else t ∷ rest'

  -- What stands at an address, if a running timer does.
  unfoldable pub find : ℕ → List (Timer P) → Option (Timer P)
  find a [] = none
  find a (t ∷ rest) = let found = find a rest in if t.id == a then some t else found

  -- `list_resort`, after the timer's time has been set.
  unfoldable pub list_resort : Timer P → List (Timer P) → List (Timer P)
  list_resort t l = list_add t (list_remove t.id l)

  -- The rest of `tmr_create`, with the structure at hand.
  unfoldable pub start_timer : ℕ → List ℕ → IperfTime → P → ℕ → Bool → Timers P → Timers P
  start_timer a unused now proc usecs periodic ts = record {
    active =
        list_add
          (record {
            id = a;
            proc = proc;
            usecs = usecs;
            periodic = periodic;
            time = iperf_time_add_usecs now usecs;
          })
          ts.active;
    free_timers = unused;
  }

  -- The address of the new timer, or the null pointer.
  unfoldable pub tmr_create : Option ℕ → IperfTime → P → ℕ → Bool → Timers P → Option (ℕ × Timers P)
  unfolding alloc start_timer
  tmr_create malloc now proc usecs periodic ts = elim (alloc ts.free_timers malloc) [
    | none ↦ none
    | some (a, rest) ↦ some (a, start_timer a rest now proc usecs periodic ts)
  ]

  timeout_of : IperfTime → List (Timer P) → Option (ℕ × ℕ)
  timeout_of now [] = none
  timeout_of now (t ∷ _) =
      let (past, diff) = iperf_time_diff t.time now in
      let usecs = if past then 0 else iperf_time_in_usecs diff in
      some (usecs / 1000000, usecs % 1000000)

  -- The seconds and microseconds of the `struct timeval`, or the null pointer.
  unfoldable pub tmr_timeout : IperfTime → Timers P → Option (ℕ × ℕ)
  unfolding timeout_of
  tmr_timeout now ts = timeout_of now ts.active

  unfoldable pub tmr_reset : IperfTime → ℕ → Timers P → Option (Timers P)
  tmr_reset now a ts = elim (find a ts.active) [
    | none ↦ none
    | some t ↦ some (record ts {
      active = list_resort (record t { time = iperf_time_add_usecs now t.usecs }) ts.active;
    })
  ]

  unfoldable pub tmr_cancel : ℕ → Timers P → Option (Timers P)
  tmr_cancel a ts = elim (find a ts.active) [
    | none ↦ none
    | some t ↦ some (record { active = list_remove a ts.active; free_timers = a ∷ ts.free_timers })
  ]

  -- The addresses that are handed to `free`, and the lists that are left.
  unfoldable pub tmr_cleanup : Timers P → List ℕ × Timers P
  tmr_cleanup ts = (ts.free_timers, record ts { free_timers = [] })

  -- The loop of `tmr_destroy`: each round cancels the head of the list.
  pub cancel_all : List (Timer P) → List ℕ → List ℕ
  cancel_all [] unused = unused
  cancel_all (t ∷ rest) unused = cancel_all rest (t.id ∷ unused)

  unfoldable pub tmr_destroy : Timers P → List ℕ × Timers P
  unfolding cancel_all
  tmr_destroy ts =
      tmr_cleanup (record { active = []; free_timers = cancel_all ts.active ts.free_timers })
