-- ===== src/Control/Ends.antt =====
-- Statements about every way in which a function of the control connection can end: whatever the
-- calls answer and whatever is read.
use expo_iperf.Common.{Bool, true, false, ◌≢◌, none, some, if◌then◌else◌}
use expo_iperf.State.{State}
use expo_iperf.Control.{
  ControlError, Reply, ControlTest, Proc, ret, fail, call, read, ◌>>=◌, refuse, ignore, set_state,
  ie_sendmessage, set_by_callee, iperf_set_send_state, attach_stream,
}

-- What is returned satisfies `P`, and the test behind a failure `Q`.
abbrev pub Ends : {A : Type 0} → (A → Type 0) → (ControlTest → Type 0) → Proc A → Type 0
Ends P Q (ret a) = P a
Ends P Q (fail t) = Q t
Ends P Q (call c k) = (ok : Bool) → Ends P Q (k ok)
Ends P Q (read k) = (m : Reply) → Ends P Q (k m)

pub Ends-bind :
    {A B : Type 0} (P : A → Type 0) (R : B → Type 0) (Q : ControlTest → Type 0) (p : Proc A)
    (f : A → Proc B)
    → Ends P Q p
    → ((a : A) → P a → Ends R Q (f a))
    → Ends R Q (p >>= f)
Ends-bind P R Q (ret a) f h g = g a h
Ends-bind P R Q (fail t) f h g = h
Ends-bind P R Q (call c k) f h g = λ ok. Ends-bind P R Q (k ok) f (h ok) g
Ends-bind P R Q (read k) f h g = λ m. Ends-bind P R Q (k m) f (h m) g

-- An error number is set.
abbrev pub HasError : ControlTest → Type 0
HasError t = t.i_errno ≢ none

-- Every failure has an error number.
abbrev pub Reports : {A : Type 0} → Proc A → Type 0
Reports {A} p = Ends (λ (a : A). Unit {0}) HasError p

pub Reports-bind :
    {A B : Type 0} (p : Proc A) (f : A → Proc B)
    → Reports p
    → ((a : A) → Reports (f a))
    → Reports (p >>= f)
Reports-bind {A} {B} p f h g =
    Ends-bind (λ (a : A). Unit {0}) (λ (b : B). Unit {0}) HasError p f h (λ a _. g a)

pub some_error : (e : ControlError) → some e ≢ none
some_error e p = absurd (cc)

-- What follows a call whose failure ends the function.
pub Reports-after :
    {B : Type 0} (e : ControlError) (t : ControlTest) (f : ControlTest → Proc B)
    → Reports (f t)
    → (ok : Bool) → Reports ((if ok then ret t else refuse e t) >>= f)
Reports-after e t f h true = h
Reports-after e t f h false = some_error e

pub Reports-last :
    (e : ControlError) (t : ControlTest) (ok : Bool)
    → Reports (if ok then ret t else refuse {A = ControlTest} e t)
Reports-last e t true = tt
Reports-last e t false = some_error e

pub Reports-if :
    {A : Type 0} (b : Bool) (p q : Proc A) → Reports p → Reports q → Reports (if b then p else q)
Reports-if true p q h k = h
Reports-if false p q h k = k

pub Reports-send : (s : State) (t : ControlTest) → Reports (iperf_set_send_state s t)
unfolding iperf_set_send_state
Reports-send s t = Reports-if t.has_ctrl _ _ (Reports-last ie_sendmessage (set_state s t)) tt

pub Reports-attach_stream : (b : Bool) (t : ControlTest) → Reports (attach_stream b t)
unfolding attach_stream
Reports-attach_stream b t = Reports-after set_by_callee t _ (λ _. tt)

pub Reports-ignore : (p : Proc ControlTest) → Reports (ignore p)
Reports-ignore (ret t) = tt
Reports-ignore (fail t) = tt
Reports-ignore (call c k) = λ ok. Reports-ignore (k ok)
Reports-ignore (read k) = λ m. Reports-ignore (k m)
