-- ===== src/Args/Outcomes.antt =====
-- Statements about what a parsing step gives when it gives something.
use expo_iperf.Common.{Bool, true, false, ◌≡◌, refl, subst}
use expo_iperf.Args.{ArgError, Outcome, ok, err, exits, ◌>>=◌, ◌>>◌, refuse_if}

-- A statement about the value of an outcome, if it has one.
abbrev pub Holds : {A : Type 0} → (A → Type 0) → Outcome A → Type 0
Holds P (ok a) = P a
Holds P (err e) = Unit
Holds P (exits n) = Unit

pub Holds-bind :
    {A B : Type 0} (P : A → Type 0) (Q : B → Type 0) (m : Outcome A) (f : A → Outcome B)
    → Holds P m
    → ((a : A) → P a → Holds Q (f a))
    → Holds Q (m >>= f)
Holds-bind P Q (ok a) f h k = k a h
Holds-bind P Q (err e) f h k = tt
Holds-bind P Q (exits n) f h k = tt

pub Holds-refuse :
    {B : Type 0} (Q : B → Type 0) (b : Bool) (e : ArgError) (k : Outcome B)
    → (b ≡ false → Holds Q k)
    → Holds Q (refuse_if b e >> k)
Holds-refuse Q true e k h = tt
Holds-refuse Q false e k h = h refl

pub ok-eq : {A : Type 0} {x y : A} → ok x ≡ ok y → x ≡ y
ok-eq p = cc

pub Holds-ok : {A : Type 0} (P : A → Type 0) (m : Outcome A) {a : A} → Holds P m → m ≡ ok a → P a
Holds-ok P (ok b) h e = subst P (ok-eq e) h
Holds-ok P (err b) h e = absurd (cc)
Holds-ok P (exits n) h e = absurd (cc)
