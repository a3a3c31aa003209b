-- ===== src/Sockets/Ledger.antt =====
-- What a function of sockets holds: the descriptors that are open and the addresses that are
-- allocated, whatever the system answers.
use expo_iperf.Common.{
  ℕ, Option, none, some, List, ◌∷◌, Bool, true, false, ◌≡◌, refl, if◌then◌else◌,
}
use expo_iperf.Sockets.{
  Address, Allocation, Request, bind_to, connect_to, Answer, ok, err, Opening, accept, Prog, ret,
  fail, allocate, open_socket, ask, invoke, receive, close, free, ◌>>=◌, or_else, nothing,
}

-- `rest` is `l` without one `x`.
pub data Take {A : Type 0} (x : A) : List A → List A → Type 0 where
  here : {l : List A} → Take x (x ∷ l) l
  there : {y : A} {l rest : List A} → Take x l rest → Take x (y ∷ l) (y ∷ rest)

abbrev pub Holds : {A : Type 0} → A → List A → Type 0
Holds {A} x l = (rest : List A) × Take x l rest

-- The addresses that a call reads are allocated.
abbrev pub Reads : Request → List Address → Type 0
Reads (bind_to a port) held = Holds a held
Reads (connect_to a) held = Holds a held
Reads _ held = Unit

abbrev pub Listens : Opening → List ℕ → Type 0
Listens (accept s) fds = Holds s fds
Listens _ fds = Unit

abbrev pub Post : Type 0 → Type 1
Post A = A → List ℕ → List Address → Type 0

-- Whatever the system answers, from the open descriptors `fds` and the addresses `held`: a call is
-- on an open descriptor and reads addresses that are allocated, what is closed is open, what is
-- freed is allocated, the fuel does not run out, and what the function ends with satisfies `P`, or
-- `Q` where it fails, with what is held then. Of the bytes that are read `R` is known.
pub data Safe {E A : Type 0} (R : List ℕ → Type 0) (P : Post A) (Q : Post E)
    : List ℕ → List Address → Prog E A → Type 0 where
  s_ret : {fds : List ℕ} {held : List Address} {a : A} → P a fds held → Safe R P Q fds held (ret a)
  s_fail :
      {fds : List ℕ} {held : List Address} {e : E} → Q e fds held → Safe R P Q fds held (fail e)
  s_allocate :
      {fds : List ℕ} {held : List Address} {l : Allocation} {k : Option Address → Prog E A}
      → Safe R P Q fds held (k none)
      → ((a : Address) → Safe R P Q fds (a ∷ held) (k (some a)))
      → Safe R P Q fds held (allocate l k)
  s_open :
      {fds : List ℕ} {held : List Address} {o : Opening} {k : Option ℕ → Prog E A}
      → Listens o fds
      → Safe R P Q fds held (k none)
      → ((s : ℕ) → Safe R P Q (s ∷ fds) held (k (some s)))
      → Safe R P Q fds held (open_socket o k)
  s_ask :
      {fds : List ℕ} {held : List Address} {s : ℕ} {r : Request} {k : Answer → Prog E A}
      → Holds s fds
      → Reads r held
      → ((a : Answer) → Safe R P Q fds held (k a))
      → Safe R P Q fds held (ask s r k)
  s_invoke :
      {fds : List ℕ} {held : List Address} {r : Request} {k : Answer → Prog E A}
      → ((a : Answer) → Safe R P Q fds held (k a))
      → Safe R P Q fds held (invoke r k)
  s_receive :
      {fds : List ℕ} {held : List Address} {s n : ℕ} {k : Option (List ℕ) → Prog E A}
      → Holds s fds
      → Safe R P Q fds held (k none)
      → ((l : List ℕ) → R l → Safe R P Q fds held (k (some l)))
      → Safe R P Q fds held (receive s n k)
  s_close :
      {fds rest : List ℕ} {held : List Address} {s : ℕ} {p : Prog E A}
      → Take s fds rest
      → Safe R P Q rest held p
      → Safe R P Q fds held (close s p)
  s_free :
      {fds : List ℕ} {held rest : List Address} {a : Address} {p : Prog E A}
      → Take a held rest
      → Safe R P Q fds rest p
      → Safe R P Q fds held (free (some a) p)

-- Nothing is opened or closed.
abbrev pub Same : {A : Type 0} → List ℕ → List Address → Post A
Same fds held a fds' held' = (fds' ≡ fds) × (held' ≡ held)

module _ {E : Type 0} {R : List ℕ → Type 0} where
  pub Safe-bind :
      {A B : Type 0} {P : Post A} {S : Post B} {Q : Post E} {f : A → Prog E B} {fds : List ℕ}
      {held : List Address} {p : Prog E A}
      → Safe R P Q fds held p
      → ((a : A) (fds' : List ℕ) (held' : List Address)
          → P a fds' held'
          → Safe R S Q fds' held' (f a))
      → Safe R S Q fds held (p >>= f)
  Safe-bind (s_ret h) g = g _ _ _ h
  Safe-bind (s_fail h) g = s_fail h
  Safe-bind (s_allocate h k) g = s_allocate (Safe-bind h g) (λ a. Safe-bind (k a) g)
  Safe-bind (s_open o h k) g = s_open o (Safe-bind h g) (λ s. Safe-bind (k s) g)
  Safe-bind (s_ask o r k) g = s_ask o r (λ a. Safe-bind (k a) g)
  Safe-bind (s_invoke k) g = s_invoke (λ a. Safe-bind (k a) g)
  Safe-bind (s_receive o h k) g = s_receive o (Safe-bind h g) (λ l r. Safe-bind (k l r) g)
  Safe-bind (s_close t h) g = s_close t (Safe-bind h g)
  Safe-bind (s_free t h) g = s_free t (Safe-bind h g)

  pub Safe-or_else :
      {F A : Type 0} {P : Post A} {Q : Post E} {S : Post F} {f : E → Prog F A} {fds : List ℕ}
      {held : List Address} {p : Prog E A}
      → Safe R P Q fds held p
      → ((e : E) (fds' : List ℕ) (held' : List Address)
          → Q e fds' held'
          → Safe R P S fds' held' (f e))
      → Safe R P S fds held (or_else p f)
  Safe-or_else (s_ret h) g = s_ret h
  Safe-or_else (s_fail h) g = g _ _ _ h
  Safe-or_else (s_allocate h k) g = s_allocate (Safe-or_else h g) (λ a. Safe-or_else (k a) g)
  Safe-or_else (s_open o h k) g = s_open o (Safe-or_else h g) (λ s. Safe-or_else (k s) g)
  Safe-or_else (s_ask o r k) g = s_ask o r (λ a. Safe-or_else (k a) g)
  Safe-or_else (s_invoke k) g = s_invoke (λ a. Safe-or_else (k a) g)
  Safe-or_else (s_receive o h k) g = s_receive o (Safe-or_else h g) (λ l r. Safe-or_else (k l r) g)
  Safe-or_else (s_close t h) g = s_close t (Safe-or_else h g)
  Safe-or_else (s_free t h) g = s_free t (Safe-or_else h g)

  -- What a call does at the end, by its answer.
  pub Safe-last :
      {S : Post (Unit {0})} {Q : Post E} {fds : List ℕ} {held : List Address}
      (p : Prog E (Unit {0}))
      → Safe R S Q fds held p
      → S tt fds held
      → (a : Answer) → Safe R S Q fds held (elim a [ ok n ↦ ret tt | err e ↦ p ])
  Safe-last p h k (ok n) = s_ret k
  Safe-last p h k (err e) = h

  module _ {A : Type 0} {P : Post A} {Q : Post E} {fds : List ℕ} {held : List Address} where
    pub Safe-if :
        (b : Bool) {p q : Prog E A}
        → (b ≡ true → Safe R P Q fds held p)
        → (b ≡ false → Safe R P Q fds held q)
        → Safe R P Q fds held (if b then p else q)
    Safe-if true h k = h refl
    Safe-if false h k = k refl

    -- What follows a call that is needed, by its answer.
    pub Safe-need :
        (p : Prog E (Unit {0})) (f : Unit {0} → Prog E A)
        → Safe R P Q fds held (p >>= f)
        → Safe R P Q fds held (f tt)
        → (a : Answer) → Safe R P Q fds held ((elim a [ ok n ↦ ret tt | err e ↦ p ]) >>= f)
    Safe-need p f h k (ok n) = k
    Safe-need p f h k (err e) = h

    -- What follows a step that is made in one case only.
    pub Safe-when :
        (b : Bool) (p : Prog E (Unit {0})) (f : Unit {0} → Prog E A)
        → Safe R P Q fds held (f tt)
        → (b ≡ true → Safe R P Q fds held (p >>= f))
        → Safe R P Q fds held ((if b then p else nothing) >>= f)
    Safe-when true p f h k = k refl
    Safe-when false p f h k = h

    -- What is held, by equations.
    pub Safe-at :
        {fds' : List ℕ} {held' : List Address} {p : Prog E A}
        → (fds' ≡ fds) × (held' ≡ held)
        → Safe R P Q fds held p
        → Safe R P Q fds' held' p
    Safe-at {p} (e, d) h = rw (e, d) h

    -- What follows a step that leaves all as it is.
    pub Safe-then :
        (p : Prog E (Unit {0})) (f : Unit {0} → Prog E A)
        → Safe R (Same fds held) Q fds held p
        → Safe R P Q fds held (f tt)
        → Safe R P Q fds held (p >>= f)
    Safe-then p f h k = Safe-bind h (λ _ _ _ e. Safe-at e k)
