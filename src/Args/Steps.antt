-- ===== src/Args/Steps.antt =====
-- Statements that every option of the command line keeps, and so the loop over the options.
use expo_iperf.Common.{Bool, true, false, List, [], ◌∷◌}
use expo_iperf.Double.{Doubles}
use expo_iperf.Args.{
  Parsing, BasicOption, LoadOption, NetOption, RunOption, CliOption, basic, load, net, run,
}
use expo_iperf.Args.Outcomes.{Holds, Holds-bind}
use expo_iperf.Args.Options.{
  basic_option, load_option, net_option, run_option, one_option, all_options, no_device,
}

module _ (D : Doubles) (r : Bool) (I : Parsing D → Type 0) where
  pub Holds-no_device : (device : Bool) (s : Parsing D) → I s → Holds I (no_device D r device s)
  Holds-no_device true s h = tt
  Holds-no_device false s h = h

  pub all_options-Holds :
      ((o : BasicOption D) (s : Parsing D) → I s → Holds I (basic_option D r o s))
      → ((o : LoadOption D) (s : Parsing D) → I s → Holds I (load_option D r o s))
      → ((o : NetOption D) (s : Parsing D) → I s → Holds I (net_option D r o s))
      → ((o : RunOption D) (s : Parsing D) → I s → Holds I (run_option D r o s))
      → (options : List (CliOption D)) (s : Parsing D) → I s
      → Holds I (all_options D r options s)
  unfolding one_option all_options
  all_options-Holds b l n q [] s h = h
  all_options-Holds b l n q (o ∷ rest) s h =
      Holds-bind I I (one_option D r o s) (all_options D r rest) (one o)
        (all_options-Holds b l n q rest)
    where
      one : (o : CliOption D) → Holds I (one_option D r o s)
      one (basic o) = b o s h
      one (load o) = l o s h
      one (net o) = n o s h
      one (run o) = q o s h

-- What the options make of a value, each in its turn.
abbrev pub after_all :
    {D : Doubles} {G : Type 0} → (CliOption D → G → G) → List (CliOption D) → G → G
after_all after [] g = g
after_all after (o ∷ rest) g = after_all after rest (after o g)

-- Statements that follow such a value.
pub all_options-Moves :
    (D : Doubles) (r : Bool) {G : Type 0} (after : CliOption D → G → G) (I : G → Parsing D → Type 0)
    → ((o : CliOption D) (g : G) (s : Parsing D)
        → I g s
        → Holds (I (after o g)) (one_option D r o s))
    → (options : List (CliOption D)) (g : G) (s : Parsing D) → I g s
    → Holds (I (after_all after options g)) (all_options D r options s)
unfolding all_options
all_options-Moves D r after I one [] g s h = h
all_options-Moves D r after I one (o ∷ rest) g s h =
    Holds-bind (I (after o g)) (I (after_all after rest (after o g))) (one_option D r o s)
      (all_options D r rest) (one o g s h) (all_options-Moves D r after I one rest (after o g))
