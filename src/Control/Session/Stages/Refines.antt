-- ===== src/Control/Session/Stages/Refines.antt =====
-- What the two ends do together is what the automaton does.
use mathlib.Core.Option
