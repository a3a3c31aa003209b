-- ===== src/Params/Exchange.antt =====
-- The server has the parameters that the client has sent.
use expo_iperf.Common.{
  ◌≤◌, ◌≡◌, ◌≢◌, ◌∙◌, ap, Bool, true, false, ◌&&◌, inr, if◌then◌else◌, Option, some, List, [], ◌∷◌,
  length, All, arith,
}
use mathlib.Core.Path.{fun_ext}
use expo_iperf.Args.{Text}
use expo_iperf.Params.Items.{
  Key, is_same, Item, Json, IsExact, or_item, IsLawful, or_item-if, or_item-none, skip_absent,
}
use expo_iperf.Params.Framing.{json_read-json_write}
use expo_iperf.Params.{
  Params, Entry, parameter_entries, max_params_json_string, set_items, build, send_parameters,
  read_object, read_text, read_parameters,
}
use expo_iperf.Params.Fields.{found, agreed, set_found}

module _ (J : Json) (w : IsLawful J) where
  get-added :
      (b : Bool) (k a : Key) (v : Item) (o : J.Object) (x : Option Item)
      → IsExact v
      → or_item (J.get k (if b then J.add a v o else o)) x
        ≡ or_item (J.get k o) (if is_same k a && b then some v else x)
  get-added true k a v o x h =
      ap (λ (g : Option Item). or_item g x) (w.get-add k a v o h)
      ∙ or_item-if (J.get k o) x (is_same k a) v
  get-added false k a v o x h = ap (or_item (J.get k o)) (skip_absent (is_same k a) v x)

  get-build :
      (l : List Entry) (o : J.Object) (k : Key)
      → All (λ (e : Entry). IsExact e.item) l
      → J.get k (build J l o) ≡ or_item (J.get k o) (found l k)
  unfolding build
  get-build [] o k h = or_item-none (J.get k o)
  get-build (e ∷ l) o k (h, hs) =
      get-build l (if e.present then J.add e.key e.item o else o) k hs
      ∙ get-added e.present k e.key e.item o (found l k) h

abbrev pub parameter_text : (J : Json) → Text → Params → List J.Char
parameter_text J version c = J.print (build J (parameter_entries version c) J.create)

-- With a cJSON that does what it documents, numbers below 2 ^ 53 and a text that is not empty and
-- has at most 8192 characters, the server reads the parameters that the client has sent: what is
-- always sent is the client's, what is sent where it is set is the client's where it is and the
-- server's otherwise, and the server receives, or sends in reverse, or does both.
pub read-send_parameters :
    (J : Json) (w : IsLawful J) (version : Text) (c s : Params)
    → All (λ (e : Entry). IsExact e.item) (parameter_entries version c)
    → length (parameter_text J version c) ≢ 0
    → length (parameter_text J version c) ≤ max_params_json_string
    → read_parameters J (send_parameters J version c) s ≡ some (agreed c s)
unfolding read_parameters send_parameters
read-send_parameters J w version c s exact some_text fits =
    let o = build J (parameter_entries version c) J.create in
    let (p, parsed, same) = w.get-parse o in
    let gets : (λ (k : Key). J.get k p) ≡ found (parameter_entries version c) = fun_ext λ k.
      same k
      ∙ get-build J w (parameter_entries version c) J.create k exact
      ∙ ap (λ (g : Option Item). or_item g (found (parameter_entries version c) k))
          (w.get-create k) in
    ap (λ (t : Option (List J.Char)). read_text J t s)
      (json_read-json_write max_params_json_string (J.print o) some_text (omega (arith, fits))
        (inr fits)).1
    ∙ ap (λ (q : Option J.Object). read_object J q s) parsed
    ∙ ap (λ (g : Key → Option Item). some (set_items J.valueint g s)) gets
    ∙ ap some (set_found J.valueint version c s w.valueint-number)
