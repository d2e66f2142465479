-- ===== src/Menu/Edits.antt =====
-- What run_menu of src/menus.cpp does to a variable that a menu names, as a function of the keys.
use mathlib.Core.Option.{some-injective}
use cli_pos.Base.{
  ℕ, ◌≡◌, refl, ap, ◌∙◌, Bool, true, not, List, [], Option, none, some, if◌then◌else◌, Bool-cases,
  inl, inr,
}
use cli_pos.Base.Int.{ℤ, pos, eq_ℤ}
use cli_pos.Fault.{checked, Result, ok, err}
use cli_pos.Input.{remove_non_nr}
use cli_pos.Input.Line.{Line, entered, cancelled, pending, Reads}
use cli_pos.Input.Buffer.{read_line, get_string-read_line}
use cli_pos.Menu.Data.{
  StringItem, shop_name, shop_code, shop_addres, printer_device_file, test_s, max_name_length,
  nr_of_newlines, test_i, IntItem, ItemData, to_menu, string_item, funct, int_item, float_item,
  bool_item, exit_item, get_string_item, set_string_item, get_int_item, set_int_item, white_pair,
}
use cli_pos.Menu.Run.{ask, run_value, set_settings}
use cli_pos.Text.{Text, stoi, to_string}
use cli_pos.World.Double.{Double}
use cli_pos.World.Monad.{M, ◌>>=◌, and_then, return, maybe, when, lift}
use cli_pos.World.State.{World, Outcome, Settings, Draw, done}

abbrev with_rest : {D : Type 0} → List ℕ → Option (Settings D) → Option (Settings D × List ℕ)
with_rest rest none = none
with_rest rest (some s) = some (s, rest)

-- What a line that was asked for makes of the settings, with the keys that are left: nothing where it is
-- cancelled, and no answer where it does not end or its text cannot be taken.
abbrev on_line :
    {D : Type 0} → Line → (Text → Option (Settings D)) → Settings D → Option (Settings D × List ℕ)
on_line (entered t rest) f s = with_rest rest (f t)
on_line (cancelled rest) f s = some (s, rest)
on_line pending f s = none

-- A number that is read is set where it is not 0.
abbrev number :
    {A D : Type 0}
    → Result A
    → (A → Bool)
    → (A → Settings D → Settings D)
    → Settings D
    → Option (Settings D)
number (ok n) is_nought set s = some (if is_nought n then s else set n s)
number (err f) is_nought set s = none

-- The variable that an item is about, field by field, and the settings with another value for it.
abbrev text_of : {D : Type 0} → StringItem → Settings D → Text
text_of shop_name s = s.shop_name
text_of shop_code s = s.shop_code
text_of shop_addres s = s.shop_addres
text_of printer_device_file s = s.printer_device_file
text_of test_s s = s.test_s

abbrev with_text : {D : Type 0} → StringItem → Text → Settings D → Settings D
with_text shop_name t s = record s { shop_name = t }
with_text shop_code t s = record s { shop_code = t }
with_text shop_addres t s = record s { shop_addres = t }
with_text printer_device_file t s = record s { printer_device_file = t }
with_text test_s t s = record s { test_s = t }

abbrev value_of : {D : Type 0} → IntItem → Settings D → ℤ
value_of max_name_length s = s.max_name_length
value_of nr_of_newlines s = s.nr_of_newlines
value_of test_i s = s.test_i

abbrev with_value : {D : Type 0} → IntItem → ℤ → Settings D → Settings D
with_value max_name_length n s = record s { max_name_length = n }
with_value nr_of_newlines n s = record s { nr_of_newlines = n }
with_value test_i n s = record s { test_i = n }

module _ {D : Type 0} where
  string_item_lem :
      (v : StringItem) (t : Text) (s : Settings D)
      → (get_string_item v s ≡ text_of v s) × (set_string_item v t s ≡ with_text v t s)
  unfolding get_string_item set_string_item
  string_item_lem shop_name t s = (refl, refl)
  string_item_lem shop_code t s = (refl, refl)
  string_item_lem shop_addres t s = (refl, refl)
  string_item_lem printer_device_file t s = (refl, refl)
  string_item_lem test_s t s = (refl, refl)

  int_item_lem :
      (v : IntItem) (n : ℤ) (s : Settings D)
      → (get_int_item v s ≡ value_of v s) × (set_int_item v n s ≡ with_value v n s)
  unfolding get_int_item set_int_item
  int_item_lem max_name_length n s = (refl, refl)
  int_item_lem nr_of_newlines n s = (refl, refl)
  int_item_lem test_i n s = (refl, refl)

module _ {D : Type 0} ⦃d : Double D⦄ where
  abbrev of_int : IntItem → Settings D → Text → Option (Settings D)
  of_int v s t = number (stoi (remove_non_nr t)) (λ n. eq_ℤ n (pos 0)) (with_value v) s

  abbrev of_float : Settings D → Text → Option (Settings D)
  of_float s t =
      number (checked (d.stof (remove_non_nr t))) (λ x. d.eq x (d.of_int (pos 0)))
        (λ x s. record s { test_f = x }) s

  -- A text is taken as it is typed over the old one; a number is what is left of the text without the
  -- other bytes, where that is not 0; a truth value is negated.
  abbrev pub edited : ItemData → Settings D → List ℕ → Option (Settings D × List ℕ)
  edited (string_item v) s keys =
      on_line (read_line (pos 0) (text_of v s) keys) (λ t. some (with_text v t s)) s
  edited (int_item v) s keys =
      on_line (read_line (pos 0) (to_string (value_of v s)) keys) (of_int v s) s
  edited float_item s keys = on_line (read_line (pos 0) (d.print s.test_f) keys) (of_float s) s
  edited bool_item s keys = some (record s { test_b = not s.test_b }, keys)
  edited _ s keys = none

module _ {D : Type 0} where
  taken_lem :
      (r : Option (Settings D)) (left : List ℕ) (s : Settings D) (rest : List ℕ)
      → with_rest left r ≡ some (s, rest)
      → (s' : Settings D) × (r ≡ some s') × ◌≡◌ {A = Settings D × List ℕ} (s', left) (s, rest)
  taken_lem none left s rest e = cc
  taken_lem (some s') left s rest e = (s', refl, some-injective _ _ e)

module _ {C D : Type 0} where
  -- The call changes nothing but the settings, the keys and the screen.
  abbrev pub Sets : World C D → Settings D → List ℕ → Outcome C D (Unit {0}) → Type 0
  Sets w s rest o =
      (scr : List Draw) × (o ≡ done tt (record w { settings = s; keys = rest; screen = scr }))

  ask_lem :
      (output : ℕ) (shown : Text) (w : World C D)
      → Reads w (read_line (pos 0) shown w.keys) (ask output shown w)
  unfolding ask
  ask_lem output shown w =
      get_string-read_line true shown white_pair (pos 0) (record w { screen = _ })

  -- A line that is asked for, and what is done with its text.
  asked_lem :
      (l : Line) (o : Outcome C D (Option Text)) (f : Text → Option (Settings D))
      (k : Text → M C D (Unit {0})) (w : World C D) (s : Settings D) (rest : List ℕ)
      → Reads w l o
      → ((t : Text) (s : Settings D) (w' : World C D)
          → f t ≡ some s
          → w'.settings ≡ w.settings
          → k t w' ≡ done tt (record w' { settings = s }))
      → on_line l f w.settings ≡ some (s, rest)
      → Sets w s rest (and_then o (λ str. maybe str (return tt) k))
  asked_lem (entered t left) o f k w s rest (scr, e) h c =
      let (s', taken, same) = taken_lem (f t) left s rest c in
      let w₁ = record w { keys = left; screen = scr } in
      (
        scr,
        rw e (
            h t s' w₁ taken refl
            ∙ ap (λ p. done tt (record w₁ { settings = p.0; keys = p.1 })) same),
      )
  asked_lem (cancelled left) o f k w s rest (scr, e) h c =
      let w₁ = record w { keys = left; screen = scr } in
      (
        scr,
        rw e (ap (λ p. done tt (record w₁ { settings = p.0; keys = p.1 })) (some-injective _ _ c)),
      )
  asked_lem pending o f k w s rest r h c = cc

module _ {C D A : Type 0} where
  number_lem :
      (r : Result A) (is_nought : A → Bool) (code set : A → Settings D → Settings D)
      (agree : (n : A) (s : Settings D) → code n s ≡ set n s) (s s' : Settings D) (w : World C D)
      → number r is_nought set s ≡ some s'
      → w.settings ≡ s
      → (lift r >>= λ n. when (not (is_nought n)) (set_settings (code n))) w
        ≡ done tt (record w { settings = s' })
  unfolding set_settings
  number_lem (err f) is_nought code set agree s s' w e same = cc
  number_lem (ok n) is_nought code set agree s s' w e same = elim (Bool-cases (is_nought n)) [
    | inl nought ↦
        let kept : s ≡ s' = some-injective _ _ (rw nought at e) in
        rw nought (ap (λ s. done tt (record w { settings = s })) (same ∙ kept))
    | inr other ↦
        let put : set n s ≡ s' = some-injective _ _ (rw other at e) in
        rw other (
          ap (λ s. done tt (record w { settings = s }))
            (agree n w.settings ∙ ap (set n) same ∙ put))
  ]

module _ {C D : Type 0} ⦃d : Double D⦄ where
  -- An item that holds a variable does to the settings what `edited` says.
  pub run_value-Sets :
      (output : ℕ) (kind : ItemData) (w : World C D) (s : Settings D) (rest : List ℕ)
      → edited kind w.settings w.keys ≡ some (s, rest)
      → Sets w s rest (run_value output kind w)
  unfolding run_value set_settings
  run_value-Sets output (to_menu m) w s rest e = cc
  run_value-Sets output (funct a) w s rest e = cc
  run_value-Sets output exit_item w s rest e = cc
  run_value-Sets output bool_item w s rest e =
      (w.screen, ap (λ p. done tt (record w { settings = p.0; keys = p.1 })) (some-injective _ _ e))
  run_value-Sets output (string_item v) w s rest e = rw (string_item_lem v [] w.settings).0 (
      asked_lem (read_line (pos 0) (text_of v w.settings) w.keys)
        (ask output (text_of v w.settings) w) (λ t. some (with_text v t w.settings)) _ w s rest
        (ask_lem output (text_of v w.settings) w)
        (λ t s' w' taken same.
          ap (λ s. done tt (record w' { settings = s }))
            ((string_item_lem v t w'.settings).1
              ∙ ap (with_text v t) same
              ∙ some-injective _ _ taken))
        e)
  run_value-Sets output (int_item v) w s rest e = rw (int_item_lem v (pos 0) w.settings).0 (
      asked_lem (read_line (pos 0) (to_string (value_of v w.settings)) w.keys)
        (ask output (to_string (value_of v w.settings)) w) (of_int v w.settings) _ w s rest
        (ask_lem output (to_string (value_of v w.settings)) w)
        (λ t s' w' taken same.
          number_lem (stoi (remove_non_nr t)) _ (set_int_item v) (with_value v)
            (λ n s. (int_item_lem v n s).1) w.settings s' w' taken same)
        e)
  run_value-Sets output float_item w s rest e =
      asked_lem (read_line (pos 0) (d.print w.settings.test_f) w.keys)
        (ask output (d.print w.settings.test_f) w) (of_float w.settings) _ w s rest
        (ask_lem output (d.print w.settings.test_f) w)
        (λ t s' w' taken same.
          number_lem (checked (d.stof (remove_non_nr t))) _ (λ x s. record s { test_f = x })
            (λ x s. record s { test_f = x }) (λ x s. refl) w.settings s' w' taken same)
        e
