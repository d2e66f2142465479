-- ===== src/Edit/Criteria.antt =====
-- The texts that add_modify_criteria of src/main.cpp returns.
use cli_pos.Base.{
  ℕ, zero, suc, ◌<◌, ◌≤◌, ◌≡◌, refl, Bool, false, [], ◌∷◌, Option, none, some, arith, length, take,
  ltb, ◌==◌, if◌then◌else◌, ◌≢◌,
}
use cli_pos.Base.Int.{ℤ}
use cli_pos.Edit.{
  contains_comma, cut_output, refuse_commas, without_commas, take_criteria, ask_criteria,
  criteria_rounds, add_modify_criteria,
}
use cli_pos.Fault.{exhausted, bad_optional_access, or_fail}
use cli_pos.Text.{Text, codes}
use cli_pos.Words.{to_size}
use cli_pos.World.Monad.{M, lift, printw, getch}
use cli_pos.World.Returns.{
  OnSome, Returns, return-Returns, throw-Returns, if-Returns, bind-Returns, then-Returns,
  seq-Returns, maybe-Returns, Value,
}
use cli_pos.World.State.{World, Outcome, done, stopped}
use cli_pos.Progress.Rules.{Fed}
use cli_pos.Progress.Forms.{add_modify_criteria-Quiet}

length-take : (n : ℕ) (s : Text) → length (take n s) ≤ n
length-take zero s = omega arith
length-take (suc n) [] = omega arith
length-take (suc n) (c ∷ s) = omega (arith, length-take n s)

-- No comma, and at most `n` bytes.
abbrev IsPlain : ℕ → Text → Type 0
IsPlain n s = (contains_comma s ≡ false) × (length s ≤ n)

-- And at least one.
abbrev pub IsAnswer : ℕ → Text → Type 0
IsAnswer n s = (contains_comma s ≡ false) × (0 < length s) × (length s ≤ n)

filled-IsAnswer :
    (n : ℕ) (s : Text) → 0 < n → IsPlain n s → IsAnswer n (if length s == 0 then codes "1" else s)
unfolding contains_comma
filled-IsAnswer n [] h p = (refl, omega arith, omega arith)
filled-IsAnswer n (c ∷ s) h p =
    let full : (suc (length s) == 0) ≡ false = ground arith in rw full (p.0, omega arith, p.1)

module _ {C D : Type 0} (n : ℤ) where
  cut_output-Returns :
      (s : Text) → Returns {C = C} {D = D} (λ t. length t ≤ to_size n) (cut_output n s)
  unfolding cut_output
  cut_output-Returns s =
      if-Returns (ltb (to_size n) (length s))
        (seq-Returns (printw (take (to_size n) s))
          (then-Returns getch (λ _. return-Returns _ (length-take (to_size n) s))))
        (λ short. return-Returns s (ground arith))

  module _ (h : 0 < to_size n) (again : M C D (Option Text))
      (again_plain : Returns (OnSome (IsAnswer (to_size n))) again) (criteria : Text) where
    without_commas-Returns :
        (s : Text)
        → length s ≤ to_size n
        → Returns (IsPlain (to_size n)) (without_commas again criteria s)
    unfolding without_commas
    without_commas-Returns s l =
        if-Returns (contains_comma s)
          (then-Returns (refuse_commas criteria) (λ _. bind-Returns again_plain or_fails))
          (λ plain. return-Returns s (plain, l))
      where
        or_fails :
            (o : Option Text)
            → OnSome (IsAnswer (to_size n)) o
            → Returns {C = C} {D = D} (IsPlain (to_size n)) (lift (or_fail o bad_optional_access))
        or_fails none p = throw-Returns bad_optional_access
        or_fails (some s) p = return-Returns s (p.0, p.2)

    take_criteria-Returns :
        (s : Text) → Returns (OnSome (IsAnswer (to_size n))) (take_criteria again criteria n s)
    unfolding take_criteria
    take_criteria-Returns s = bind-Returns (cut_output-Returns s) λ cut l.
        bind-Returns (without_commas-Returns cut l)
          λ output p. return-Returns (some _) (filled-IsAnswer (to_size n) output h p)

  criteria_rounds-Returns :
      (fuel : ℕ) (criteria placeholder : Text) (color : ℤ)
      → 0 < to_size n
      → Returns {C = C} {D = D}
          (OnSome (IsAnswer (to_size n)))
          (criteria_rounds fuel criteria placeholder color n)
  unfolding criteria_rounds
  criteria_rounds-Returns zero criteria placeholder color h = throw-Returns exhausted
  criteria_rounds-Returns (suc fuel) criteria placeholder color h =
      let again = criteria_rounds-Returns fuel criteria placeholder color h in
      then-Returns (ask_criteria criteria placeholder color n) λ typed.
        maybe-Returns typed (return-Returns none tt) (take_criteria-Returns h _ again criteria)

-- A call that returns `none` or a text with the property, stops by a fault that is not one of this
-- model, or waits for a key.
abbrev pub Asks : {C D : Type 0} → (Text → Type 0) → Outcome C D (Option Text) → Type 0
Asks P (done o w) = OnSome P o
Asks P (stopped f w) = f ≢ exhausted

module _ {C D : Type 0} where
  both-Asks :
      (P : Text → Type 0) (n : ℕ) (o : Outcome C D (Option Text))
      → Value (OnSome P) o
      → Fed (λ cart. Unit {0}) n o
      → Asks P o
  both-Asks P n (done o w) v h = v
  both-Asks P n (stopped f w) v h = h.0

  -- Where at least a byte is allowed, the text that add_modify_criteria returns is not empty, holds no
  -- comma, and has no more bytes than that; or the call returns nothing, stops by a fault that the code
  -- raises, or waits for a key. It does not go on for ever, however often a comma is typed.
  pub add_modify_criteria-Asks :
      (criteria placeholder : Text) (color : ℤ) (modify : Bool) (n : ℤ) (w : World C D)
      → 0 < to_size n
      → Asks (IsAnswer (to_size n)) (add_modify_criteria criteria placeholder color modify n w)
  unfolding add_modify_criteria
  add_modify_criteria-Asks criteria placeholder color modify n w h =
      let shown = if modify then placeholder else [] in
      let rounds = suc (length w.keys) in
      both-Asks (IsAnswer (to_size n)) (length w.keys) _
        ((criteria_rounds-Returns n rounds criteria shown color h).value w)
        ((add_modify_criteria-Quiet {k = rounds} criteria placeholder color modify n).fed
          (length w.keys) w (omega arith) (omega arith) tt)
