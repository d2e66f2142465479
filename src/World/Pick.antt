-- ===== src/World/Pick.antt =====
-- What keys choose among numbered options: the shape of the loops in selection_list of src/menus.cpp
-- and add_modify_product of src/main.cpp.
use cli_pos.Base.{
  ℕ, ◌<◌, ◌≡◌, Bool, true, false, ◌&&◌, List, [], ◌∷◌, Option, none, some, ◌==◌, Bool-cases, inl,
  inr,
}
use cli_pos.Fault.{waiting}
use cli_pos.World.State.{World, Outcome, done, stopped, Draw}
use cli_pos.World.Monad.{key_enter, key_esc}

-- An option with the keys that are left, none of them, or no end yet.
pub data Pick : Type 0 where
  chosen : ℕ → List ℕ → Pick
  given_up : List ℕ → Pick
  unanswered : Pick

-- Enter chooses the option that is selected, Esc gives up where that is allowed, and any other key
-- moves the selection by `step`.
unfoldable pub pick : (ℕ → ℕ → ℕ) → Bool → ℕ → List ℕ → Pick
pick step can_give_up selection [] = unanswered
pick step can_give_up selection (key ∷ keys) = elim (key == key_enter) [
  | true ↦ chosen selection keys
  | false ↦ elim ((key == key_esc) && can_give_up) [
    | true ↦ given_up keys
    | false ↦ pick step can_give_up (step key selection) keys
  ]
]

module _ {C D : Type 0} where
  -- The call ends as the keys have it, and changes nothing but the keys to come and the screen.
  abbrev pub Picks : World C D → Pick → Outcome C D (Option ℕ) → Type 0
  Picks w (chosen i rest) o =
      (scr : List Draw) × (o ≡ done (some i) (record w { keys = rest; screen = scr }))
  Picks w (given_up rest) o =
      (scr : List Draw) × (o ≡ done none (record w { keys = rest; screen = scr }))
  Picks w unanswered o =
      (scr : List Draw) × (o ≡ stopped waiting (record w { keys = []; screen = scr }))

-- An option that is chosen is one of the `n` options.
abbrev pub IsOption : ℕ → Pick → Type 0
IsOption n (chosen i rest) = i < n
IsOption n (given_up rest) = Unit {0}
IsOption n unanswered = Unit {0}

-- Steps that stay within the options choose one of them.
pub pick-IsOption :
    (n : ℕ) (step : ℕ → ℕ → ℕ) (can : Bool) (selection : ℕ) (keys : List ℕ)
    → ((key i : ℕ) → i < n → step key i < n)
    → selection < n
    → IsOption n (pick step can selection keys)
unfolding pick
pick-IsOption n step can selection [] h l = tt
pick-IsOption n step can selection (key ∷ keys) h l = elim (Bool-cases (key == key_enter)) [
  | inl enter ↦ rw (enter, pick) l
  | inr other ↦ elim (Bool-cases ((key == key_esc) && can)) [
    | inl esc ↦ rw (other, pick, esc) tt
    | inr plain ↦
        rw (other, pick, plain)
          (pick-IsOption n step can (step key selection) keys h (h key selection l))
  ]
]
