-- ===== src/World/Monad.antt =====
-- Programs over the world: a call takes the world and hands it on, or stops.
use cli_pos.Base.{ℕ, zero, suc, Bool, true, false, [], ◌∷◌, Option, none, some}
use cli_pos.Base.Int.{ℤ}
use cli_pos.Fault.{Fault, Result, ok, err, waiting}
use cli_pos.Text.{Text}
use cli_pos.World.State.{
  World, Outcome, done, stopped, Draw, printed, added, moved, cleared, refreshed,
}

abbrev pub M : (C D A : Type 0) → Type 0
M C D A = World C D → Outcome C D A

abbrev pub and_then :
    {C D A B : Type 0} → Outcome C D A → (A → World C D → Outcome C D B) → Outcome C D B
and_then (done a w) f = f a w
and_then (stopped e w) f = stopped e w

infixl 5 ◌>>=◌ ◌>>◌
abbrev pub ◌>>=◌ : {C D A B : Type 0} → M C D A → (A → M C D B) → M C D B
◌>>=◌ m f w = and_then (m w) f

abbrev pub ◌>>◌ : {C D B : Type 0} → M C D (Unit {0}) → M C D B → M C D B
◌>>◌ m k w = and_then (m w) (λ _. k)

abbrev pub return : {C D A : Type 0} → A → M C D A
return a w = done a w

abbrev pub throw : {C D A : Type 0} → Fault → M C D A
throw e w = stopped e w

abbrev pub lift : {C D A : Type 0} → Result A → M C D A
lift (ok a) w = done a w
lift (err e) w = stopped e w

-- A program that looks at the world first.
abbrev pub with_world : {C D A : Type 0} → (World C D → M C D A) → M C D A
with_world f w = f w w

-- `if (o) f(*o); else m`.
abbrev pub maybe : {C D A B : Type 0} → Option B → M C D A → (B → M C D A) → M C D A
maybe none m f w = m w
maybe (some b) m f w = f b w

-- `if (b) m`.
abbrev pub when : {C D : Type 0} → Bool → M C D (Unit {0}) → M C D (Unit {0})
when true m w = m w
when false m w = done tt w

module _ {C D : Type 0} where
  abbrev pub get : M C D (World C D)
  get w = done w w

  abbrev pub draw : Draw → M C D (Unit {0})
  draw d w = done tt (record w { screen = d ∷ w.screen })

  abbrev pub printw : Text → M C D (Unit {0})
  printw t = draw (printed t)

  -- `for (i = 0; i < n; i++) printw(t);`
  unfoldable pub print_times : ℕ → Text → M C D (Unit {0})
  print_times zero t = return tt
  print_times (suc n) t = do printw t; print_times n t

  abbrev pub addch : ℕ → M C D (Unit {0})
  addch c = draw (added c)

  abbrev pub move : ℤ → ℤ → M C D (Unit {0})
  move y x = draw (moved y x)

  abbrev pub clear : M C D (Unit {0})
  clear = draw cleared

  abbrev pub refresh : M C D (Unit {0})
  refresh = draw refreshed

  abbrev pub getyx : M C D (ℤ × ℤ)
  getyx w = done (w.terminal.cursor w.screen) w

  -- getch waits for a key.
  unfoldable pub getch : M C D ℕ
  getch w = elim w.keys [
    | [] ↦ stopped waiting w
    | key ∷ keys ↦ done key (record w { keys = keys })
  ]

-- The codes of ncurses for keys, and those that the program defines.
abbrev pub key_up : ℕ
key_up = 259

abbrev pub key_down : ℕ
key_down = 258

abbrev pub key_backspace : ℕ
key_backspace = 263

abbrev pub key_delete : ℕ
key_delete = 8

abbrev pub key_esc : ℕ
key_esc = 27

abbrev pub key_enter : ℕ
key_enter = 10
