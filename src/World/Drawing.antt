-- ===== src/World/Drawing.antt =====
-- Programs over the world that only draw.
use cli_pos.Base.{ℕ, zero, suc, ◌≡◌, refl, Bool, true, false, if◌then◌else◌, List, ◌∷◌}
use cli_pos.Text.{Text}
use cli_pos.World.State.{World, Outcome, done, Draw, printed}
use cli_pos.World.Monad.{M, and_then, ◌>>◌, return, when, draw, print_times, with_world}

module _ {C D : Type 0} where
  -- A call that only draws.
  abbrev pub Draws : World C D → Outcome C D (Unit {0}) → Type 0
  Draws w o = (scr : List Draw) × (o ≡ done tt (record w { screen = scr }))

  -- A program of such calls.
  pub record IsDrawing (m : M C D (Unit {0})) : Type 0 where
    pub drawn : (w : World C D) → Draws w (m w)

  and_then-Draws :
      (w : World C D) (o : Outcome C D (Unit {0})) (m : M C D (Unit {0}))
      → Draws w o
      → IsDrawing m
      → Draws w (and_then o (λ _. m))
  and_then-Draws w o m (scr, e) q = rw e (q.drawn (record w { screen = scr }))

  pub seq-IsDrawing : {m m' : M C D (Unit {0})} → IsDrawing m → IsDrawing m' → IsDrawing (m >> m')
  seq-IsDrawing {m} {m'} p q = record { drawn = λ w. and_then-Draws w (m w) m' (p.drawn w) q }

  pub when-IsDrawing : {m : M C D (Unit {0})} (b : Bool) → IsDrawing m → IsDrawing (when b m)
  when-IsDrawing true p = record { drawn = λ w. p.drawn w }
  when-IsDrawing false p = record { drawn = λ w. (w.screen, refl) }

  pub draw-IsDrawing : (x : Draw) → IsDrawing (draw x)
  draw-IsDrawing x = record { drawn = λ w. (x ∷ w.screen, refl) }

  pub return-IsDrawing : IsDrawing (return tt)
  return-IsDrawing = record { drawn = λ w. (w.screen, refl) }

  -- A program that looks at the world first.
  pub world-IsDrawing :
      (g : World C D → M C D (Unit {0}))
      → ((w : World C D) → IsDrawing (g w))
      → IsDrawing (λ w. g w w)
  world-IsDrawing g p = record { drawn = λ w. (p w).drawn w }

  pub with_world-IsDrawing :
      {g : World C D → M C D (Unit {0})}
      → ((w : World C D) → IsDrawing (g w))
      → IsDrawing (with_world g)
  with_world-IsDrawing {g} p = record { drawn = λ w. (p w).drawn w }

  pub if-IsDrawing :
      {m m' : M C D (Unit {0})} (b : Bool)
      → IsDrawing m
      → IsDrawing m'
      → IsDrawing (if b then m else m')
  if-IsDrawing true p q = p
  if-IsDrawing false p q = q

  print_times-Draws : (n : ℕ) (t : Text) (w : World C D) → Draws w (print_times n t w)
  unfolding print_times
  print_times-Draws zero t w = (w.screen, refl)
  print_times-Draws (suc n) t w = print_times-Draws n t (record w { screen = printed t ∷ w.screen })

  pub print_times-IsDrawing : (n : ℕ) (t : Text) → IsDrawing (print_times n t)
  print_times-IsDrawing n t = record { drawn = print_times-Draws n t }

pub ruleset drawing = (
  seq-IsDrawing, when-IsDrawing, if-IsDrawing, with_world-IsDrawing, draw-IsDrawing,
  return-IsDrawing, print_times-IsDrawing,
)
