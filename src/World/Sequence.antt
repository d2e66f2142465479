-- ===== src/World/Sequence.antt =====
-- Calls that are put one behind the other.
use cli_pos.Base.{◌≡◌, refl}
use cli_pos.World.Monad.{M, and_then}
use cli_pos.World.State.{World, Outcome, done, stopped}

module _ {C D : Type 0} where
  pub and_then_cong :
      {A B : Type 0} (o : Outcome C D A) (f g : A → M C D B)
      → ((a : A) (w : World C D) → f a w ≡ g a w)
      → and_then o f ≡ and_then o g
  and_then_cong (done a w) f g h = h a w
  and_then_cong (stopped e w) f g h = refl

  pub and_then_assoc :
      {A B B' : Type 0} (o : Outcome C D A) (f : A → M C D B) (g : B → M C D B')
      → and_then (and_then o f) g ≡ and_then o (λ a w. and_then (f a w) g)
  and_then_assoc (done a w) f g = refl
  and_then_assoc (stopped e w) f g = refl
