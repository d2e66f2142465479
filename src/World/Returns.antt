-- ===== src/World/Returns.antt =====
-- What the value that a call returns is known to be, with a rule for each way to put calls together.
use cli_pos.Base.{ℕ, List, ◌∷◌, ◌≡◌, refl, Bool, true, false, Option, none, some, if◌then◌else◌}
use cli_pos.Fault.{Fault, or_fail}
use cli_pos.World.State.{World, Outcome, done, stopped}
use cli_pos.World.Monad.{M, ◌>>=◌, ◌>>◌, and_then, return, throw, lift, maybe, with_world, getch}

-- The value has the property, where there is one.
abbrev pub Value : {C D A : Type 0} → (A → Type 0) → Outcome C D A → Type 0
Value P (done a w) = P a
Value P (stopped f w) = Unit {0}

abbrev pub OnSome : {A : Type 0} → (A → Type 0) → Option A → Type 0
OnSome P none = Unit {0}
OnSome P (some a) = P a

pub record Returns {C D A : Type 0} (P : A → Type 0) (m : M C D A) : Type 0 where
  pub value : (w : World C D) → Value P (m w)

module _ {C D A : Type 0} where
  any-Value : (o : Outcome C D A) → Value (λ a. Unit {0}) o
  any-Value (done a w) = tt
  any-Value (stopped f w) = tt

  pub any-Returns : (m : M C D A) → Returns (λ a. Unit {0}) m
  any-Returns m = record { value = λ w. any-Value (m w) }

  pub return-Returns : {P : A → Type 0} (a : A) → P a → Returns {C = C} {D = D} P (return a)
  return-Returns a p = record { value = λ w. p }

  pub throw-Returns : {P : A → Type 0} (f : Fault) → Returns {C = C} {D = D} P (throw f)
  throw-Returns f = record { value = λ w. tt }

  pub if-Returns :
      {P : A → Type 0} {m m' : M C D A} (b : Bool)
      → Returns P m
      → (b ≡ false → Returns P m')
      → Returns P (if b then m else m')
  if-Returns true p q = p
  if-Returns false p q = q refl

  pub or_fail-Returns :
      {P : A → Type 0} (o : Option A) (f : Fault)
      → OnSome P o
      → Returns {C = C} {D = D} P (lift (or_fail o f))
  or_fail-Returns none f p = record { value = λ w. tt }
  or_fail-Returns (some a) f p = record { value = λ w. p }

  pub with_world-Returns :
      {P : A → Type 0} (g : World C D → M C D A)
      → ((w : World C D) → Returns P (g w))
      → Returns P (with_world g)
  with_world-Returns g q = record { value = λ w. (q w).value w }

module _ {C D A B : Type 0} {P : A → Type 0} {Q : B → Type 0} where
  and_then-Value :
      (o : Outcome C D A) (f : A → M C D B)
      → Value P o
      → ((a : A) → P a → Returns Q (f a))
      → Value Q (and_then o f)
  and_then-Value (done a w) f p q = (q a p).value w
  and_then-Value (stopped e w) f p q = tt

  pub bind-Returns :
      {m : M C D A} {f : A → M C D B}
      → Returns P m
      → ((a : A) → P a → Returns Q (f a))
      → Returns Q (m >>= f)
  bind-Returns {m} {f} p q = record { value = λ w. and_then-Value (m w) f (p.value w) q }

module _ {C D A B : Type 0} {Q : B → Type 0} where
  -- Where nothing is known of the first value.
  pub then-Returns :
      (m : M C D A) {f : A → M C D B} → ((a : A) → Returns Q (f a)) → Returns Q (m >>= f)
  then-Returns m {f} q = bind-Returns {m = m} {f = f} (any-Returns m) (λ a p. q a)

  pub maybe-Returns :
      {m : M C D B} {f : A → M C D B} (o : Option A)
      → Returns Q m
      → ((a : A) → Returns Q (f a))
      → Returns Q (maybe o m f)
  maybe-Returns none p q = p
  maybe-Returns (some a) p q = q a

module _ {C D B : Type 0} {Q : B → Type 0} where
  pub seq-Returns : (m : M C D (Unit {0})) {m' : M C D B} → Returns Q m' → Returns Q (m >> m')
  seq-Returns m {m'} q = then-Returns m {f = λ _. m'} (λ _. q)

module _ {C D : Type 0} where
  pub getch_lem :
      (key : ℕ) (keys : List ℕ) (w : World C D)
      → w.keys ≡ key ∷ keys
      → getch w ≡ done key (record w { keys = keys })
  unfolding getch
  getch_lem key keys w typed = rw (typed, getch)
