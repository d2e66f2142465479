-- ===== src/Basket/Remove.antt =====
-- The key `R` of src/main.cpp on a basket.
use cli_pos.Base.{
  ◌≡◌, refl, ap, ◌≢◌, Bool, true, false, List, [], ◌∷◌, ◌++◌, Option, none, some, arith, Bool-cases,
  inl, inr, if◌then◌else◌,
}
use cli_pos.Base.Int.{ℤ, pos, eq_ℤ, eq_ℤ_iff, eq_ℤ_refl}
use cli_pos.Fault.{Result, ok, err, undefined}
use cli_pos.Product.{Product}
use cli_pos.World.Double.{Double}
use cli_pos.World.State.{BasketProduct}
use cli_pos.Basket.{entry, add_from, add_product_to_basket, remove_one}
use cli_pos.Basket.Quantity.{quantity_of, Absent, IsDistinct, add_from-cons}

same_code : (b c code : ℤ) → eq_ℤ b code ≡ true → eq_ℤ b c ≡ eq_ℤ code c
same_code b c code e = ap (λ a. eq_ℤ a c) ((eq_ℤ_iff b code).0 e)

module _ {D : Type 0} ⦃d : Double D⦄ where
  abbrev one_less : D → D
  one_less q = d.sub q (d.of_int (pos 1))

  abbrev is_nought : D → Bool
  is_nought q = d.eq q (d.of_int (pos 0))

  -- What is left of a quantity when one is taken away.
  abbrev pub decreased : D → Option D
  decreased q = if is_nought (one_less q) then none else some (one_less q)

  abbrev pub Removes : ℤ → List (BasketProduct D) → Result (List (BasketProduct D)) → Type 0
  Removes code basket (err f) = (f ≡ undefined) × (quantity_of code basket ≡ none)
  Removes code basket (ok r) =
      (q : D) × (quantity_of code basket ≡ some q)
      × (quantity_of code r ≡ decreased q)
      × ((c : ℤ) → eq_ℤ code c ≡ false → quantity_of c r ≡ quantity_of c basket)

  Absent-quantity_of :
      (c : ℤ) (basket : List (BasketProduct D)) → Absent c basket → quantity_of c basket ≡ none
  unfolding quantity_of
  Absent-quantity_of c [] a = refl
  Absent-quantity_of c (b ∷ basket) a = rw (a.0, quantity_of) (Absent-quantity_of c basket a.1)

  Removes-head :
      (code : ℤ) (b : BasketProduct D) (basket : List (BasketProduct D))
      → Absent b.code basket
      → eq_ℤ b.code code ≡ true
      → Removes code (b ∷ basket) (
          ok (
            if is_nought (one_less b.quantity)
            then basket
            else entry b.code (one_less b.quantity) ∷ basket))
  unfolding quantity_of
  Removes-head code b basket a e =
      let gone : quantity_of code basket ≡ none =
        rw ((eq_ℤ_iff b.code code).0 e) at (Absent-quantity_of b.code basket a) in
      (b.quantity, ground arith, ground arith, λ c h. ground (arith, same_code b.code c code e))

  Removes-tail :
      (code : ℤ) (b : BasketProduct D) (basket : List (BasketProduct D))
      (o : Result (List (BasketProduct D)))
      → eq_ℤ b.code code ≡ false
      → Removes code basket o
      → Removes code (b ∷ basket) (elim o [ ok rest ↦ ok (b ∷ rest) | err f ↦ err f ])
  unfolding quantity_of
  Removes-tail code b basket (err f) e (h, k) = (h, rw (e, quantity_of) k)
  Removes-tail code b basket (ok r) e (q, h, k, l) =
      (q, rw (e, quantity_of) h, rw (e, quantity_of) k, λ c m. ground (arith, l c m))

  -- On a basket that holds each code once, `R` takes one from the quantity of the selected code and
  -- drops the entry at 0, and changes no other; where the code is not there it reads past the end.
  pub remove_one-Removes :
      (code : ℤ) (basket : List (BasketProduct D))
      → IsDistinct basket
      → Removes code basket (remove_one code basket)
  unfolding remove_one quantity_of
  remove_one-Removes code [] h = (refl, refl)
  remove_one-Removes code (b ∷ basket) h = elim (Bool-cases (eq_ℤ b.code code)) [
    | inl e ↦ rw (e, remove_one) (Removes-head code b basket h.0 e)
    | inr e ↦
        rw (e, remove_one) (Removes-tail code b basket _ e (remove_one-Removes code basket h.1))
  ]

  -- Quantities at which adding one and taking one away are inverse, and which are not 0: whole
  -- numbers from 1 to 2^53 - 1, for a `double`.
  abbrev pub AllCounted : List (BasketProduct D) → Type 0
  AllCounted [] = Unit {0}
  AllCounted (b ∷ basket) =
      ((one_less (d.add b.quantity (d.of_int (pos 1))) ≡ b.quantity)
        × (is_nought b.quantity ≡ false))
      × AllCounted basket

  -- A round of either loop at an entry with another code.
  add_miss :
      (p : ℤ) (q : D) (b : BasketProduct D) (basket : List (BasketProduct D))
      → eq_ℤ b.code p ≡ false
      → let r = add_from false p q basket in add_from false p q (b ∷ basket) ≡ (r.0, b ∷ r.1)
  unfolding add_from
  add_miss p q b basket e = rw (e, add_from)

  remove_miss :
      (p : ℤ) (b : BasketProduct D) (basket r : List (BasketProduct D))
      → eq_ℤ b.code p ≡ false
      → remove_one p basket ≡ ok r
      → remove_one p (b ∷ basket) ≡ ok (b ∷ r)
  unfolding remove_one
  remove_miss p b basket r e h = ground arith

  not_missing :
      (p : ℤ) (q : D) (b : BasketProduct D) (basket : List (BasketProduct D))
      → eq_ℤ b.code p ≡ true
      → ¬ ((add_from false p q (b ∷ basket)).0 ≡ false)
  unfolding add_from
  not_missing p q b basket e k = ground arith

  remove_hit :
      (p : ℤ) (b : BasketProduct D) (basket : List (BasketProduct D))
      → eq_ℤ b.code p ≡ true
      → one_less (d.add b.quantity (d.of_int (pos 1))) ≡ b.quantity
      → is_nought b.quantity ≡ false
      → remove_one p (add_from false p (d.of_int (pos 1)) (b ∷ basket)).1 ≡ ok (b ∷ basket)
  unfolding add_from remove_one
  remove_hit p b basket e h k = rw (e, add_from) (rw (e, remove_one, h, k))

  remove_last :
      (p : ℤ) (q : D)
      → is_nought (one_less q) ≡ true
      → remove_one p ((add_from false p q []).1 ++ (entry p q ∷ [])) ≡ ok []
  unfolding remove_one add_from
  remove_last p q h = rw (eq_ℤ_refl p, remove_one, h)

  remove_one-append :
      (p : ℤ) (q : D) (basket : List (BasketProduct D))
      → is_nought (one_less q) ≡ true
      → (add_from false p q basket).0 ≡ false
      → remove_one p ((add_from false p q basket).1 ++ (entry p q ∷ [])) ≡ ok basket
  remove_one-append p q [] h k = remove_last p q h
  remove_one-append p q (b ∷ basket) h k = elim (Bool-cases (eq_ℤ b.code p)) [
    | inl e ↦ absurd (not_missing p q b basket e k)
    | inr e ↦ rw (add_miss p q b basket e) (
        remove_miss p b _ basket e
          (remove_one-append p q basket h (rw (add_miss p q b basket e) at k)))
  ]

  remove_one-grown :
      (p : ℤ) (basket : List (BasketProduct D))
      → let one = d.of_int (pos 1) in
        AllCounted basket
        → (add_from false p one basket).0 ≡ true
        → remove_one p (add_from false p one basket).1 ≡ ok basket
  remove_one-grown p [] a k = unfold add_from in cc
  remove_one-grown p (b ∷ basket) a k = elim (Bool-cases (eq_ℤ b.code p)) [
    | inl e ↦ remove_hit p b basket e a.0.0 a.0.1
    | inr e ↦ rw (add_miss p (d.of_int (pos 1)) b basket e) (
        remove_miss p b _ basket e
          (remove_one-grown p basket a.1 (rw (add_miss p (d.of_int (pos 1)) b basket e) at k)))
  ]

  -- Adding one of a product to a basket that is not empty and taking it out with the key `R` gives
  -- the basket back, where no quantity in it is 0, adding one to a quantity and taking one away are
  -- inverse, and one less one is 0.
  pub remove-add :
      (garbage : Bool) (p : Product D) (basket : List (BasketProduct D))
      → let one = d.of_int (pos 1) in
        basket ≢ []
        → AllCounted basket
        → is_nought (one_less one) ≡ true
        → remove_one p.code (add_product_to_basket garbage p one basket) ≡ ok basket
  unfolding add_product_to_basket
  remove-add garbage p [] h a n = absurd (h refl)
  remove-add garbage p (b ∷ basket) h a n =
      let one = d.of_int (pos 1) in
      rw (add_from-cons garbage p.code one b basket, add_product_to_basket)
        (elim (Bool-cases (add_from false p.code one (b ∷ basket)).0) [
          | inl e ↦ rw e (remove_one-grown p.code (b ∷ basket) a e)
          | inr e ↦ rw e (remove_one-append p.code one (b ∷ basket) n e)
        ])
