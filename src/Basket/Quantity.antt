-- ===== src/Basket/Quantity.antt =====
-- add_product_to_basket of src/main.cpp and the quantities.
use cli_pos.Base.{
  ◌≡◌, refl, ◌≢◌, Bool, true, false, List, [], ◌∷◌, ◌++◌, Option, none, some, arith, Bool-cases,
  inl, inr, if◌then◌else◌,
}
use cli_pos.Base.Int.{ℤ, eq_ℤ, eq_ℤ_iff}
use cli_pos.Product.{Product}
use cli_pos.World.Double.{Double}
use cli_pos.World.State.{BasketProduct}
use cli_pos.Basket.{entry, add_from, add_product_to_basket}

module _ {D : Type 0} where
  -- The quantity of the first entry with the code.
  unfoldable pub quantity_of : ℤ → List (BasketProduct D) → Option D
  quantity_of c [] = none
  quantity_of c (b ∷ basket) = if eq_ℤ b.code c then some b.quantity else quantity_of c basket

  -- No entry has the code.
  abbrev pub Absent : ℤ → List (BasketProduct D) → Type 0
  Absent c [] = Unit {0}
  Absent c (b ∷ basket) = (eq_ℤ b.code c ≡ false) × Absent c basket

  -- A code stands in the basket once.
  abbrev pub IsDistinct : List (BasketProduct D) → Type 0
  IsDistinct [] = Unit {0}
  IsDistinct (b ∷ basket) = Absent b.code basket × IsDistinct basket

  pub quantity_of-append :
      (c : ℤ) (xs ys : List (BasketProduct D))
      → quantity_of c (xs ++ ys)
        ≡ (elim (quantity_of c xs) [ none ↦ quantity_of c ys | some q ↦ some q ])
  unfolding quantity_of
  quantity_of-append c [] ys = refl
  quantity_of-append c (b ∷ xs) ys = elim (Bool-cases (eq_ℤ b.code c)) [
    | inl e ↦ rw (e, quantity_of)
    | inr e ↦ rw (e, quantity_of) (quantity_of-append c xs ys)
  ]

-- Whether there is a value.
abbrev pub is_some {ℓ} : {A : Type ℓ} → Option A → Bool
is_some none = false
is_some (some a) = true

module _ {D : Type 0} ⦃d : Double D⦄ where
  -- The old quantity grows by what is added, or starts there.
  abbrev pub grown : Option D → D → D
  grown none q = q
  grown (some old) q = d.add old q

  abbrev pub increased : Option D → D → Option D
  increased none q = none
  increased (some old) q = some (d.add old q)

  pub add_from_flag :
      (code : ℤ) (q : D) (basket : List (BasketProduct D))
      → (add_from false code q basket).0 ≡ is_some (quantity_of code basket)
  unfolding add_from quantity_of
  add_from_flag code q [] = refl
  add_from_flag code q (b ∷ basket) = ground (arith, add_from_flag code q basket)

  -- The flag at first matters for the empty basket alone.
  pub add_from-cons :
      (found : Bool) (code : ℤ) (q : D) (b : BasketProduct D) (basket : List (BasketProduct D))
      → add_from found code q (b ∷ basket) ≡ add_from false code q (b ∷ basket)
  unfolding add_from
  add_from-cons found code q b basket = refl

  quantity_of-add_from :
      (c code : ℤ) (q : D) (basket : List (BasketProduct D))
      → quantity_of c (add_from false code q basket).1
        ≡ (if eq_ℤ code c then increased (quantity_of c basket) q else quantity_of c basket)
  unfolding add_from quantity_of
  quantity_of-add_from c code q [] = ground arith
  quantity_of-add_from c code q (b ∷ basket) = ground (
    arith,
    eq_ℤ_iff b.code code,
    eq_ℤ_iff b.code c,
    eq_ℤ_iff code c,
    quantity_of-add_from c code q basket,
  )

  -- Where the code was not there, the entry is put at the end.
  settled :
      (code : ℤ) (q : D) (basket : List (BasketProduct D)) (c : ℤ)
      → let r = add_from false code q basket in
        quantity_of c (if r.0 then r.1 else r.1 ++ (entry code q ∷ []))
        ≡ (if eq_ℤ code c then some (grown (quantity_of c basket) q) else quantity_of c basket)
  unfolding quantity_of
  settled code q basket c =
      let r = add_from false code q basket in
      elim (Bool-cases (eq_ℤ code c)) [
        | inl same ↦ ground (
          arith,
          eq_ℤ_iff code c,
          add_from_flag code q basket,
          quantity_of-add_from c code q basket,
          quantity_of-append c r.1 (entry code q ∷ []),
        )
        | inr other ↦ ground (
          arith,
          quantity_of-add_from c code q basket,
          quantity_of-append c r.1 (entry code q ∷ []),
        )
      ]

  -- In a basket with at least one entry, add_product_to_basket makes the quantity of the product
  -- grow by what is added, or start there if it was not in the basket; every other quantity stays.
  pub quantity_of-add :
      (garbage : Bool) (p : Product D) (q : D) (basket : List (BasketProduct D)) (c : ℤ)
      → basket ≢ []
      → quantity_of c (add_product_to_basket garbage p q basket)
        ≡ (if eq_ℤ p.code c then some (grown (quantity_of c basket) q) else quantity_of c basket)
  unfolding add_product_to_basket quantity_of
  quantity_of-add garbage p q [] c h = absurd (h refl)
  quantity_of-add garbage p q (b ∷ basket) c h =
      rw (add_from-cons garbage p.code q b basket, add_product_to_basket)
        (settled p.code q (b ∷ basket) c)
