-- ===== src/Basket/Abstract.antt =====
-- The basket of src/main.cpp up to the order of its entries.
use mathlib.Core.List.{Perm}
use mathlib.Core.List.Perm
use cli_pos.Base.{
  ◌≡◌, refl, sym, Bool, true, false, List, [], ◌∷◌, ◌++◌, arith, if◌then◌else◌, Bool-cases, inl,
  inr,
}
use cli_pos.Base.Int.{eq_ℤ, eq_ℤ_iff}
use cli_pos.Basket.{entry, add_product_to_basket, add_from}
use cli_pos.Product.{Product}
use cli_pos.World.Double.{Double}
use cli_pos.World.State.{BasketProduct}

if_cons :
    {A : Type 0} (b : Bool) (x : A) (xs ys : List A)
    → (if b then x ∷ xs else x ∷ ys) ≡ x ∷ (if b then xs else ys)
if_cons true x xs ys = refl
if_cons false x xs ys = refl

module _ {D : Type 0} ⦃d : Double D⦄ where
  -- An entry with another code is left where it stands.
  pub add_past :
      (p : Product D) (q : D) (b : BasketProduct D) (basket : List (BasketProduct D))
      → eq_ℤ b.code p.code ≡ false
      → add_product_to_basket false p q (b ∷ basket) ≡ b ∷ add_product_to_basket false p q basket
  unfolding add_product_to_basket add_from
  add_past p q b basket other =
      let rest = add_from false p.code q basket in
      rw (other, add_from, add_product_to_basket)
        (if_cons rest.0 b rest.1 (rest.1 ++ (entry p.code q ∷ [])))

  -- An entry with the code grows.
  add_grows :
      (p : Product D) (q : D) (b : BasketProduct D) (basket : List (BasketProduct D))
      → eq_ℤ b.code p.code ≡ true
      → add_product_to_basket false p q (b ∷ basket) ≡ entry b.code (d.add b.quantity q) ∷ basket
  unfolding add_product_to_basket add_from
  add_grows p q b basket same = rw (same, add_from, add_product_to_basket) refl

  -- Nothing in the basket has the code.
  add_new : (p : Product D) (q : D) → add_product_to_basket false p q [] ≡ entry p.code q ∷ []
  unfolding add_product_to_basket add_from
  add_new p q = refl

  -- On an entry with the code of the first product, the two orders give one basket.
  add_grows-past :
      (p p' : Product D) (q q' : D) (b : BasketProduct D) (basket : List (BasketProduct D))
      → eq_ℤ b.code p.code ≡ true
      → eq_ℤ b.code p'.code ≡ false
      → add_product_to_basket false p q (add_product_to_basket false p' q' (b ∷ basket))
        ≡ add_product_to_basket false p' q' (add_product_to_basket false p q (b ∷ basket))
  add_grows-past p p' q q' b basket same other =
      let grown = entry b.code (d.add b.quantity q) in
      rw
        (
          add_past p' q' b basket other,
          add_grows p q b (add_product_to_basket false p' q' basket) same,
          add_grows p q b basket same,
          add_past p' q' grown basket other,
        )
        refl

  -- Two products with different codes are put into the basket in either order, up to the order of the
  -- entries, where the flag of add_product_to_basket that nothing has set happens to be false.
  pub add_comm :
      (p p' : Product D) (q q' : D) (basket : List (BasketProduct D))
      → eq_ℤ p.code p'.code ≡ false
      → Perm
          (add_product_to_basket false p q (add_product_to_basket false p' q' basket))
          (add_product_to_basket false p' q' (add_product_to_basket false p q basket))
  add_comm p p' q q' [] h =
      let h' : eq_ℤ p'.code p.code ≡ false =
        grind (arith, eq_ℤ_iff p.code p'.code, eq_ℤ_iff p'.code p.code) in
      rw
        (
          add_new p' q',
          add_past p q (entry p'.code q') [] h',
          add_new p q,
          add_past p' q' (entry p.code q) [] h,
          add_new p' q',
        )
        (Perm.swap (entry p.code q) (entry p'.code q') [])
  add_comm p p' q q' (b ∷ basket) h = elim (Bool-cases (eq_ℤ b.code p.code)) [
    | inl same ↦
        let other : eq_ℤ b.code p'.code ≡ false =
          grind (arith, eq_ℤ_iff b.code p.code, eq_ℤ_iff b.code p'.code, eq_ℤ_iff p.code p'.code) in
        rw (add_grows-past p p' q q' b basket same other) (Perm.refl _)
    | inr other ↦ elim (Bool-cases (eq_ℤ b.code p'.code)) [
      | inl same' ↦ rw (sym (add_grows-past p' p q' q b basket same' other)) (Perm.refl _)
      | inr other' ↦
          rw
            (
              add_past p' q' b basket other',
              add_past p q b (add_product_to_basket false p' q' basket) other,
              add_past p q b basket other,
              add_past p' q' b (add_product_to_basket false p q basket) other',
            )
            (Perm.cons b (add_comm p p' q q' basket h))
    ]
  ]
