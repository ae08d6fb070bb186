-- ===== src/Hpo/Ordenados.antt =====
-- `sorted` on values with a weak order, as floats that are no NaN have: what asha.py needs of it.
use pred_engine.Prelude.{
  ℕ, zero, suc, ◌≤◌, ◌≡◌, refl, Bool, true, false, some, List, [], ◌∷◌, arith, length, get_elem?,
  Todos, Bool-cases, inl, inr, if◌then◌else◌, not, ap, ◌∙◌,
}
use pred_engine.Prelude.Sorted.{insertar, sorted}

pub record OrdenDebil {F : Type 0} (lt : F → F → Bool) : Type 0 where
  pub asim : (a b : F) → lt a b ≡ true → lt b a ≡ false
  pub negtrans : (a b c : F) → lt a b ≡ false → lt b c ≡ false → lt a c ≡ false

module _ {F : Type 0} (lt : F → F → Bool) where
  -- How many values satisfy a test.
  abbrev pub cuenta : (F → Bool) → List F → ℕ
  cuenta p [] = 0
  cuenta p (x ∷ xs) = if p x then suc (cuenta p xs) else cuenta p xs

  -- No value is less than one before it.
  abbrev pub EstaOrdenada : List F → Type 0
  EstaOrdenada [] = Unit
  EstaOrdenada (x ∷ xs) = Todos (λ y. lt y x ≡ false) xs × EstaOrdenada xs

  cuenta-insertar :
      (p : F → Bool) (x : F) (xs : List F) → cuenta p (insertar lt x xs) ≡ cuenta p (x ∷ xs)
  unfolding insertar
  cuenta-insertar p x [] = refl
  cuenta-insertar p x (y ∷ ys) = ground (arith, cuenta-insertar p x ys)

  pub cuenta-sorted : (p : F → Bool) (xs : List F) → cuenta p (sorted lt xs) ≡ cuenta p xs
  unfolding sorted
  cuenta-sorted p [] = refl
  cuenta-sorted p (x ∷ xs) = cuenta-insertar p x (sorted lt xs) ∙ ground (arith, cuenta-sorted p xs)

  length-insertar : (x : F) (xs : List F) → length (insertar lt x xs) ≡ suc (length xs)
  unfolding insertar
  length-insertar x [] = refl
  length-insertar x (y ∷ ys) = ground (arith, length-insertar x ys)

  pub length-sorted : (xs : List F) → length (sorted lt xs) ≡ length xs
  unfolding sorted
  length-sorted [] = refl
  length-sorted (x ∷ xs) = length-insertar x (sorted lt xs) ∙ ap suc (length-sorted xs)

  Todos-insertar :
      (P : F → Type 0) (x : F) (xs : List F) → P x → Todos P xs → Todos P (insertar lt x xs)
  unfolding insertar
  Todos-insertar P x [] px h = (px, tt)
  Todos-insertar P x (y ∷ ys) px h = elim (Bool-cases (lt x y)) [
    | inl b ↦ rw b (px, h)
    | inr b ↦ rw b (h.0, Todos-insertar P x ys px h.1)
  ]

  pub Todos-sorted : (P : F → Type 0) (xs : List F) → Todos P xs → Todos P (sorted lt xs)
  unfolding sorted
  Todos-sorted P [] h = tt
  Todos-sorted P (x ∷ xs) h = Todos-insertar P x (sorted lt xs) h.0 (Todos-sorted P xs h.1)

  pub Todos-get :
      (p : F → Bool) (xs : List F) (i : ℕ) (v : F)
      → Todos (λ y. p y ≡ false) xs
      → get_elem? xs i ≡ some v
      → p v ≡ false
  Todos-get p [] i v h e = cc e
  Todos-get p (x ∷ xs) zero v h e = cc (e, h.0)
  Todos-get p (x ∷ xs) (suc i) v h e = Todos-get p xs i v h.1 e

  module _ (o : OrdenDebil lt) where
    Todos-mayores :
        (x y : F) (ys : List F)
        → lt y x ≡ false
        → Todos (λ z. lt z y ≡ false) ys
        → Todos (λ z. lt z x ≡ false) ys
    Todos-mayores x y [] h t = tt
    Todos-mayores x y (z ∷ zs) h t = (o.negtrans z y x t.0 h, Todos-mayores x y zs h t.1)

    insertar-EstaOrdenada :
        (x : F) (xs : List F) → EstaOrdenada xs → EstaOrdenada (insertar lt x xs)
    unfolding insertar
    insertar-EstaOrdenada x [] h = (tt, tt)
    insertar-EstaOrdenada x (y ∷ ys) h = elim (Bool-cases (lt x y)) [
      | inl b ↦ rw b ((o.asim x y b, Todos-mayores x y ys (o.asim x y b) h.0), h)
      | inr b ↦
          rw b (Todos-insertar (λ z. lt z y ≡ false) x ys b h.0, insertar-EstaOrdenada x ys h.1)
    ]

    pub sorted-EstaOrdenada : (xs : List F) → EstaOrdenada (sorted lt xs)
    unfolding sorted
    sorted-EstaOrdenada [] = tt
    sorted-EstaOrdenada (x ∷ xs) = insertar-EstaOrdenada x (sorted lt xs) (sorted-EstaOrdenada xs)

    irrefl : (a : F) → lt a a ≡ false
    irrefl a = elim (Bool-cases (lt a a)) [ inl b ↦ o.asim a a b | inr b ↦ b ]

    -- In a sorted list the value at `i` has at least `i + 1` values that are not above it.
    pub cuenta-EstaOrdenada :
        (xs : List F) (i : ℕ) (v : F)
        → EstaOrdenada xs
        → get_elem? xs i ≡ some v
        → suc i ≤ cuenta (λ z. not (lt v z)) xs
    cuenta-EstaOrdenada [] i v h e = cc e
    cuenta-EstaOrdenada (x ∷ xs) zero v h e = ground (arith, e, irrefl v)
    cuenta-EstaOrdenada (x ∷ xs) (suc i) v h e = ground (
      arith,
      cuenta-EstaOrdenada xs i v h.1 e,
      Todos-get (λ y. lt y x) xs i v h.0 e,
      o.negtrans,
      o.asim,
    )
