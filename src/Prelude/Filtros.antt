-- ===== src/Prelude/Filtros.antt =====
-- Lists that are filtered or sorted already.
use mathlib.Core.Path.{◌≡◌, refl, sym, ◌∙◌}
use mathlib.Core.Logic.{inl, inr}
use mathlib.Core.Bool.{Bool, true, false}
use mathlib.Core.List.{List, [], ◌∷◌, ◌++◌, append-nil}
use pred_engine.Prelude.Tests.{Bool-cases}
use pred_engine.Prelude.Lists.{Todos}
use pred_engine.Prelude.Sorted.{filter, any, insertar, sorted}

-- Each element stands before those behind it.
abbrev pub Ascienden : {A : Type 0} → (A → A → Type 0) → List A → Type 0
Ascienden R [] = Unit
Ascienden R (a ∷ xs) = Todos (R a) xs × Ascienden R xs

pub Todos-imp :
    {A : Type 0} {P Q : A → Type 0} (xs : List A) → ((a : A) → P a → Q a) → Todos P xs → Todos Q xs
Todos-imp [] f h = tt
Todos-imp (a ∷ xs) f h = (f a h.0, Todos-imp xs f h.1)

pub Todos-append :
    {A : Type 0} (P : A → Type 0) (xs ys : List A) → Todos P xs → Todos P ys → Todos P (xs ++ ys)
Todos-append P [] ys h k = k
Todos-append P (a ∷ xs) ys h k = (h.0, Todos-append P xs ys h.1 k)

pub filter-append :
    {A : Type 0} (p : A → Bool) (xs ys : List A) → filter p (xs ++ ys) ≡ filter p xs ++ filter p ys
unfolding filter
filter-append p [] ys = refl
filter-append p (a ∷ xs) ys = elim (Bool-cases (p a)) [
  | inl e ↦ rw (e, filter-append p xs ys) refl
  | inr e ↦ rw (e, filter-append p xs ys) refl
]

pub filter_self :
    {A : Type 0} (p : A → Bool) (xs : List A) → Todos (λ a. p a ≡ true) xs → filter p xs ≡ xs
unfolding filter
filter_self p [] h = refl
filter_self p (a ∷ xs) h = rw (h.0, filter_self p xs h.1) refl

pub filter_nada :
    {A : Type 0} (p : A → Bool) (xs : List A) → Todos (λ a. p a ≡ false) xs → filter p xs ≡ []
unfolding filter
filter_nada p [] h = refl
filter_nada p (a ∷ xs) h = rw (h.0, filter_nada p xs h.1) refl

-- Rows of no interest at the end of a table.
pub filter-append_nada :
    {A : Type 0} (p : A → Bool) (xs ys : List A)
    → Todos (λ a. p a ≡ false) ys
    → filter p (xs ++ ys) ≡ filter p xs
filter-append_nada p xs ys h =
    rw (filter-append p xs ys, filter_nada p ys h) (append-nil (filter p xs))

pub any-Todos :
    {A : Type 0} (p : A → Bool) (xs : List A) → any p xs ≡ false → Todos (λ a. p a ≡ false) xs
any-Todos p [] h = tt
any-Todos p (a ∷ xs) h = elim (Bool-cases (p a)) [
  | inl e ↦ cc (rw e at h)
  | inr e ↦ (e, any-Todos p xs (rw e at h))
]

pub Todos-any :
    {A : Type 0} (p : A → Bool) (xs : List A) → Todos (λ a. p a ≡ false) xs → any p xs ≡ false
Todos-any p [] h = refl
Todos-any p (a ∷ xs) h = rw (h.0, Todos-any p xs h.1) refl

insertar-primero :
    {A : Type 0} (lt : A → A → Bool) (a : A) (xs : List A)
    → Todos (λ b. lt a b ≡ true) xs
    → insertar lt a xs ≡ a ∷ xs
unfolding insertar
insertar-primero lt a [] h = refl
insertar-primero lt a (b ∷ xs) h = rw h.0 refl

pub sorted-Ascienden :
    {A : Type 0} (lt : A → A → Bool) (xs : List A)
    → Ascienden (λ a b. lt a b ≡ true) xs
    → sorted lt xs ≡ xs
unfolding sorted
sorted-Ascienden lt [] h = refl
sorted-Ascienden lt (a ∷ xs) h = rw (sorted-Ascienden lt xs h.1, insertar-primero lt a xs h.0) refl

pub any-append_l :
    {A : Type 0} (p : A → Bool) (xs ys : List A) → any p xs ≡ true → any p (xs ++ ys) ≡ true
any-append_l p [] ys h = cc
any-append_l p (a ∷ xs) ys h = elim (Bool-cases (p a)) [
  | inl e ↦ rw e refl
  | inr e ↦ rw e (any-append_l p xs ys (sym (rw e refl) ∙ h))
]

pub any-append_r :
    {A : Type 0} (p : A → Bool) (xs ys : List A) → any p ys ≡ true → any p (xs ++ ys) ≡ true
any-append_r p [] ys h = h
any-append_r p (a ∷ xs) ys h = elim (Bool-cases (p a)) [
  | inl e ↦ rw e refl
  | inr e ↦ rw e (any-append_r p xs ys h)
]
