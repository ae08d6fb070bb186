-- ===== src/Prelude/Miembros.antt =====
-- Members of lists that are joined, mapped and filtered.
use Prim.Native.Nat.{◌+◌}
use mathlib.Core.Path.{◌≡◌, refl, sym, ap, subst, ◌∙◌}
use mathlib.Core.Logic.{inl, inr}
use mathlib.Core.Bool.{Bool, true, not}
use mathlib.Core.List.Memᴰ
use mathlib.Core.List.{List, [], ◌∷◌, ◌++◌, map, Memᴰ}
use native.Mathlib.Omega.{arith}
use pred_engine.Prelude.Tests.{Bool-cases}
use pred_engine.Prelude.Lists.{length, Todos}
use pred_engine.Prelude.Sorted.{filter}

pub Mem-append_l : {A : Type 0} {a : A} {xs : List A} (ys : List A) → Memᴰ a xs → Memᴰ a (xs ++ ys)
Mem-append_l ys (Memᴰ.head e) = Memᴰ.head e
Mem-append_l ys (Memᴰ.tail m) = Memᴰ.tail (Mem-append_l ys m)

pub Mem-append_r : {A : Type 0} {a : A} (xs : List A) {ys : List A} → Memᴰ a ys → Memᴰ a (xs ++ ys)
Mem-append_r [] m = m
Mem-append_r (x ∷ xs) m = Memᴰ.tail (Mem-append_r xs m)

pub Mem-map : {A B : Type 0} (f : A → B) {a : A} {xs : List A} → Memᴰ a xs → Memᴰ (f a) (map f xs)
Mem-map f (Memᴰ.head e) = Memᴰ.head (ap f e)
Mem-map f (Memᴰ.tail m) = Memᴰ.tail (Mem-map f m)

pub Mem-filter :
    {A : Type 0} (p : A → Bool) {a : A} (xs : List A)
    → p a ≡ true
    → Memᴰ a xs
    → Memᴰ a (filter p xs)
unfolding filter
Mem-filter p [] pa m = elim m [ ]
Mem-filter p (y ∷ xs) pa (Memᴰ.head e) = rw (ap p (sym e) ∙ pa) (Memᴰ.head e)
Mem-filter p (y ∷ xs) pa (Memᴰ.tail m) = elim (Bool-cases (p y)) [
  | inl b ↦ rw b (Memᴰ.tail (Mem-filter p xs pa m))
  | inr b ↦ rw b (Mem-filter p xs pa m)
]

-- A test and its negation split a list.
pub length-filter :
    {A : Type 0} (p : A → Bool) (xs : List A)
    → length (filter (λ a. not (p a)) xs) + length (filter p xs) ≡ length xs
unfolding filter
length-filter p [] = refl
length-filter p (y ∷ xs) = elim (Bool-cases (p y)) [
  | inl b ↦ rw b (omega (arith, length-filter p xs))
  | inr b ↦ rw b (omega (arith, length-filter p xs))
]

Todos-sigue :
    {A : Type 0} (y : A) (xs zs : List A)
    → Todos (λ x. Memᴰ x zs) xs
    → Todos (λ x. Memᴰ x (y ∷ zs)) xs
Todos-sigue y [] zs h = tt
Todos-sigue y (x ∷ xs) zs h = (Memᴰ.tail h.0, Todos-sigue y xs zs h.1)

pub Todos-Mem : {A : Type 0} (xs : List A) → Todos (λ x. Memᴰ x xs) xs
Todos-Mem [] = tt
Todos-Mem (x ∷ xs) = (Memᴰ.head refl, Todos-sigue x xs xs (Todos-Mem xs))

pub Todos-elim : {A : Type 0} (P : A → Type 0) (xs : List A) {x : A} → Todos P xs → Memᴰ x xs → P x
Todos-elim P [] h m = absurd (Memᴰ.not-nil m)
Todos-elim P (y ∷ ys) h (Memᴰ.head e) = subst P (sym e) h.0
Todos-elim P (y ∷ ys) h (Memᴰ.tail m) = Todos-elim P ys h.1 m

pub Todos-intro :
    {A : Type 0} (P : A → Type 0) (xs : List A) → ((x : A) → Memᴰ x xs → P x) → Todos P xs
Todos-intro P [] h = tt
Todos-intro P (x ∷ xs) h = (h x (Memᴰ.head refl), Todos-intro P xs (λ y m. h y (Memᴰ.tail m)))
