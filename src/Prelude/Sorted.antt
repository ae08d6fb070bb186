-- ===== src/Prelude/Sorted.antt =====
-- Python's `sorted`, `min` and `in` on lists, for an order and a test that are given.
use mathlib.Core.Path.{◌≡◌, subst}
use mathlib.Core.Bool.{Bool, true, false, ◌||◌}
use mathlib.Core.List.{List, [], ◌∷◌}
use mathlib.Core.Option.{Option, none, some}
use mathlib.Core.Logic.{inl, inr}
use Prim.Native.Nat.{Ordering}
use Prim.Native.String.{String, compare}
use pred_engine.Prelude.Tests.{if◌then◌else◌, Bool-cases}
use pred_engine.Prelude.Lists.{Todos}

-- `s < t`: the order of code points.
abbrev es_lt : Ordering → Bool
es_lt Ordering.lt = true
es_lt Ordering.eq = false
es_lt Ordering.gt = false

unfoldable pub str_lt : String → String → Bool
str_lt s t = es_lt (compare s t)

module _ {A : Type 0} where
  unfoldable pub filter : (A → Bool) → List A → List A
  filter p [] = []
  filter p (x ∷ xs) = if p x then x ∷ filter p xs else filter p xs

  abbrev pub any : (A → Bool) → List A → Bool
  any p [] = false
  any p (x ∷ xs) = p x || any p xs

  -- `next((x for x in xs if p(x)), None)`
  abbrev pub find : (A → Bool) → List A → Option A
  find p [] = none
  find p (x ∷ xs) = let r = find p xs in if p x then some x else r

  abbrev pub all : (A → Bool) → List A → Bool
  all p [] = true
  all p (x ∷ xs) = if p x then all p xs else false

  pub filter-Todos :
      (P : A → Type 0) (p : A → Bool) (xs : List A) → Todos P xs → Todos P (filter p xs)
  unfolding filter
  filter-Todos P p [] h = tt
  filter-Todos P p (x ∷ xs) h = elim (Bool-cases (p x)) [
    | inl b ↦ rw b (h.0, filter-Todos P p xs h.1)
    | inr b ↦ rw b (filter-Todos P p xs h.1)
  ]

  -- What passed a filter passes the test.
  pub filter-pasan : (p : A → Bool) (xs : List A) → Todos (λ x. p x ≡ true) (filter p xs)
  unfolding filter
  filter-pasan p [] = tt
  filter-pasan p (x ∷ xs) = elim (Bool-cases (p x)) [
    | inl b ↦ rw b (b, filter-pasan p xs)
    | inr b ↦ rw b (filter-pasan p xs)
  ]

module _ {A : Type 0} (lt : A → A → Bool) where
  unfoldable pub insertar : A → List A → List A
  insertar x [] = x ∷ []
  insertar x (y ∷ ys) = let r = insertar x ys in if lt x y then x ∷ (y ∷ ys) else y ∷ r

  unfoldable pub sorted : List A → List A
  unfolding insertar
  sorted [] = []
  sorted (x ∷ xs) = insertar x (sorted xs)

  -- `min`: the first of the least ones.
  abbrev minimo_desde : A → List A → A
  minimo_desde m [] = m
  minimo_desde m (x ∷ xs) = minimo_desde (if lt x m then x else m) xs

  unfoldable pub minimo : List A → Option A
  minimo [] = none
  minimo (x ∷ xs) = some (minimo_desde x xs)

  minimo_desde-Todos :
      (P : A → Type 0) (m : A) (xs : List A) → P m → Todos P xs → P (minimo_desde m xs)
  minimo_desde-Todos P m [] pm h = pm
  minimo_desde-Todos P m (x ∷ xs) pm h = elim (Bool-cases (lt x m)) [
    | inl b ↦ rw b (minimo_desde-Todos P x xs h.0 h.1)
    | inr b ↦ rw b (minimo_desde-Todos P m xs pm h.1)
  ]

  pub minimo-Todos : (P : A → Type 0) (xs : List A) {v : A} → Todos P xs → minimo xs ≡ some v → P v
  unfolding minimo
  minimo-Todos P [] h e = cc e
  minimo-Todos P (x ∷ xs) {v} h e =
      let q : minimo_desde x xs ≡ v = cc e in subst P q (minimo_desde-Todos P x xs h.0 h.1)

  -- What the least value is to each value, for a relation that its test decides both ways.
  module _ (R : A → A → Type 0) (igual : (a : A) → R a a)
      (sigue : (a b c : A) → R a b → R b c → R a c) (antes : (a b : A) → lt a b ≡ true → R a b)
      (despues : (a b : A) → lt a b ≡ false → R b a) where
    el_menor : (m x : A) → R (if lt x m then x else m) m × R (if lt x m then x else m) x
    el_menor m x = elim (Bool-cases (lt x m)) [
      | inl b ↦ rw b (antes x m b, igual x)
      | inr b ↦ rw b (igual m, despues x m b)
    ]

    minimo_desde-minimo :
        (m : A) (xs : List A) → R (minimo_desde m xs) m × Todos (R (minimo_desde m xs)) xs
    minimo_desde-minimo m [] = (igual m, tt)
    minimo_desde-minimo m (x ∷ xs) =
        let c : A = if lt x m then x else m in
        let (h, hs) = minimo_desde-minimo c xs in
        let (con_m, con_x) = el_menor m x in
        (sigue (minimo_desde c xs) c m h con_m, (sigue (minimo_desde c xs) c x h con_x, hs))

    pub minimo-minimo : (xs : List A) {v : A} → minimo xs ≡ some v → Todos (R v) xs
    unfolding minimo
    minimo-minimo [] e = cc e
    minimo-minimo (x ∷ xs) {v} e =
        let q : minimo_desde x xs ≡ v = cc e in
        subst (λ w. Todos (R w) (x ∷ xs)) q (minimo_desde-minimo x xs)
