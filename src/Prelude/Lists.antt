-- ===== src/Prelude/Lists.antt =====
-- Lists measured and indexed by native numbers, under the names of the library.
use Prim.Native.Nat.{ℕ, zero, suc, ◌+◌, ◌-◌, ◌<◌, min}
use mathlib.Core.Path.{◌≡◌, refl, ap}
use mathlib.Core.Logic.{◌≢◌}
use mathlib.Core.List.{List, [], ◌∷◌, ◌++◌, map}
use mathlib.Core.Option.{Option, none, some}
use native.Mathlib.Omega.{arith}

module _ {ℓ} {A : Type ℓ} where
  abbrev pub length : List A → ℕ
  length [] = 0
  length (x ∷ xs) = suc (length xs)

  abbrev pub get_elem? : List A → ℕ → Option A
  get_elem? [] i = none
  get_elem? (x ∷ xs) zero = some x
  get_elem? (x ∷ xs) (suc i) = get_elem? xs i

  -- A write out of bounds changes nothing.
  abbrev pub set : List A → ℕ → A → List A
  set [] i v = []
  set (x ∷ xs) zero v = v ∷ xs
  set (x ∷ xs) (suc i) v = x ∷ set xs i v

  pub length-append : (xs ys : List A) → length (xs ++ ys) ≡ length xs + length ys
  length-append [] ys = omega arith
  length-append (x ∷ xs) ys = omega (arith, length-append xs ys)

module _ {ℓ} {A : Type ℓ} where
  pub length-set : (xs : List A) (i : ℕ) (v : A) → length (set xs i v) ≡ length xs
  length-set [] i v = refl
  length-set (x ∷ xs) zero v = refl
  length-set (x ∷ xs) (suc i) v = ap suc (length-set xs i v)

  pub get_elem?-set_self :
      (xs : List A) (i : ℕ) (v : A) → i < length xs → get_elem? (set xs i v) i ≡ some v
  get_elem?-set_self [] i v h = elim h [ ]
  get_elem?-set_self (x ∷ xs) zero v h = refl
  get_elem?-set_self (x ∷ xs) (suc i) v h = get_elem?-set_self xs i v (omega arith)

  pub get_elem?-set_ne :
      (xs : List A) {i j : ℕ} (v : A) → i ≢ j → get_elem? (set xs i v) j ≡ get_elem? xs j
  get_elem?-set_ne [] v h = refl
  get_elem?-set_ne (x ∷ xs) {i = zero} {j = zero} v h = absurd (h refl)
  get_elem?-set_ne (x ∷ xs) {i = zero} {j = suc j} v h = refl
  get_elem?-set_ne (x ∷ xs) {i = suc i} {j = zero} v h = refl
  get_elem?-set_ne (x ∷ xs) {i = suc i} {j = suc j} v h = get_elem?-set_ne xs v (λ e. h (ap suc e))

module _ {ℓ} {A : Type ℓ} where
  abbrev pub get_or : List A → ℕ → A → A
  get_or [] i d = d
  get_or (x ∷ xs) zero d = x
  get_or (x ∷ xs) (suc i) d = get_or xs i d

  abbrev pub take : ℕ → List A → List A
  take zero xs = []
  take (suc n) [] = []
  take (suc n) (x ∷ xs) = x ∷ take n xs

  abbrev pub drop : ℕ → List A → List A
  drop zero xs = xs
  drop (suc n) [] = []
  drop (suc n) (x ∷ xs) = drop n xs

  abbrev pub replicate : ℕ → A → List A
  replicate zero a = []
  replicate (suc n) a = a ∷ replicate n a

  pub take-append-drop : (n : ℕ) (xs : List A) → take n xs ++ drop n xs ≡ xs
  take-append-drop zero xs = refl
  take-append-drop (suc n) [] = refl
  take-append-drop (suc n) (x ∷ xs) = rw (take-append-drop n xs)

  pub length-take : (n : ℕ) (xs : List A) → length (take n xs) ≡ min n (length xs)
  length-take zero xs = omega arith
  length-take (suc n) [] = omega arith
  length-take (suc n) (x ∷ xs) = omega (arith, length-take n xs)

  pub length-drop : (n : ℕ) (xs : List A) → length (drop n xs) ≡ length xs - n
  length-drop zero xs = omega arith
  length-drop (suc n) [] = omega arith
  length-drop (suc n) (x ∷ xs) = omega (arith, length-drop n xs)

  pub length-replicate : (n : ℕ) (a : A) → length (replicate n a) ≡ n
  length-replicate zero a = refl
  length-replicate (suc n) a = ap suc (length-replicate n a)

  pub length-map {κ} : {B : Type κ} (xs : List A) (f : A → B) → length (map f xs) ≡ length xs
  length-map [] f = refl
  length-map (x ∷ xs) f = ap suc (length-map xs f)

-- A property of every element, as a tuple of its instances.
abbrev pub Todos {ℓ κ} : {A : Type ℓ} → (A → Type κ) → List A → Type κ
Todos P [] = Unit
Todos P (x ∷ xs) = P x × Todos P xs

-- `enumerate`, from a number on.
abbrev pub enumerar : {A : Type 0} → ℕ → List A → List (ℕ × A)
enumerar i [] = []
enumerar i (t ∷ ts) = (i, t) ∷ enumerar (suc i) ts

pub Todos-append_r :
    {A : Type 0} (P : A → Type 0) (xs ys : List A) → Todos P (xs ++ ys) → Todos P ys
Todos-append_r P [] ys h = h
Todos-append_r P (a ∷ xs) ys h = Todos-append_r P xs ys h.1

pub drop-Todos :
    {A : Type 0} (P : A → Type 0) (k : ℕ) (xs : List A) → Todos P xs → Todos P (drop k xs)
drop-Todos P zero xs h = h
drop-Todos P (suc k) [] h = tt
drop-Todos P (suc k) (a ∷ xs) h = drop-Todos P k xs h.1

pub drop-suc :
    {A : Type 0} (k : ℕ) (xs : List A) {p : A} {resto : List A}
    → drop k xs ≡ p ∷ resto
    → drop (suc k) xs ≡ resto
drop-suc zero [] h = cc
drop-suc zero (a ∷ xs) h = cc
drop-suc (suc k) [] h = cc
drop-suc (suc k) (a ∷ xs) h = drop-suc k xs h

-- Two lists in a row are empty when the first is, and the second gives what stands there.
pub nada_queda :
    {A : Type 0} (env ya ps : List A)
    → (length ya ≡ 0 → ps ≡ [])
    → length (env ++ ya) ≡ 0
    → env ++ ps ≡ []
nada_queda [] ya ps nada h = nada h
nada_queda (e ∷ env) ya ps nada h = absurd (omega arith)

pub get_elem?-drop :
    {A : Type 0} (k : ℕ) (xs : List A) {p : A} {resto : List A}
    → drop k xs ≡ p ∷ resto
    → get_elem? xs k ≡ some p
get_elem?-drop zero [] h = cc
get_elem?-drop zero (a ∷ xs) h = cc
get_elem?-drop (suc k) [] h = cc
get_elem?-drop (suc k) (a ∷ xs) h = get_elem?-drop k xs h
