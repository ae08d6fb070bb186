-- ===== src/Prelude/Result.antt =====
-- A Python function that returns or raises, with the exceptions of its component as `E`.
use mathlib.Core.Path.{◌≡◌, refl, subst, ap₂}
use mathlib.Core.Bool.{Bool, true, false}
use mathlib.Core.List.{List, [], ◌∷◌, map}

pub data Result {ℓ κ} (E : Type ℓ) (A : Type κ) : Type (ℓ ⊔ κ) where
  ok : A → Result E A
  err : E → Result E A

infixl 5 ◌>>=◌ ◌>>◌
abbrev pub ◌>>=◌ {ℓ κ μ} :
    {E : Type ℓ} {A : Type κ} {B : Type μ} → Result E A → (A → Result E B) → Result E B
ok x >>= sigue = sigue x
err d >>= sigue = err d

abbrev pub ◌>>◌ {ℓ μ} : {E : Type ℓ} {B : Type μ} → Result E (Unit {0}) → Result E B → Result E B
antes >> luego = antes >>= λ _. luego

-- `if test: raise e`.
abbrev pub raise_if {ℓ} : {E : Type ℓ} → Bool → E → Result E (Unit {0})
raise_if true e = err e
raise_if false e = ok tt

-- A comprehension whose body may raise: left to right, stopping at the first exception.
abbrev pub traverse {ℓ κ μ} :
    {E : Type ℓ} {A : Type κ} {B : Type μ} → (A → Result E B) → List A → Result E (List B)
traverse f [] = ok []
traverse f (x ∷ xs) = f x >>= λ y. traverse f xs >>= λ ys. ok (y ∷ ys)

-- A sequence that returned: what its first part returned, and that the rest returned too.
pub >>=-eq-ok {ℓ κ μ} :
    {E : Type ℓ} {A : Type κ} {B : Type μ} (antes : Result E A) (sigue : A → Result E B) {r : B}
    → (antes >>= sigue) ≡ ok r
    → (x : A) × (antes ≡ ok x) × (sigue x ≡ ok r)
>>=-eq-ok (err d) sigue devuelve = cc
>>=-eq-ok (ok x) sigue devuelve = (x, refl, devuelve)

-- Two lists of the same length, related element by element.
pub data Pares {A B : Type 0} (R : A → B → Type 0) : List A → List B → Type 0 where
  nil : Pares R [] []
  cons :
      {x : A} {y : B} {xs : List A} {ys : List B}
      → R x y
      → Pares R xs ys
      → Pares R (x ∷ xs) (y ∷ ys)

pub Pares-map :
    {A B : Type 0} {R S : A → B → Type 0} {xs : List A} {ys : List B}
    → ((x : A) (y : B) → R x y → S x y)
    → Pares R xs ys
    → Pares S xs ys
Pares-map f nil = nil
Pares-map f (cons {x = x} {y = y} r p) = cons (f x y r) (Pares-map f p)

pub Pares-eq_map :
    {A B C : Type 0} {R : A → B → Type 0} (f : A → C) (g : B → C) {xs : List A} {ys : List B}
    → ((x : A) (y : B) → R x y → f x ≡ g y)
    → Pares R xs ys
    → map f xs ≡ map g ys
Pares-eq_map f g h nil = refl
Pares-eq_map f g h (cons {x = x} {y = y} r p) = ap₂ ◌∷◌ (h x y r) (Pares-eq_map f g h p)

pub ok_injective {ℓ κ} :
    {E : Type ℓ} {A : Type κ} {a b : A} → ◌≡◌ {A = Result E A} (ok a) (ok b) → a ≡ b
ok_injective h = cc

-- A guard that let the rest of the function return.
pub raise_if-ok {ℓ μ} :
    {E : Type ℓ} {B : Type μ} (b : Bool) (e : E) (k : Result E B) {r : B}
    → (raise_if b e >> k) ≡ ok r
    → (b ≡ false) × (k ≡ ok r)
raise_if-ok true e k h = cc
raise_if-ok false e k h = (refl, h)

-- What a comprehension that returned has computed.
pub traverse-Pares :
    {E A B : Type 0} (f : A → Result E B) (xs : List A) {ys : List B}
    → traverse f xs ≡ ok ys
    → Pares (λ x y. f x ≡ ok y) xs ys
traverse-Pares f [] h = subst (Pares _ []) (ok_injective h) nil
traverse-Pares f (x ∷ xs) h =
    let (y, ey, h') = >>=-eq-ok (f x) _ h in
    let (zs, ez, h'') = >>=-eq-ok (traverse f xs) _ h' in
    subst (Pares _ (x ∷ xs)) (ok_injective h'') (cons ey (traverse-Pares f xs ez))

pub raise_if-false {ℓ} :
    {E : Type ℓ} (b : Bool) (e : E) {u : Unit {0}} → raise_if b e ≡ ok u → b ≡ false
raise_if-false true e h = cc
raise_if-false false e h = refl
