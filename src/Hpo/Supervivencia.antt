-- ===== src/Hpo/Supervivencia.antt =====
-- asha.py: which trials `decidir` keeps.
use pred_engine.Prelude.{
  ℕ, suc, ◌-◌, ◌≤◌, ◌≡◌, Bool, true, false, Option, some, List, [], ◌∷◌, arith, length, get_elem?,
  Todos, Option-cases, inl, inr, not,
}
use pred_engine.Hpo.Asha.{
  DecisorAsha, seguir, podar, escalon_hasta, buscar, valores, corte_de, decidir,
}
use pred_engine.Prelude.Sorted.{sorted}
use pred_engine.Hpo.Ordenados.{
  OrdenDebil, cuenta, cuenta-sorted, Todos-sorted, Todos-get, sorted-EstaOrdenada,
  cuenta-EstaOrdenada,
}

module _ {F : Type 0} (lt : F → F → Bool) where
  abbrev umbral_de : DecisorAsha → List (ℕ × F) → Option F
  umbral_de d competidores =
      get_elem? (sorted lt (valores lt competidores))
        (corte_de lt (length competidores) d.reglas.factor_reduccion - 1)

  -- The trial whose value no competitor's value is below is never pruned, at any step.
  pub decidir-mejor :
      (d : DecisorAsha) (n numero : ℕ) (competidores : List (ℕ × F)) (v : F)
      → buscar lt numero competidores ≡ some v
      → Todos (λ x. lt x v ≡ false) (valores lt competidores)
      → decidir lt d n numero competidores ≡ seguir
  unfolding decidir
  decidir-mejor d n numero competidores v propio mejor =
      elim (Option-cases (umbral_de d competidores)) [
        | inl sin_umbral ↦ ground (arith, propio, sin_umbral)
        | inr (u, umbral) ↦
            let no_menor =
              Todos-get lt (λ x. lt x v) (sorted lt (valores lt competidores)) _ u
                (Todos-sorted lt (λ x. lt x v ≡ false) (valores lt competidores) mejor) umbral in
            ground (arith, propio, umbral, no_menor)
      ]

  cuenta_mono :
      (p q : F → Bool)
      → ((x : F) → p x ≡ true → q x ≡ true)
      → (xs : List F) → cuenta lt p xs ≤ cuenta lt q xs
  cuenta_mono p q h [] = omega arith
  cuenta_mono p q h (x ∷ xs) = ground (arith, h x, cuenta_mono p q h xs)

  module _ (o : OrdenDebil lt) where
    menor : (u v x : F) → lt u v ≡ true → not (lt u x) ≡ true → lt x v ≡ true
    menor u v x uv ux = ground (arith, uv, ux, o.negtrans u x v)

    cuenta-umbral :
        (xs : List F) (i : ℕ) (u v : F)
        → get_elem? (sorted lt xs) i ≡ some u
        → lt u v ≡ true
        → suc i ≤ cuenta lt (λ x. lt x v) xs
    cuenta-umbral xs i u v e uv = ground (
      arith,
      cuenta-EstaOrdenada lt o (sorted lt xs) i u (sorted-EstaOrdenada lt o xs) e,
      cuenta-sorted lt (λ x. not (lt u x)) xs,
      cuenta_mono (λ x. not (lt u x)) (λ x. lt x v) (λ x. menor u v x uv) xs,
    )

    -- For values with a weak order: a trial is pruned only at a step that the ladder has and that it has reached, and when at least
    -- the cut, the number of the competitors over the reduction factor and no less than 1, of the
    -- competitors are strictly better than it.
    pub decidir-podar :
        (d : DecisorAsha) (n numero escalon : ℕ) (competidores : List (ℕ × F)) (v : F)
        → buscar lt numero competidores ≡ some v
        → decidir lt d n numero competidores ≡ podar escalon
        → (escalon_hasta d.escalones n ≡ some escalon)
          × (2 ≤ length competidores)
          × (corte_de lt (length competidores) d.reglas.factor_reduccion
              ≤ cuenta lt (λ x. lt x v) (valores lt competidores))
    unfolding decidir
    decidir-podar d n numero escalon competidores v propio e =
        elim (Option-cases (umbral_de d competidores)) [
          | inl sin_umbral ↦ ground (arith, propio, sin_umbral, e)
          | inr (u, umbral) ↦
              let uv : lt u v ≡ true = ground (arith, propio, umbral, e) in
              let m = cuenta-umbral (valores lt competidores) _ u v umbral uv in
              (
                ground (arith, propio, umbral, e),
                ground (arith, propio, umbral, e),
                ground (arith, m),
              )
        ]
