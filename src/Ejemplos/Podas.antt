-- ===== src/Ejemplos/Podas.antt =====
-- Four trials with numbers as values, and the ladder of a study of ten windows.
use pred_engine.Prelude.{ℕ, ◌≤◌, ◌≡◌, refl, inl, true, none, some, List, [], ◌∷◌, ltb, arith}
use pred_engine.Prelude.Sorted.{sorted, insertar}
use pred_engine.Hpo.Asha.{
  ReglasPoda, calcular_escalones, escalar, DecisorAsha, podar, escalon_hasta, valores, corte_de,
  decidir,
}
use pred_engine.Hpo.Escalones.{EsEscalera, calcular_escalones-EsEscalera, escalar_diverge}
use pred_engine.Hpo.Ordenados.{OrdenDebil, cuenta}
use pred_engine.Hpo.Supervivencia.{decidir-podar}

abbrev reglas : ReglasPoda
reglas = record { min_ventanas = 2; factor_reduccion = 2; habilitar_poda_semantica = true }

calcular_escalones-EsEscalera_example :
    (resto : List ℕ) × (calcular_escalones reglas 10 ≡ some (2 ∷ resto)) × EsEscalera 2 10 2 resto
calcular_escalones-EsEscalera_example =
    calcular_escalones-EsEscalera reglas 10 (omega arith) (omega arith) (omega arith)

abbrev sin_reduccion : ReglasPoda
sin_reduccion = record { min_ventanas = 2; factor_reduccion = 1; habilitar_poda_semantica = true }

escalar_diverge_example : escalar 1000 1 10 [] 2 ≡ none
escalar_diverge_example = escalar_diverge 1000 sin_reduccion 10 (inl refl) (omega arith)

abbrev decisor : DecisorAsha
decisor = record { reglas = reglas; n_ventanas_totales = 10; escalones = 2 ∷ 4 ∷ 8 ∷ 10 ∷ [] }

abbrev competidores : List (ℕ × ℕ)
competidores = (0, 30) ∷ (1, 10) ∷ (2, 40) ∷ (3, 20) ∷ []

orden : OrdenDebil ltb
orden = record { asim = λ a b h. ground arith; negtrans = λ a b c h k. ground arith }

se_poda : decidir ltb decisor 4 2 competidores ≡ podar 4
unfolding decidir sorted insertar
se_poda = refl

decidir-podar_example :
    (escalon_hasta decisor.escalones 4 ≡ some 4)
    × (2 ≤ 4)
    × (corte_de ltb 4 2 ≤ cuenta ltb (λ x. ltb x 40) (valores ltb competidores))
decidir-podar_example = decidir-podar ltb orden decisor 4 2 4 competidores 40 refl se_poda
