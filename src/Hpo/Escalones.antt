-- ===== src/Hpo/Escalones.antt =====
-- asha.py: the steps of `_calcular_escalones`, and when the loop that computes them ends.
use mathlib.Core.List.{append_assoc}
use pred_engine.Prelude.{
  ℕ, zero, suc, ◌-◌, ◌*◌, ◌≤◌, ◌<◌, ◌≡◌, refl, ◌⊎◌, true, false, none, some, List, [], ◌∷◌, ◌++◌,
  arith, ap, ◌∙◌, Bool-cases, inl, inr, ltb, nat_beq, lt→ltb,
}
use pred_engine.Hpo.Asha.{ReglasPoda, escalar, cerrada, calcular_escalones}

-- From `u` on: each step is `factor` times the one before, but the last is `total`.
abbrev pub EsEscalera : ℕ → ℕ → ℕ → List ℕ → Type 0
EsEscalera factor total u [] = u ≡ total
EsEscalera factor total u (v ∷ vs) =
    (u < v)
    × (v ≤ total)
    × ((v ≡ u * factor) ⊎ ((v ≡ total) × (total < u * factor)))
    × EsEscalera factor total v vs

-- The steps that the loop adds, and how it ends.
record Subida (factor total : ℕ) (previos : List ℕ) (u f : ℕ) : Type 0 where
  resto : List ℕ
  escalera : EsEscalera factor total u resto
  calculada : cerrada total (escalar f factor total previos u) ≡ some (previos ++ (u ∷ resto))

cerrar_justo :
    (total : ℕ) (previos : List ℕ) (u : ℕ)
    → nat_beq u total ≡ true
    → cerrada total (some (previos, u)) ≡ some (previos ++ u ∷ [])
cerrar_justo total previos u h = rw h

cerrar_falta :
    (total : ℕ) (previos : List ℕ) (u : ℕ)
    → nat_beq u total ≡ false
    → cerrada total (some (previos, u)) ≡ some (previos ++ (u ∷ total ∷ []))
cerrar_falta total previos u h = rw h

module _ (factor total f : ℕ) (previos : List ℕ) (u : ℕ) where
  escalar_sigue :
      ltb (u * factor) total ≡ true
      → escalar (suc f) factor total previos u
        ≡ escalar f factor total (previos ++ u ∷ []) (u * factor)
  unfolding escalar
  escalar_sigue h = rw h

  escalar_fin :
      ltb (u * factor) total ≡ false → escalar (suc f) factor total previos u ≡ some (previos, u)
  unfolding escalar
  escalar_fin h = rw h

module _ (factor total : ℕ) (k : 2 ≤ factor) where
  crece : (u : ℕ) → 0 < u → u < u * factor
  crece u z = grind arith

  ultimo_paso :
      (u : ℕ)
      → ltb (u * factor) total ≡ false
      → (total ≡ u * factor) ⊎ ((total ≡ total) × (total < u * factor))
  ultimo_paso u fin = elim (Bool-cases (ltb total (u * factor))) [
    | inl menor ↦ inr (refl, ground arith)
    | inr no_menor ↦ inl (ground arith)
  ]

  subir :
      (f : ℕ) (previos : List ℕ) (u : ℕ)
      → 0 < u
      → u ≤ total
      → total - u < f
      → Subida factor total previos u f
  subir zero previos u z le m = absurd (omega arith)
  subir (suc f) previos u z le m = elim (Bool-cases (ltb (u * factor) total)) [
    | inl sigue ↦
        let s =
          subir f (previos ++ u ∷ []) (u * factor) (grind (arith, crece u z)) (ground arith)
            (ground (arith, crece u z)) in
        record {
          resto = u * factor ∷ s.resto;
          escalera = (crece u z, ground arith, inl refl, s.escalera);
          calculada =
              ap (cerrada total) (escalar_sigue factor total f previos u sigue)
              ∙ s.calculada
              ∙ ap some (append_assoc previos (u ∷ []) _);
        }
    | inr fin ↦ elim (Bool-cases (nat_beq u total)) [
      | inl justo ↦ record {
        resto = [];
        escalera = ground arith;
        calculada =
            ap (cerrada total) (escalar_fin factor total f previos u fin)
            ∙ cerrar_justo total previos u justo;
      }
      | inr falta ↦ record {
        resto = total ∷ [];
        escalera = (ground arith, omega arith, ultimo_paso u fin, refl);
        calculada =
            ap (cerrada total) (escalar_fin factor total f previos u fin)
            ∙ cerrar_falta total previos u falta;
      }
    ]
  ]

-- With a reduction factor of at least 2 and at least one window before the first decision, the loop
-- ends. The first step is `min_ventanas`, the last is the number of windows, the steps rise, and each
-- is `factor_reduccion` times the one before, but for the last, which may come sooner.
pub calcular_escalones-EsEscalera :
    (reglas : ReglasPoda) (total : ℕ)
    → 2 ≤ reglas.factor_reduccion
    → 0 < reglas.min_ventanas
    → reglas.min_ventanas ≤ total
    → (resto : List ℕ) × (calcular_escalones reglas total ≡ some (reglas.min_ventanas ∷ resto))
      × EsEscalera reglas.factor_reduccion total reglas.min_ventanas resto
unfolding calcular_escalones
calcular_escalones-EsEscalera reglas total k z le =
    let s =
      subir reglas.factor_reduccion total k (suc total) [] reglas.min_ventanas z le (omega arith) in
    (s.resto, s.calculada, s.escalera)

escalar_sin_fin :
    (f factor total : ℕ) (previos : List ℕ) (u : ℕ)
    → u * factor ≡ u
    → u < total
    → escalar f factor total previos u ≡ none
unfolding escalar
escalar_sin_fin zero factor total previos u fijo h = refl
escalar_sin_fin (suc f) factor total previos u fijo h =
    rw (fijo, lt→ltb u total h) (escalar_sin_fin f factor total (previos ++ u ∷ []) u fijo h)

-- `ReglasPoda` admits a reduction factor of 1, and no window before the first decision. The loop then
-- never ends, whatever the fuel, when there are more windows than `min_ventanas`.
pub escalar_diverge :
    (f : ℕ) (reglas : ReglasPoda) (total : ℕ)
    → (reglas.factor_reduccion ≡ 1) ⊎ (reglas.min_ventanas ≡ 0)
    → reglas.min_ventanas < total
    → escalar f reglas.factor_reduccion total [] reglas.min_ventanas ≡ none
escalar_diverge f reglas total (inl uno) h =
    escalar_sin_fin f reglas.factor_reduccion total [] reglas.min_ventanas (rw uno (omega arith)) h
escalar_diverge f reglas total (inr nada) h =
    escalar_sin_fin f reglas.factor_reduccion total [] reglas.min_ventanas (rw nada (omega arith)) h
