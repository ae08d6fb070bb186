-- ===== src/Hpo/Asha.antt =====
-- asha.py: asynchronous successive halving, and the rules of poda.py that it reads.
use pred_engine.Prelude.{
  ℕ, zero, suc, ◌-◌, ◌*◌, ◌/◌, Bool, Option, none, some, List, [], ◌∷◌, ◌++◌, length, get_elem?,
  ltb, leb, nat_beq, if◌then◌else◌,
}
use pred_engine.Prelude.Sorted.{sorted}
use pred_engine.Prelude.Result.{Result, ok, err, ◌>>◌, raise_if}

-- `agregacion` and `proporcion_recorte`, which no rule of this component reads, are left out.
pub record ReglasPoda : Type 0 where
  pub min_ventanas : ℕ
  pub factor_reduccion : ℕ
  pub habilitar_poda_semantica : Bool

-- The loop of `_calcular_escalones`, with fuel: the steps before the last one, and the last one.
-- `none` says that the fuel ran out.
unfoldable pub escalar : ℕ → ℕ → ℕ → List ℕ → ℕ → Option (List ℕ × ℕ)
escalar zero factor total previos ultimo = none
escalar (suc f) factor total previos ultimo =
    let sigue = escalar f factor total (previos ++ ultimo ∷ []) (ultimo * factor) in
    if ltb (ultimo * factor) total then sigue else some (previos, ultimo)

abbrev pub cerrar_escalera : ℕ → List ℕ × ℕ → List ℕ
cerrar_escalera total p = if nat_beq p.1 total then p.0 ++ p.1 ∷ [] else p.0 ++ (p.1 ∷ total ∷ [])

abbrev pub cerrada : ℕ → Option (List ℕ × ℕ) → Option (List ℕ)
cerrada total none = none
cerrada total (some p) = some (cerrar_escalera total p)

unfoldable pub calcular_escalones : ReglasPoda → ℕ → Option (List ℕ)
unfolding escalar
calcular_escalones reglas total =
    cerrada total (escalar (suc total) reglas.factor_reduccion total [] reglas.min_ventanas)

pub data AshaError : Type 0 where
  -- ValueError of the constructor
  pocas_ventanas : AshaError
  -- the loop of `_calcular_escalones` did not end within its fuel
  sin_fin : AshaError

pub record DecisorAsha : Type 0 where
  pub reglas : ReglasPoda
  pub n_ventanas_totales : ℕ
  pub escalones : List ℕ

abbrev con_escalones : ReglasPoda → ℕ → Option (List ℕ) → Result AshaError DecisorAsha
con_escalones reglas total none = err sin_fin
con_escalones reglas total (some es) =
    ok (record { reglas = reglas; n_ventanas_totales = total; escalones = es })

unfoldable pub decisor_asha : ReglasPoda → ℕ → Result AshaError DecisorAsha
decisor_asha reglas total = do
  raise_if (ltb total reglas.min_ventanas) pocas_ventanas
  con_escalones reglas total (calcular_escalones reglas total)

-- `DecisionPoda`; the text of its reason is left out, the step that it names is kept.
pub data DecisionPoda : Type 0 where
  seguir : DecisionPoda
  podar : ℕ → DecisionPoda

-- `max(e for e in escalones if e <= n)`, or `none`
abbrev mayor : Option ℕ → ℕ → ℕ
mayor none e = e
mayor (some m) e = if ltb m e then e else m

abbrev pub escalon_hasta : List ℕ → ℕ → Option ℕ
escalon_hasta [] n = none
escalon_hasta (e ∷ es) n = let r = escalon_hasta es n in if leb e n then some (mayor r e) else r

-- Values by number of trial, with the order of floats.
module _ {F : Type 0} (lt : F → F → Bool) where
  abbrev pub buscar : ℕ → List (ℕ × F) → Option F
  buscar n [] = none
  buscar n ((k, v) ∷ r) = let otro = buscar n r in if nat_beq k n then some v else otro

  abbrev pub valores : List (ℕ × F) → List F
  valores [] = []
  valores ((k, v) ∷ r) = v ∷ valores r

  -- `max(1, n // factor_reduccion)`. With a factor of 0 and some window the
  -- constructor does not end, so that the division by it is not reached.
  abbrev pub corte_de : ℕ → ℕ → ℕ
  corte_de n factor = let c = n / factor in if ltb c 1 then 1 else c

  -- `valores[corte - 1]` and what is decided by it. Out of range is an IndexError.
  abbrev comparar : ℕ → F → Option F → DecisionPoda
  comparar escalon propio none = seguir
  comparar escalon propio (some umbral) = if lt umbral propio then podar escalon else seguir

  abbrev decidir_en : DecisorAsha → List (ℕ × F) → Option ℕ → Option F → DecisionPoda
  decidir_en d competidores none propio = seguir
  decidir_en d competidores (some escalon) none = seguir
  decidir_en d competidores (some escalon) (some propio) =
      let n = length competidores in
      if ltb n 2
      then seguir
      else comparar escalon propio
          (get_elem? (sorted lt (valores competidores)) (corte_de n d.reglas.factor_reduccion - 1))

  unfoldable pub decidir : DecisorAsha → ℕ → ℕ → List (ℕ × F) → DecisionPoda
  unfolding sorted
  decidir d n_evaluadas numero_trial competidores =
      if ltb n_evaluadas d.reglas.min_ventanas
      then seguir
      else decidir_en d competidores (escalon_hasta d.escalones n_evaluadas)
          (buscar numero_trial competidores)
