-- ===== src/Hpo/Trial.antt =====
-- estudio.py and `es_degenerada` of poda.py: one trial, from its first window to what the study is
-- told. The texts of the reasons are left out; what they name is kept.
use pred_engine.Prelude.{
  ℕ, zero, suc, String, Bool, Option, none, some, List, [], ◌∷◌, ◌++◌, nat_beq, not, ◌&&◌,
  if◌then◌else◌,
}
use pred_engine.Prelude.Result.{Result, ok, err}
use pred_engine.Prelude.Sorted.{any, all}
use pred_engine.WalkForward.Ventanas.{EvaluacionError}
use pred_engine.WalkForward.Numeros.{Numpy}
use pred_engine.WalkForward.Ejecucion.{Modelos, Ajustes}
use pred_engine.WalkForward.Recorridos.{
  ResultadoWalkForward, EstadoParcial, EjecutorGreedy, avanzar, cerrar, resultado,
}
use pred_engine.Hpo.Asha.{ReglasPoda}

pub data Degenerada : Type 0 where
  prediccion_no_finita demanda_negativa prediccion_nula : Degenerada

pub data MotivoTrial : Type 0 where
  ajuste_fallido : ℕ → String → MotivoTrial
  poda_semantica : ℕ → Degenerada → MotivoTrial
  asha : ℕ → MotivoTrial
  ninguna_ventana_convergio : MotivoTrial

pub data EstadoTrial : Type 0 where
  completado podado fallido : EstadoTrial

-- What a trial and its study are called with, in order.
pub data Evento (F : Type 0) : Type 0 where
  n_ventanas : ℕ → Evento F
  motivo : MotivoTrial → Evento F
  estado_motor_completado : Evento F
  report : F → ℕ → Evento F
  tell : Option F → EstadoTrial → Evento F

pub data TrialError : Type 0 where
  evaluacion : EvaluacionError → TrialError
  -- the fuel of the model ran out
  sin_fin : TrialError

-- `tol`, `-tol`, and `trial.should_prune()`, which reads what was reported so far.
pub record Juicio (F : Type 0) : Type 0 where
  pub tol : F
  pub menos_tol : F
  pub should_prune : List (Evento F) → Bool

module _ (np : Numpy) (modelos : Modelos np) (a : Ajustes np) (y : List np.F)
    (configuracion : modelos.Configuracion) (juicio : Juicio np.F) (reglas : ReglasPoda) where
  open np use {F, isfinite, lt, le}

  unfoldable pub es_degenerada : List F → List F → Option Degenerada
  es_degenerada y_pred y_train =
      if not (all isfinite y_pred)
      then some prediccion_no_finita
      else if any (λ x. lt x juicio.menos_tol) y_pred
      then some demanda_negativa
      else if all (λ x. le x juicio.tol) y_pred && any (λ x. lt juicio.tol x) y_train
      then some prediccion_nula
      else none

  abbrev pub Salida : Type 0
  Salida =
      Result TrialError (Option (ResultadoWalkForward np)) × EjecutorGreedy np × List (Evento F)

  unfoldable pub cerrar_por_agotamiento :
      ResultadoWalkForward np → List (Evento F) → List (Evento F)
  cerrar_por_agotamiento r t =
      if isfinite r.valor_agregado
      then t ++ (n_ventanas r.n_ventanas_evaluadas ∷ tell (some r.valor_agregado) completado ∷ [])
      else t
        ++ (n_ventanas r.n_ventanas_evaluadas
            ∷ motivo ninguna_ventana_convergio
            ∷ tell none fallido
            ∷ [])

  abbrev motivos : Option MotivoTrial → List (Evento F)
  motivos none = []
  motivos (some m) = motivo m ∷ []

  unfoldable pub cerrar_podado_o_fallido :
      ℕ → F → Option MotivoTrial → List (Evento F) → List (Evento F)
  cerrar_podado_o_fallido n valor m t =
      t
      ++ (n_ventanas n ∷ (motivos m ++ tell none (if isfinite valor then podado else fallido) ∷ []))

  -- `ejecutor.avanzar()` gave None.
  abbrev pub agotar :
      Result EvaluacionError (ResultadoWalkForward np)
      → EjecutorGreedy np
      → List (Evento F)
      → Salida
  agotar (err x) e t = (err (evaluacion x), e, t)
  agotar (ok r) e t =
      (ok (if isfinite r.valor_agregado then some r else none), e, cerrar_por_agotamiento r t)

  abbrev cerrado : String → EjecutorGreedy np → EjecutorGreedy np
  cerrado m e = cerrar np modelos a y configuracion m e

  abbrev pub podar_semantica :
      EstadoParcial np → Degenerada → EjecutorGreedy np → List (Evento F) → Salida
  podar_semantica s d e t = (
    ok none,
    cerrado "poda_semantica" e,
    cerrar_podado_o_fallido s.n_evaluadas s.valor_parcial (some (poda_semantica s.n_evaluadas d)) t,
  )

  abbrev pub podar_asha : EstadoParcial np → EjecutorGreedy np → List (Evento F) → Salida
  podar_asha s e t =
      if nat_beq s.n_evaluadas s.n_totales && isfinite s.valor_parcial
      then (
        ok none,
        cerrado "asha" e,
        cerrar_podado_o_fallido s.n_evaluadas s.valor_parcial none
            (t ++ estado_motor_completado ∷ []),
      )
      else (
        ok none,
        cerrado "asha" e,
        cerrar_podado_o_fallido s.n_evaluadas s.valor_parcial (some (asha s.n_evaluadas)) t,
      )

  abbrev pub degenerada_en : EstadoParcial np → Option Degenerada
  degenerada_en s =
      if reglas.habilitar_poda_semantica
      then es_degenerada s.ultima.y_pred s.ultima.y_train
      else none

  abbrev pub juzgar :
      Option Degenerada → EstadoParcial np → EjecutorGreedy np → List (Evento F) → Salida → Salida
  juzgar (some d) s e t sigue = podar_semantica s d e t
  juzgar none s e t sigue = if juicio.should_prune t then podar_asha s e t else sigue

  -- A window without failure was reported; `sigue` is the rest of the loop.
  abbrev pub tras_informe : EstadoParcial np → EjecutorGreedy np → List (Evento F) → Salida → Salida
  tras_informe s e t sigue = juzgar (degenerada_en s) s e t sigue

  abbrev pub tras_fallo : EstadoParcial np → String → EjecutorGreedy np → List (Evento F) → Salida
  tras_fallo s f e t = (
    ok none,
    cerrado "ajuste_fallido" e,
    t
        ++ (n_ventanas s.n_evaluadas
            ∷ motivo (ajuste_fallido s.n_evaluadas f)
            ∷ tell none fallido
            ∷ []),
  )

  abbrev pub con_informe : EstadoParcial np → List (Evento F) → List (Evento F)
  con_informe s t = t ++ report s.valor_parcial s.n_evaluadas ∷ []

  abbrev pub segun_fallo :
      Option String → EstadoParcial np → EjecutorGreedy np → List (Evento F) → Salida → Salida
  segun_fallo (some f) s e t sigue = tras_fallo s f e t
  segun_fallo none s e t sigue = tras_informe s e (con_informe s t) sigue

  abbrev pub tras_ventana : EstadoParcial np → EjecutorGreedy np → List (Evento F) → Salida → Salida
  tras_ventana s e t sigue = segun_fallo s.ultima.fallo s e t sigue

  -- One turn of the loop; `sigue` is the rest of it after a window that does not end the trial.
  abbrev pub turno :
      List (Evento F)
      → (EstadoParcial np → EjecutorGreedy np → Salida)
      → Result EvaluacionError (Option (EstadoParcial np)) × EjecutorGreedy np
      → Salida
  turno t sigue (err x, e) = (err (evaluacion x), e, t)
  turno t sigue (ok none, e) = agotar (resultado np modelos a y configuracion e) e t
  turno t sigue (ok (some s), e) = tras_ventana s e t (sigue s e)

  -- The loop `while True`, with fuel.
  unfoldable pub correr_trial : ℕ → EjecutorGreedy np → List (Evento F) → Salida
  correr_trial zero e t = (err sin_fin, e, t)
  correr_trial (suc f) e t =
      turno t (λ s e'. correr_trial f e' (con_informe s t)) (avanzar np modelos a y configuracion e)
