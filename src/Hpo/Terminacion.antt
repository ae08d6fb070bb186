-- ===== src/Hpo/Terminacion.antt =====
-- estudio.py: the loop of a trial ends.

use pred_engine.Prelude.{
  String, subst, nat_beq, ◌&&◌, suc, ◌≡◌, ◌≢◌, refl, Bool, true, false, Option, none, some, List,
  [], ◌∷◌, ◌++◌, Bool-cases, inl, inr, arith, length, sym,
}
use pred_engine.Prelude.Result.{Result, ok, err}
use pred_engine.WalkForward.Ventanas.{VentanaTemporal, EvaluacionError}
use pred_engine.WalkForward.Numeros.{Numpy}
use pred_engine.WalkForward.Ejecucion.{Modelos, Ajustes}
use pred_engine.WalkForward.Recorridos.{
  ResultadoWalkForward, EstadoParcial, EjecutorGreedy, vivo, nuevo, siguiente, avanzar,
}
use pred_engine.Hpo.Asha.{ReglasPoda}
use pred_engine.Hpo.Trial.{
  Degenerada, Evento, TrialError, evaluacion, sin_fin, Juicio, Salida, correr_trial, turno, agotar,
  con_informe, degenerada_en, juzgar, segun_fallo,
}
use pred_engine.WalkForward.Metricas.{ResultadoVentana}

-- The trial did not run out of fuel.
abbrev pub termina : {A : Type 0} → Result TrialError A → Bool
termina (ok x) = true
termina (err (evaluacion x)) = true
termina (err sin_fin) = false

module _ (np : Numpy) (modelos : Modelos np) (a : Ajustes np) (y : List np.F)
    (configuracion : modelos.Configuracion) (juicio : Juicio np.F) (reglas : ReglasPoda) where
  open np use {F, isfinite}

  abbrev Resto : Type 0
  Resto = Salida np modelos a y configuracion juicio reglas

  agotar-termina :
      (r : Result EvaluacionError (ResultadoWalkForward np)) (e : EjecutorGreedy np)
      (t : List (Evento F))
      → termina (agotar np modelos a y configuracion juicio reglas r e t).0 ≡ true
  agotar-termina (err x) e t = refl
  agotar-termina (ok r) e t = refl

  juzgar-termina :
      (o : Option Degenerada) (s : EstadoParcial np) (e : EjecutorGreedy np) (t : List (Evento F))
      (sigue : Resto)
      → termina sigue.0 ≡ true
      → termina (juzgar np modelos a y configuracion juicio reglas o s e t sigue).0 ≡ true
  juzgar-termina (some d) s e t sigue h = refl
  juzgar-termina none s e t sigue h = elim (Bool-cases (juicio.should_prune t)) [
    | inl b ↦ elim (Bool-cases (nat_beq s.n_evaluadas s.n_totales && isfinite s.valor_parcial)) [
      | inl c ↦ rw (b, c) refl
      | inr c ↦ rw (b, c) refl
    ]
    | inr b ↦ rw b h
  ]

  segun_fallo-termina :
      (o : Option String) (s : EstadoParcial np) (e : EjecutorGreedy np) (t : List (Evento F))
      (sigue : Resto)
      → termina sigue.0 ≡ true
      → termina (segun_fallo np modelos a y configuracion juicio reglas o s e t sigue).0 ≡ true
  segun_fallo-termina (some f) s e t sigue h = refl
  segun_fallo-termina none s e t sigue h =
      juzgar-termina (degenerada_en np modelos a y configuracion juicio reglas s) s e
        (con_informe np modelos a y configuracion juicio reglas s t) sigue h

  turno-termina :
      (t : List (Evento F)) (sigue : EstadoParcial np → EjecutorGreedy np → Resto)
      (p : Result EvaluacionError (Option (EstadoParcial np)) × EjecutorGreedy np)
      → ((s : EstadoParcial np) (e : EjecutorGreedy np)
          → p ≡ (ok (some s), e)
          → termina (sigue s e).0 ≡ true)
      → termina (turno np modelos a y configuracion juicio reglas t sigue p).0 ≡ true
  turno-termina t sigue (err x, e) h = refl
  turno-termina t sigue (ok none, e) h = agotar-termina _ e t
  turno-termina t sigue (ok (some s), e) h =
      segun_fallo-termina s.ultima.fallo s e t (sigue s e) (h s e refl)

  abbrev en_curso :
      List VentanaTemporal → List (ResultadoVentana np) → List VentanaTemporal → EjecutorGreedy np
  en_curso vs hist pend = record {
    ventanas = vs;
    generador = vivo hist pend;
    historial = hist;
    cerrado = false;
    motivo_cierre = none;
  }

  avanzar-sigue :
      (vs : List VentanaTemporal) (hist : List (ResultadoVentana np)) (v : VentanaTemporal)
      (pend : List VentanaTemporal) (s : EstadoParcial np) (e : EjecutorGreedy np)
      → avanzar np modelos a y configuracion (en_curso vs hist (v ∷ pend)) ≡ (ok (some s), e)
      → e ≡ en_curso vs (hist ++ s.ultima ∷ []) pend
  unfolding avanzar siguiente
  avanzar-sigue vs [] v pend s e h = ground arith
  avanzar-sigue vs (r ∷ rs) v pend s e h = ground arith

  avanzar-fin :
      (vs : List VentanaTemporal) (hist : List (ResultadoVentana np)) (s : EstadoParcial np)
      (e : EjecutorGreedy np)
      → avanzar np modelos a y configuracion (en_curso vs hist []) ≢ (ok (some s), e)
  unfolding avanzar siguiente
  avanzar-fin vs [] s e h = cc h
  avanzar-fin vs (r ∷ rs) s e h = cc h

  en_curso-termina :
      (vs : List VentanaTemporal) (hist : List (ResultadoVentana np)) (pend : List VentanaTemporal)
      (t : List (Evento F))
      → termina
          (correr_trial np modelos a y configuracion juicio reglas
            (suc (length pend))
            (en_curso vs hist pend)
            t).0
        ≡ true
  unfolding correr_trial
  en_curso-termina vs hist [] t =
      turno-termina t _ (avanzar np modelos a y configuracion (en_curso vs hist []))
        (λ s e h. absurd (avanzar-fin vs hist s e h))
  en_curso-termina vs hist (v ∷ pend) t =
      turno-termina t _ (avanzar np modelos a y configuracion (en_curso vs hist (v ∷ pend)))
        (λ s e h.
          subst
            (λ k.
              termina
                (correr_trial np modelos a y configuracion juicio reglas (suc (length pend)) k
                  (con_informe np modelos a y configuracion juicio reglas s t)).0
              ≡ true)
            (sym (avanzar-sigue vs hist v pend s e h))
            (en_curso-termina vs (hist ++ s.ultima ∷ []) pend
              (con_informe np modelos a y configuracion juicio reglas s t)))

  -- A trial over a list of windows ends: it returns or raises what the evaluation raised, with fuel for
  -- one turn more than there are windows.
  pub correr_trial-termina :
      (vs : List VentanaTemporal) (t : List (Evento F))
      → termina
          (correr_trial np modelos a y configuracion juicio reglas
            (suc (length vs))
            (nuevo np modelos a y configuracion vs)
            t).0
        ≡ true
  correr_trial-termina vs t = en_curso-termina vs [] vs t
