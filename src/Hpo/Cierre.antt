-- ===== src/Hpo/Cierre.antt =====
-- estudio.py: what the study is told at the end of a trial, and that a trial ends.
use mathlib.Core.List.{append_assoc}
use pred_engine.Prelude.{
  String, subst, nat_beq, ◌&&◌, ℕ, zero, suc, ◌+◌, ◌≡◌, refl, true, Option, none, some, List, [],
  ◌∷◌, ◌++◌, if◌then◌else◌, Bool-cases, inl, inr, arith, ap, ◌∙◌, sym,
}
use pred_engine.Prelude.Result.{Result, ok, err}
use pred_engine.WalkForward.Ventanas.{EvaluacionError}
use pred_engine.WalkForward.Numeros.{Numpy}
use pred_engine.WalkForward.Ejecucion.{Modelos, Ajustes}
use pred_engine.WalkForward.Recorridos.{
  ResultadoWalkForward, EstadoParcial, EjecutorGreedy, avanzar,
}
use pred_engine.Hpo.Asha.{ReglasPoda}
use pred_engine.Hpo.Trial.{
  Degenerada, MotivoTrial, completado, podado, fallido, Evento, n_ventanas, motivo,
  estado_motor_completado, report, tell, TrialError, Juicio, Salida, correr_trial, turno, agotar,
  tras_informe, podar_asha, cerrar_por_agotamiento, cerrar_podado_o_fallido, con_informe,
  degenerada_en, juzgar, segun_fallo,
}

-- How often the study was told the end of the trial.
abbrev pub avisos : {F : Type 0} → List (Evento F) → ℕ
avisos [] = 0
avisos (tell v e ∷ t) = suc (avisos t)
avisos (n_ventanas n ∷ t) = avisos t
avisos (motivo m ∷ t) = avisos t
avisos (estado_motor_completado ∷ t) = avisos t
avisos (report v n ∷ t) = avisos t

avisos-append : {F : Type 0} (s t : List (Evento F)) → avisos (s ++ t) ≡ avisos s + avisos t
avisos-append [] t = omega arith
avisos-append (tell v e ∷ s) t = omega (arith, avisos-append s t)
avisos-append (n_ventanas n ∷ s) t = avisos-append s t
avisos-append (motivo m ∷ s) t = avisos-append s t
avisos-append (estado_motor_completado ∷ s) t = avisos-append s t
avisos-append (report v n ∷ s) t = avisos-append s t

-- One end more, when what was told at the last holds one.
avisos-uno : {F : Type 0} (t s : List (Evento F)) → avisos s ≡ 1 → avisos (t ++ s) ≡ suc (avisos t)
avisos-uno t s h = omega (arith, avisos-append t s, h)

avisos-ninguno : {F : Type 0} (t s : List (Evento F)) → avisos s ≡ 0 → avisos (t ++ s) ≡ avisos t
avisos-ninguno t s h = omega (arith, avisos-append t s, h)

module _ (np : Numpy) (modelos : Modelos np) (a : Ajustes np) (y : List np.F)
    (configuracion : modelos.Configuracion) (juicio : Juicio np.F) (reglas : ReglasPoda) where
  open np use {F, isfinite}

  -- A trial that returned told the study its end once, with `n` ends told before; if it gives a result,
  -- that was the last thing, as completed and with the finite value of the result.
  abbrev pub AvisaUnaVez :
      ℕ → Result TrialError (Option (ResultadoWalkForward np)) → List (Evento F) → Type 0
  AvisaUnaVez n (err x) t = Unit
  AvisaUnaVez n (ok none) t = avisos t ≡ suc n
  AvisaUnaVez n (ok (some r)) t =
      (avisos t ≡ suc n)
      × (isfinite r.valor_agregado ≡ true)
      × ((previos : List (Evento F)) × (t
            ≡ previos ++ tell (some r.valor_agregado) completado ∷ []))

  abbrev EnSalida : ℕ → Salida np modelos a y configuracion juicio reglas → Type 0
  EnSalida n s = AvisaUnaVez n s.0 s.2

  agotar-EnSalida :
      (r : Result EvaluacionError (ResultadoWalkForward np)) (e : EjecutorGreedy np)
      (t : List (Evento F))
      → EnSalida (avisos t) (agotar np modelos a y configuracion juicio reglas r e t)
  unfolding cerrar_por_agotamiento
  agotar-EnSalida (err x) e t = tt
  agotar-EnSalida (ok r) e t = elim (Bool-cases (isfinite r.valor_agregado)) [
    | inl b ↦ rw b (
      avisos-uno t _ refl,
      b,
      (
        t ++ n_ventanas r.n_ventanas_evaluadas ∷ [],
        sym (append_assoc t (n_ventanas r.n_ventanas_evaluadas ∷ []) _),
      ),
    )
    | inr b ↦ rw b (avisos-uno t _ refl)
  ]

  cerrar_podado-avisos :
      (n : ℕ) (v : F) (m : Option MotivoTrial) (t : List (Evento F))
      → avisos (cerrar_podado_o_fallido np modelos a y configuracion juicio reglas n v m t)
        ≡ suc (avisos t)
  unfolding cerrar_podado_o_fallido
  cerrar_podado-avisos n v none t =
      avisos-uno t (n_ventanas n ∷ tell none (if isfinite v then podado else fallido) ∷ []) refl
  cerrar_podado-avisos n v (some m) t =
      avisos-uno t
        (n_ventanas n ∷ motivo m ∷ tell none (if isfinite v then podado else fallido) ∷ []) refl

  podar_asha-EnSalida :
      (s : EstadoParcial np) (e : EjecutorGreedy np) (t : List (Evento F))
      → EnSalida (avisos t) (podar_asha np modelos a y configuracion juicio reglas s e t)
  podar_asha-EnSalida s e t =
      elim (Bool-cases (nat_beq s.n_evaluadas s.n_totales && isfinite s.valor_parcial)) [
        | inl b ↦ rw b (
            cerrar_podado-avisos s.n_evaluadas s.valor_parcial none _
            ∙ ap suc (avisos-ninguno t _ refl))
        | inr b ↦ rw b (cerrar_podado-avisos s.n_evaluadas s.valor_parcial _ t)
      ]

  juzgar-EnSalida :
      (o : Option Degenerada) (s : EstadoParcial np) (e : EjecutorGreedy np) (t : List (Evento F))
      (sigue : Salida np modelos a y configuracion juicio reglas)
      → EnSalida (avisos t) sigue
      → EnSalida (avisos t) (juzgar np modelos a y configuracion juicio reglas o s e t sigue)
  juzgar-EnSalida (some d) s e t sigue h = cerrar_podado-avisos s.n_evaluadas s.valor_parcial _ t
  juzgar-EnSalida none s e t sigue h = elim (Bool-cases (juicio.should_prune t)) [
    | inl b ↦ rw b (podar_asha-EnSalida s e t)
    | inr b ↦ rw b h
  ]

  segun_fallo-EnSalida :
      (o : Option String) (s : EstadoParcial np) (e : EjecutorGreedy np) (t : List (Evento F))
      (sigue : Salida np modelos a y configuracion juicio reglas)
      → EnSalida (avisos (con_informe np modelos a y configuracion juicio reglas s t)) sigue
      → EnSalida (avisos t) (segun_fallo np modelos a y configuracion juicio reglas o s e t sigue)
  segun_fallo-EnSalida (some f) s e t sigue h = avisos-uno t _ refl
  segun_fallo-EnSalida none s e t sigue h =
      let informado = con_informe np modelos a y configuracion juicio reglas s t in
      let q =
        juzgar-EnSalida (degenerada_en np modelos a y configuracion juicio reglas s) s e informado
          sigue h in
      subst
        (λ n.
          EnSalida n (tras_informe np modelos a y configuracion juicio reglas s e informado sigue))
        (avisos-ninguno t _ refl) q

  turno-EnSalida :
      (t : List (Evento F))
      (sigue : EstadoParcial np
        → EjecutorGreedy np
        → Salida np modelos a y configuracion juicio reglas)
      → ((s : EstadoParcial np) (e : EjecutorGreedy np)
          → EnSalida
              (avisos (con_informe np modelos a y configuracion juicio reglas s t))
              (sigue s e))
      → (p : Result EvaluacionError (Option (EstadoParcial np)) × EjecutorGreedy np)
      → EnSalida (avisos t) (turno np modelos a y configuracion juicio reglas t sigue p)
  turno-EnSalida t sigue h (err x, e) = tt
  turno-EnSalida t sigue h (ok none, e) = agotar-EnSalida _ e t
  turno-EnSalida t sigue h (ok (some s), e) =
      segun_fallo-EnSalida s.ultima.fallo s e t (sigue s e) (h s e)

  -- However a trial goes, when it returns the study was told its end exactly once; and when it gives a
  -- result, the last thing told is that it was completed, with the value of the result, which is finite.
  pub correr_trial-AvisaUnaVez :
      (f : ℕ) (e : EjecutorGreedy np) (t : List (Evento F))
      → AvisaUnaVez
          (avisos t)
          (correr_trial np modelos a y configuracion juicio reglas f e t).0
          (correr_trial np modelos a y configuracion juicio reglas f e t).2
  unfolding correr_trial
  correr_trial-AvisaUnaVez zero e t = tt
  correr_trial-AvisaUnaVez (suc f) e t =
      turno-EnSalida t _
        (λ s e'.
          correr_trial-AvisaUnaVez f e'
            (con_informe np modelos a y configuracion juicio reglas s t))
        (avanzar np modelos a y configuracion e)
