-- ===== src/Hpo/Desenlace.antt =====
-- estudio.py with controlador.py: how a study that keeps a session ends, and what the disk then holds.
use pred_engine.Prelude.{
  ℕ, suc, ◌+◌, ◌*◌, ◌≡◌, refl, sym, subst, ◌∙◌, ◌⊎◌, inl, inr, true, some, arith,
}
use pred_engine.Prelude.Result.{Result, ok, err}
use pred_engine.Prelude.Exec.{continue}
use pred_engine.Reanudacion.Contratos.{
  EstadoCorrida, completada, fallida, interrumpida, ReanudacionError,
}
use pred_engine.Reanudacion.Controlador.{
  Externo, SesionCorrida, avanzar, completar, fallar, interrumpir,
}
use pred_engine.Hpo.Estudio.{
  EstudioError, rechaza_casi_todo, espacio, trial, reanudacion, backend, sin_fin, Entorno, Marcha,
  bucle, completar_sesion, tras_fallar, tras_interrumpir, cerrar_estudio, ejecutar_estudio,
}
use pred_engine.Hpo.Conteo.{bucle-termina}
use pred_engine.Hpo.Intentos.{termina}
use pred_engine.Hpo.Sesiones.{
  Guardada, Cerrada, guardada, negada, con_sesion-Cerrada, TieneSesion, con_sesion-TieneSesion,
  bucle-TieneSesion, bucle-indice,
}

module _ (x : Externo) (n : Entorno x) where
  -- Every exception but that of a space that rejects almost all configurations; the fuel of the model
  -- is not one.
  abbrev pub EsOtra : EstudioError → Type 0
  EsOtra (rechaza_casi_todo k) = ⊥
  EsOtra sin_fin = ⊥
  EsOtra _ = Unit

  -- The controller raises when it is asked, in `m`, to write the state with the trials of `m`, and
  -- leaves the world of `m'`.
  pub record Negada (o : EstadoCorrida) (m : Marcha x n) (d : ReanudacionError) (m' : Marcha x n)
      : Type 0 where
    pub ses : SesionCorrida x
    pub vigente : m.sesion ≡ some ses
    pub raises : avanzar x o ses m.indice_trial m.mundo ≡ (err d, m'.mundo)

  -- How a study ends, from how its loop ended. A loop that returned has run all trials, and the run is
  -- COMPLETADA, or the controller refuses that and then the run is INTERRUMPIDA or the controller refuses
  -- that too. After the exception that almost all is rejected the run is FALLIDA, or the controller
  -- refuses that, and its exception takes the place of the other. After another exception the run is
  -- INTERRUMPIDA, or the controller refuses that, and the exception of the loop stays.
  pub data Desenlace (fin : Result EstudioError (Unit {0}) × Marcha x n)
      : Result EstudioError (Unit {0}) × Marcha x n → Type 0 where
    completo :
        {m : Marcha x n}
        → fin.0 ≡ ok tt
        → fin.1.indice_trial ≡ n.n_trials
        → m.indice_trial ≡ n.n_trials
        → Guardada x n completada m
        → Desenlace fin (ok tt, m)
    completar_negado :
        {m : Marcha x n} (d : ReanudacionError) (m' : Marcha x n)
        → fin.0 ≡ ok tt
        → fin.1.indice_trial ≡ n.n_trials
        → Negada completada fin.1 d m'
        → m'.indice_trial ≡ n.n_trials
        → (Guardada x n interrumpida m × (m.indice_trial ≡ m'.indice_trial))
          ⊎ ((d' : ReanudacionError) × Negada interrumpida m' d' m)
        → Desenlace fin (err (reanudacion d), m)
    rechazado :
        {m : Marcha x n} (k : ℕ)
        → fin.0 ≡ err (rechaza_casi_todo k)
        → m.indice_trial ≡ fin.1.indice_trial
        → Guardada x n fallida m
        → Desenlace fin (err (rechaza_casi_todo k), m)
    fallar_negado :
        {m : Marcha x n} (k : ℕ) (d : ReanudacionError)
        → fin.0 ≡ err (rechaza_casi_todo k)
        → Negada fallida fin.1 d m
        → Desenlace fin (err (reanudacion d), m)
    interrumpido :
        {m : Marcha x n} (e : EstudioError)
        → fin.0 ≡ err e
        → EsOtra e
        → m.indice_trial ≡ fin.1.indice_trial
        → Guardada x n interrumpida m
        → Desenlace fin (err e, m)
    interrumpir_negado :
        {m : Marcha x n} (e : EstudioError) (d : ReanudacionError)
        → fin.0 ≡ err e
        → EsOtra e
        → Negada interrumpida fin.1 d m
        → Desenlace fin (err e, m)

  tras_fallar-Desenlace :
      (k : ℕ) (m : Marcha x n) (r : Result EstudioError (Unit {0}) × Marcha x n)
      → Cerrada x n fallida m r
      → Desenlace (err (rechaza_casi_todo k), m) (tras_fallar x n (rechaza_casi_todo k) r)
  tras_fallar-Desenlace k m (ok u, s) (guardada g i) = rechazado k refl i g
  tras_fallar-Desenlace k m (err d, s) (negada ses d' v mismo igual h) =
      fallar_negado k d' refl (record { ses = ses; vigente = v; raises = h })

  -- What `interrumpir` leaves, whatever exception it comes after.
  tras_interrumpir-cases :
      (e : EstudioError) (m : Marcha x n) (r : Result EstudioError (Unit {0}) × Marcha x n)
      → Cerrada x n interrumpida m r
      → (m' : Marcha x n) × (tras_interrumpir x n e r ≡ (err e, m'))
        × ((Guardada x n interrumpida m' × (m'.indice_trial ≡ m.indice_trial))
            ⊎ ((d : ReanudacionError) × Negada interrumpida m d m'))
  tras_interrumpir-cases e m (ok u, s) (guardada g i) = (s, refl, inl (g, i))
  tras_interrumpir-cases e m (err d, s) (negada ses d' v mismo igual h) =
      (s, refl, inr (d', record { ses = ses; vigente = v; raises = h }))

  interrumpir-Desenlace :
      (e : EstudioError) (m : Marcha x n) (r : Result EstudioError (Unit {0}) × Marcha x n)
      → EsOtra e
      → Cerrada x n interrumpida m r
      → Desenlace (err e, m) (tras_interrumpir x n e r)
  interrumpir-Desenlace e m r o c =
      let (m', son, casos) = tras_interrumpir-cases e m r c in
      subst (Desenlace (err e, m)) (sym son) (segun m' casos)
    where
      segun :
          (m' : Marcha x n)
          → (Guardada x n interrumpida m' × (m'.indice_trial ≡ m.indice_trial))
            ⊎ ((d : ReanudacionError) × Negada interrumpida m d m')
          → Desenlace (err e, m) (err e, m')
      segun m' (inl (g, i)) = interrumpido e refl o i g
      segun m' (inr (d, g)) = interrumpir_negado e d refl o g

  -- `except` after a loop that raised.
  cerrar_estudio-Desenlace :
      (e : EstudioError) (m : Marcha x n)
      → TieneSesion x n m
      → termina {A = Unit {0}} (err e) ≡ true
      → Desenlace (err e, m) (cerrar_estudio x n (err e, m))
  unfolding cerrar_estudio interrumpir fallar
  cerrar_estudio-Desenlace (rechaza_casi_todo k) m h t =
      tras_fallar-Desenlace k m _ (con_sesion-Cerrada x n fallida m h.1)
  cerrar_estudio-Desenlace (espacio e) m h t =
      interrumpir-Desenlace (espacio e) m _ tt (con_sesion-Cerrada x n interrumpida m h.1)
  cerrar_estudio-Desenlace (trial e) m h t =
      interrumpir-Desenlace (trial e) m _ tt (con_sesion-Cerrada x n interrumpida m h.1)
  cerrar_estudio-Desenlace (reanudacion e) m h t =
      interrumpir-Desenlace (reanudacion e) m _ tt (con_sesion-Cerrada x n interrumpida m h.1)
  cerrar_estudio-Desenlace (backend e) m h t =
      interrumpir-Desenlace (backend e) m _ tt (con_sesion-Cerrada x n interrumpida m h.1)
  cerrar_estudio-Desenlace sin_fin m h t = cc t

  -- `completar` after a loop that returned.
  completar-Desenlace :
      (m : Marcha x n) (r : Result EstudioError (Unit {0}) × Marcha x n)
      → m.indice_trial ≡ n.n_trials
      → TieneSesion x n r.1
      → Cerrada x n completada m r
      → Desenlace (ok tt, m) (cerrar_estudio x n r)
  unfolding cerrar_estudio interrumpir
  completar-Desenlace m (ok u, s) todos h (guardada g i) = completo refl todos (i ∙ todos) g
  completar-Desenlace m (err e, s) todos h (negada ses d v mismo igual k) =
      let (m', son, casos) =
        tras_interrumpir-cases (reanudacion d) s _ (con_sesion-Cerrada x n interrumpida s h.1) in
      subst (Desenlace (ok tt, m)) (sym son) (
        completar_negado d s refl todos (record { ses = ses; vigente = v; raises = k })
          (igual ∙ todos) casos)

  tras_bucle-Desenlace :
      (r : Result EstudioError (Unit {0}) × Marcha x n)
      → termina r.0 ≡ true
      → TieneSesion x n r.1
      → (r.0 ≡ ok tt → r.1.indice_trial ≡ n.n_trials)
      → Desenlace r (cerrar_estudio x n (continue r (λ _. completar_sesion x n)))
  unfolding completar_sesion completar
  tras_bucle-Desenlace (ok u, m) t h todos =
      completar-Desenlace m _ (todos refl) (con_sesion-TieneSesion x n (completar x) m.sesion m h)
        (con_sesion-Cerrada x n completada m h.1)
  tras_bucle-Desenlace (err e, m) t h todos = cerrar_estudio-Desenlace e m h t

  -- With fuel for each of the `n` trials that the study wants, and for as many configurations that
  -- are rejected before each as the loop allows, a study that has a session, at most `n` trials behind
  -- it and no rejected configuration counted ends. When its loop returns, all `n` trials are run and
  -- the manifest on disk says COMPLETADA with their number; or the controller raises on `completar`,
  -- which is the exception of the study, and the manifest says INTERRUMPIDA or the controller raises on
  -- `interrumpir` too. When the loop raises because almost all configurations are rejected, the manifest
  -- says FALLIDA; or the controller raises on `fallar`, and that exception takes the place of the other.
  -- When the loop raises another exception, the study raises it, and the manifest says INTERRUMPIDA or
  -- the controller raises on `interrumpir`. Each manifest has the trials finished so far.
  pub ejecutar_estudio-Desenlace :
      (m : Marcha x n) (ses : SesionCorrida x) (d : ℕ)
      → m.sesion ≡ some ses
      → n.n_trials ≡ m.indice_trial + d
      → m.intentos_invalidos ≡ 0
      → Desenlace
          (bucle x n (suc (d * (n.n_trials * 20 + 2) + n.n_trials * 20)) m)
          (ejecutar_estudio x n (suc (d * (n.n_trials * 20 + 2) + n.n_trials * 20)) m)
  unfolding ejecutar_estudio
  ejecutar_estudio-Desenlace m ses d hay faltan nada =
      let f = suc (d * (n.n_trials * 20 + 2) + n.n_trials * 20) in
      tras_bucle-Desenlace (bucle x n f m)
        (bucle-termina x n f d m faltan (omega arith) (omega arith))
        (bucle-TieneSesion x n f m (ses, hay)) (bucle-indice x n f m (omega arith))
