-- ===== src/Hpo/Sesiones.antt =====
-- estudio.py with controlador.py: the session that a study keeps through its loop, and what an
-- operation on it leaves.
use pred_engine.Prelude.{
  ℕ, zero, suc, ◌*◌, ◌≤◌, ◌≡◌, refl, sym, ap, subst, ◌∙◌, inl, inr, true, Option, none, some, ltb,
  ltb→lt, Bool-cases, arith,
}
use pred_engine.Prelude.Result.{Result, ok, err}
use pred_engine.Prelude.Exec.{continue}
use pred_engine.Reanudacion.Contratos.{EstadoCorrida, ReanudacionError}
use pred_engine.Reanudacion.Transiciones.{Paso_of_transicionar}
use pred_engine.Reanudacion.Controlador.{Externo, Mundo, SesionCorrida, avanzar, checkpoint}
use pred_engine.Reanudacion.Avance.{EsCoherente, avanzar-Avance, avanzar_estado}
use pred_engine.Hpo.Estudio.{
  EstudioError, reanudacion, Entorno, Completo, Marcha, anotar_sesion, con_sesion, guardar_avance,
  rechazar, mejor_de, contar, intento, vuelta, bucle,
}
use pred_engine.Hpo.Conteo.{Avanza, vuelta-Avanza, bucle_para, bucle_sigue}

module _ (x : Externo) (n : Entorno x) where
  -- The manifest of the session is on disk, in a state and with the trials counted so far.
  pub record Guardada (o : EstadoCorrida) (m : Marcha x n) : Type 0 where
    pub ses : SesionCorrida x
    pub vigente : m.sesion ≡ some ses
    pub estado : ses.manifiesto.estado ≡ o
    pub trials : ses.manifiesto.n_trials_finalizados ≡ m.indice_trial
    pub coherente : EsCoherente x m.mundo ses.manifiesto

  pub data Cerrada (o : EstadoCorrida) (m : Marcha x n)
      : Result EstudioError (Unit {0}) × Marcha x n → Type 0 where
    guardada :
        {m' : Marcha x n}
        → Guardada o m'
        → m'.indice_trial ≡ m.indice_trial
        → Cerrada o m (ok tt, m')
    negada :
        {m' : Marcha x n} (ses : SesionCorrida x) (d : ReanudacionError)
        → m.sesion ≡ some ses
        → m'.sesion ≡ m.sesion
        → m'.indice_trial ≡ m.indice_trial
        → avanzar x o ses m.indice_trial m.mundo ≡ (err d, m'.mundo)
        → Cerrada o m (err (reanudacion d), m')

  anotar_sesion-Cerrada :
      (o : EstadoCorrida) (ses : SesionCorrida x) (m : Marcha x n)
      (r : Result ReanudacionError (SesionCorrida x) × Mundo x)
      → m.sesion ≡ some ses
      → avanzar x o ses m.indice_trial m.mundo ≡ r
      → Cerrada o m (anotar_sesion x n r m)
  anotar_sesion-Cerrada o ses m (err d, w) v h = negada ses d v refl refl h
  anotar_sesion-Cerrada o ses m (ok ses', w) v h =
      let avance = avanzar-Avance x o ses m.indice_trial m.mundo w ses' h in
      guardada
        (record {
          ses = ses';
          vigente = refl;
          estado =
              sym
                (Paso_of_transicionar ses.manifiesto.estado o
                  (avanzar_estado x o ses m.indice_trial m.mundo w ses' h)).0;
          trials = ap (λ s. s.manifiesto.n_trials_finalizados) avance.solo_avance;
          coherente = avance.coherente;
        })
        refl

  pub con_sesion-Cerrada :
      (o : EstadoCorrida) (m : Marcha x n) {ses : SesionCorrida x}
      → m.sesion ≡ some ses
      → Cerrada o m (con_sesion x n (avanzar x o) m.sesion m)
  con_sesion-Cerrada o m {ses} h =
      subst (λ s. Cerrada o m (con_sesion x n (avanzar x o) s m)) (sym h)
        (anotar_sesion-Cerrada o ses m (avanzar x o ses m.indice_trial m.mundo) h refl)

  abbrev pub TieneSesion : Marcha x n → Type 0
  TieneSesion m = (ses : SesionCorrida x) × (m.sesion ≡ some ses)

  abbrev Operacion : Type 0
  Operacion = SesionCorrida x → ℕ → Mundo x → Result ReanudacionError (SesionCorrida x) × Mundo x

  anotar_sesion-TieneSesion :
      (r : Result ReanudacionError (SesionCorrida x) × Mundo x) (m : Marcha x n)
      → TieneSesion m
      → TieneSesion (anotar_sesion x n r m).1
  anotar_sesion-TieneSesion (ok ses, w) m h = (ses, refl)
  anotar_sesion-TieneSesion (err e, w) m h = h

  pub con_sesion-TieneSesion :
      (op : Operacion) (o : Option (SesionCorrida x)) (m : Marcha x n)
      → TieneSesion m
      → TieneSesion (con_sesion x n op o m).1
  con_sesion-TieneSesion op none m h = h
  con_sesion-TieneSesion op (some ses) m h =
      anotar_sesion-TieneSesion (op ses m.indice_trial m.mundo) m h

  rechazar-TieneSesion : (m : Marcha x n) → TieneSesion m → TieneSesion (rechazar x n m).1
  rechazar-TieneSesion m h = elim (Bool-cases (ltb (n.n_trials * 20) m.intentos_invalidos)) [
    | inl b ↦ (h.0, rw b h.1)
    | inr b ↦ (h.0, rw b h.1)
  ]

  continue-TieneSesion :
      (r : Result EstudioError (Unit {0}) × Marcha x n)
      (f : Unit {0} → Marcha x n → Result EstudioError (Unit {0}) × Marcha x n)
      → TieneSesion r.1
      → ((u : Unit {0}) (m : Marcha x n) → TieneSesion m → TieneSesion (f u m).1)
      → TieneSesion (continue r f).1
  continue-TieneSesion (ok u, m) f h sigue = sigue u m h
  continue-TieneSesion (err e, m) f h sigue = h

  contar-TieneSesion :
      (r : Result EstudioError (Option (Option (Completo x n)))) (m : Marcha x n)
      → TieneSesion m
      → TieneSesion (contar x n r m).1
  unfolding guardar_avance
  contar-TieneSesion (err e) m h = h
  contar-TieneSesion (ok none) m h =
      continue-TieneSesion
        (guardar_avance x n (record m { intentos_invalidos = suc m.intentos_invalidos }))
        (λ _. rechazar x n)
        (con_sesion-TieneSesion (checkpoint x) m.sesion
          (record m { intentos_invalidos = suc m.intentos_invalidos }) h)
        (λ u s t. rechazar-TieneSesion s t)
  contar-TieneSesion (ok (some c)) m h =
      con_sesion-TieneSesion (checkpoint x) m.sesion
        (record m {
          intentos_invalidos = 0;
          mejor_completo = mejor_de x n (n.trial_id m.indice_trial) c m.mejor_completo;
          indice_trial = suc m.indice_trial;
        })
        h

  vuelta-TieneSesion : (m : Marcha x n) → TieneSesion m → TieneSesion (vuelta x n m).1
  unfolding vuelta
  vuelta-TieneSesion m h =
      contar-TieneSesion (intento x n m.indice_trial m.mundo.motor).0
        (record m {
          mundo = record m.mundo { motor = (intento x n m.indice_trial m.mundo.motor).1 };
        })
        h

  pub bucle-TieneSesion : (f : ℕ) (m : Marcha x n) → TieneSesion m → TieneSesion (bucle x n f m).1
  unfolding bucle
  bucle-TieneSesion zero m h = h
  bucle-TieneSesion (suc f) m h = elim (Bool-cases (ltb m.indice_trial n.n_trials)) [
    | inl b ↦ rw (bucle_sigue x n f m b) (
        continue-TieneSesion (vuelta x n m) (λ _. bucle x n f) (vuelta-TieneSesion m h)
          (λ u s t. bucle-TieneSesion f s t))
    | inr b ↦ rw (bucle_para x n f m b) h
  ]

  tras_vuelta_indice :
      (f : ℕ) (r : Result EstudioError (Unit {0}) × Marcha x n)
      → (continue r (λ _. bucle x n f)).0 ≡ ok tt
      → (r.0 ≡ ok tt → (bucle x n f r.1).0 ≡ ok tt → (bucle x n f r.1).1.indice_trial ≡ n.n_trials)
      → (continue r (λ _. bucle x n f)).1.indice_trial ≡ n.n_trials
  tras_vuelta_indice f (ok u, m) h sigue = sigue refl h
  tras_vuelta_indice f (err e, m) h sigue = cc h

  -- The loop returns only when every trial was run.
  pub bucle-indice :
      (f : ℕ) (m : Marcha x n)
      → m.indice_trial ≤ n.n_trials
      → (bucle x n f m).0 ≡ ok tt
      → (bucle x n f m).1.indice_trial ≡ n.n_trials
  unfolding bucle
  bucle-indice zero m h fin = cc fin
  bucle-indice (suc f) m h fin = elim (Bool-cases (ltb m.indice_trial n.n_trials)) [
    | inl b ↦ rw (bucle_sigue x n f m b) (
        tras_vuelta_indice f (vuelta x n m) (ap (λ r. r.0) (sym (bucle_sigue x n f m b)) ∙ fin)
          (λ da fin'. bucle-indice f (vuelta x n m).1 (dentro m b (vuelta-Avanza x n m da)) fin'))
    | inr b ↦ rw (bucle_para x n f m b) (ground arith)
  ]
    where
      dentro :
          (m : Marcha x n)
          → ltb m.indice_trial n.n_trials ≡ true
          → Avanza x n m (vuelta x n m).1
          → (vuelta x n m).1.indice_trial ≤ n.n_trials
      dentro m b (inl (i, v)) = let c = ltb→lt m.indice_trial n.n_trials b in omega arith
      dentro m b (inr (i, v, c)) = let d = ltb→lt m.indice_trial n.n_trials b in omega arith
