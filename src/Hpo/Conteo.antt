-- ===== src/Hpo/Conteo.antt =====
-- estudio.py: how the loop over the trials counts, and that it ends.
use pred_engine.Prelude.{
  ℕ, zero, suc, ◌+◌, ◌*◌, ◌≤◌, ◌<◌, ◌≡◌, refl, sym, subst, true, false, Option, none, some, inl,
  inr, ◌⊎◌, ltb, lt→ltb, arith,
}
use pred_engine.Prelude.Result.{Result, ok, err}
use pred_engine.Prelude.Exec.{continue}
use pred_engine.Reanudacion.Contratos.{ReanudacionError}
use pred_engine.Reanudacion.Controlador.{Externo, Mundo, SesionCorrida, checkpoint}
use pred_engine.Hpo.Estudio.{
  EstudioError, rechaza_casi_todo, espacio, trial, reanudacion, backend, sin_fin, Entorno, Completo,
  Marcha, intento, anotar_sesion, con_sesion, guardar_avance, rechazar, mejor_de, contar, vuelta,
  bucle,
}
use pred_engine.Hpo.Intentos.{termina, continue-termina, intento-termina}

module _ (x : Externo) (n : Entorno x) where
  -- The counters that an operation on the session keeps.
  abbrev Conserva : Marcha x n → Marcha x n → Type 0
  Conserva m m' =
      (m'.indice_trial ≡ m.indice_trial) × (m'.intentos_invalidos ≡ m.intentos_invalidos)

  anotar_sesion-Conserva :
      (r : Result ReanudacionError (SesionCorrida x) × Mundo x) (m : Marcha x n)
      → Conserva m (anotar_sesion x n r m).1
  anotar_sesion-Conserva (ok ses, w) m = (refl, refl)
  anotar_sesion-Conserva (err e, w) m = (refl, refl)

  con_sesion-Conserva :
      (op : SesionCorrida x → ℕ → Mundo x → Result ReanudacionError (SesionCorrida x) × Mundo x)
      (o : Option (SesionCorrida x)) (m : Marcha x n)
      → Conserva m (con_sesion x n op o m).1
  con_sesion-Conserva op none m = (refl, refl)
  con_sesion-Conserva op (some ses) m = anotar_sesion-Conserva (op ses m.indice_trial m.mundo) m

  anotar_sesion-termina :
      (r : Result ReanudacionError (SesionCorrida x) × Mundo x) (m : Marcha x n)
      → termina (anotar_sesion x n r m).0 ≡ true
  anotar_sesion-termina (ok ses, w) m = refl
  anotar_sesion-termina (err e, w) m = refl

  con_sesion-termina :
      (op : SesionCorrida x → ℕ → Mundo x → Result ReanudacionError (SesionCorrida x) × Mundo x)
      (o : Option (SesionCorrida x)) (m : Marcha x n)
      → termina (con_sesion x n op o m).0 ≡ true
  con_sesion-termina op none m = refl
  con_sesion-termina op (some ses) m = anotar_sesion-termina (op ses m.indice_trial m.mundo) m

  -- A turn that goes on has finished a trial, or rejected one more configuration of the few allowed.
  abbrev pub Avanza : Marcha x n → Marcha x n → Type 0
  Avanza m m' =
      ((m'.indice_trial ≡ suc m.indice_trial) × (m'.intentos_invalidos ≡ 0))
      ⊎ ((m'.indice_trial ≡ m.indice_trial)
          × (m'.intentos_invalidos ≡ suc m.intentos_invalidos)
          × (m'.intentos_invalidos ≤ n.n_trials * 20))

  rechazar-cota :
      (m : Marcha x n)
      → (rechazar x n m).0 ≡ ok tt
      → ((rechazar x n m).1 ≡ m) × (m.intentos_invalidos ≤ n.n_trials * 20)
  rechazar-cota m h = ground arith

  tras_rechazo :
      (m : Marcha x n) (r : Result EstudioError (Unit {0}) × Marcha x n)
      → Conserva (record m { intentos_invalidos = suc m.intentos_invalidos }) r.1
      → (continue r (λ _. rechazar x n)).0 ≡ ok tt
      → Avanza m (continue r (λ _. rechazar x n)).1
  tras_rechazo m (err e, s) c h = cc h
  tras_rechazo m (ok u, s) c h =
      let (es, cota) = rechazar-cota s h in subst (Avanza m) (sym es) (inr (c.0, c.1, cota))

  contar-Avanza :
      (r : Result EstudioError (Option (Option (Completo x n)))) (m : Marcha x n)
      → (contar x n r m).0 ≡ ok tt
      → Avanza m (contar x n r m).1
  unfolding guardar_avance
  contar-Avanza (err e) m h = cc h
  contar-Avanza (ok none) m h =
      tras_rechazo m
        (guardar_avance x n (record m { intentos_invalidos = suc m.intentos_invalidos }))
        (con_sesion-Conserva (checkpoint x) m.sesion
          (record m { intentos_invalidos = suc m.intentos_invalidos }))
        h
  contar-Avanza (ok (some c)) m h = inl (
      con_sesion-Conserva (checkpoint x) m.sesion (record m {
        intentos_invalidos = 0;
        mejor_completo = mejor_de x n (n.trial_id m.indice_trial) c m.mejor_completo;
        indice_trial = suc m.indice_trial;
      }))

  pub vuelta-Avanza : (m : Marcha x n) → (vuelta x n m).0 ≡ ok tt → Avanza m (vuelta x n m).1
  unfolding vuelta
  vuelta-Avanza m h =
      contar-Avanza (intento x n m.indice_trial m.mundo.motor).0
        (record m {
          mundo = record m.mundo { motor = (intento x n m.indice_trial m.mundo.motor).1 };
        })
        h

  rechazar-termina : (m : Marcha x n) → termina (rechazar x n m).0 ≡ true
  rechazar-termina m = ground arith

  contar-termina :
      (r : Result EstudioError (Option (Option (Completo x n)))) (m : Marcha x n)
      → termina r ≡ true
      → termina (contar x n r m).0 ≡ true
  unfolding guardar_avance
  contar-termina (err sin_fin) m h = cc h
  contar-termina (err (rechaza_casi_todo k)) m h = refl
  contar-termina (err (espacio e)) m h = refl
  contar-termina (err (trial e)) m h = refl
  contar-termina (err (reanudacion e)) m h = refl
  contar-termina (err (backend e)) m h = refl
  contar-termina (ok none) m h =
      continue-termina x n
        (guardar_avance x n (record m { intentos_invalidos = suc m.intentos_invalidos }))
        (λ _. rechazar x n)
        (con_sesion-termina (checkpoint x) m.sesion
          (record m { intentos_invalidos = suc m.intentos_invalidos }))
        (λ a s. rechazar-termina s)
  contar-termina (ok (some c)) m h = con_sesion-termina (checkpoint x) m.sesion (record m {
    intentos_invalidos = 0;
    mejor_completo = mejor_de x n (n.trial_id m.indice_trial) c m.mejor_completo;
    indice_trial = suc m.indice_trial;
  })

  vuelta-termina : (m : Marcha x n) → termina (vuelta x n m).0 ≡ true
  unfolding vuelta
  vuelta-termina m =
      contar-termina (intento x n m.indice_trial m.mundo.motor).0
        (record m {
          mundo = record m.mundo { motor = (intento x n m.indice_trial m.mundo.motor).1 };
        })
        (intento-termina x n m.indice_trial m.mundo.motor)

  tras_vuelta :
      (f : ℕ) (r : Result EstudioError (Unit {0}) × Marcha x n)
      → termina r.0 ≡ true
      → (r.0 ≡ ok tt → termina (bucle x n f r.1).0 ≡ true)
      → termina (continue r (λ _. bucle x n f)).0 ≡ true
  tras_vuelta f (ok u, m) h sigue = sigue refl
  tras_vuelta f (err sin_fin, m) h sigue = cc h
  tras_vuelta f (err (rechaza_casi_todo k), m) h sigue = refl
  tras_vuelta f (err (espacio e), m) h sigue = refl
  tras_vuelta f (err (trial e), m) h sigue = refl
  tras_vuelta f (err (reanudacion e), m) h sigue = refl
  tras_vuelta f (err (backend e), m) h sigue = refl

  pub bucle_para :
      (f : ℕ) (m : Marcha x n)
      → ltb m.indice_trial n.n_trials ≡ false
      → bucle x n (suc f) m ≡ (ok tt, m)
  unfolding bucle
  bucle_para f m b = rw (b, bucle) refl

  pub bucle_sigue :
      (f : ℕ) (m : Marcha x n)
      → ltb m.indice_trial n.n_trials ≡ true
      → bucle x n (suc f) m ≡ continue (vuelta x n m) (λ _. bucle x n f)
  unfolding bucle
  bucle_sigue f m b = rw (b, bucle) refl

  -- With `d` trials to go, each trial takes at most as many turns as may be rejected in a row, and
  -- two more.
  pub bucle-termina :
      (f d : ℕ) (m : Marcha x n)
      → n.n_trials ≡ m.indice_trial + d
      → m.intentos_invalidos ≤ n.n_trials * 20
      → d * (n.n_trials * 20 + 2) + n.n_trials * 20 < f + m.intentos_invalidos
      → termina (bucle x n f m).0 ≡ true
  unfolding bucle
  bucle-termina zero d m faltan cota fuel = absurd (omega arith)
  bucle-termina (suc f) zero m faltan cota fuel =
      let para : ltb m.indice_trial n.n_trials ≡ false = ground arith in
      rw (bucle_para f m para) refl
  bucle-termina (suc f) (suc d) m faltan cota fuel =
      rw (bucle_sigue f m (lt→ltb m.indice_trial n.n_trials (omega arith))) (
        tras_vuelta f (vuelta x n m) (vuelta-termina m) (λ e. elim (vuelta-Avanza m e) [
          | inl (i, v) ↦
              bucle-termina f d (vuelta x n m).1 (omega arith) (omega arith) (omega arith)
          | inr (i, v, c) ↦
              bucle-termina f (suc d) (vuelta x n m).1 (omega arith) (omega arith) (omega arith)
        ]))
