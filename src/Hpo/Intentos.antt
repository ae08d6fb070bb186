-- ===== src/Hpo/Intentos.antt =====
-- estudio.py: one turn of the study never runs out of the fuel that the model gives the loop.
use pred_engine.Prelude.{ℕ, String, ◌≡◌, refl, Bool, true, false, Option, none, some, List}
use pred_engine.Prelude.Result.{Result, ok, err}
use pred_engine.Prelude.Exec.{Exec, pure, lift, continue, ◌>>=◌}
use pred_engine.Reanudacion.Controlador.{Externo}
use pred_engine.Hpo.Trial.{TrialError, Evento}
use pred_engine.WalkForward.Recorridos.{EjecutorGreedy}
use pred_engine.Hpo.Espacio.{EspacioError, Configuracion}
use pred_engine.Hpo.Sugerencia.{sugerir_configuracion}
use pred_engine.Hpo.Estudio.{
  EstudioError, rechaza_casi_todo, espacio, trial, reanudacion, backend, sin_fin, Entorno, Completo,
  del_backend, en_backend, del_espacio, del_trial, comunicar, correr_configuracion,
  con_configuracion, intento,
}

abbrev pub termina : {A : Type 0} → Result EstudioError A → Bool
termina (ok a) = true
termina (err sin_fin) = false
termina (err _) = true

module _ (x : Externo) (n : Entorno x) where
  pub continue-termina :
      {S A B : Type 0} (r : Result EstudioError A × S) (f : A → Exec S EstudioError B)
      → termina r.0 ≡ true
      → ((a : A) (s : S) → termina (f a s).0 ≡ true)
      → termina (continue r f).0 ≡ true
  continue-termina (ok a, s) f h sigue = sigue a s
  continue-termina (err sin_fin, s) f h sigue = cc h
  continue-termina (err (rechaza_casi_todo k), s) f h sigue = refl
  continue-termina (err (espacio e), s) f h sigue = refl
  continue-termina (err (trial e), s) f h sigue = refl
  continue-termina (err (reanudacion e), s) f h sigue = refl
  continue-termina (err (backend e), s) f h sigue = refl

  del_backend-termina : {A : Type 0} (r : Result String A) → termina (del_backend x n r) ≡ true
  del_backend-termina (ok a) = refl
  del_backend-termina (err e) = refl

  del_espacio-termina :
      {A : Type 0} (r : Result EspacioError A) → termina (del_espacio x n r) ≡ true
  del_espacio-termina (ok a) = refl
  del_espacio-termina (err e) = refl

  del_trial-termina : {A : Type 0} (r : Result TrialError A) → termina (del_trial x n r) ≡ true
  del_trial-termina (ok a) = refl
  del_trial-termina (err e) = refl

  comunicar-termina :
      (t : n.trials.Trial)
      (r : Result TrialError (Option (Completo x n)) × EjecutorGreedy n.np × List (Evento n.np.F))
      (m : x.Motor)
      → termina (comunicar x n t r m).0 ≡ true
  unfolding comunicar
  comunicar-termina t r m =
      continue-termina (en_backend x n (n.avisar t r.2) m) (λ _. lift (del_trial x n r.0))
        (del_backend-termina (n.avisar t r.2 m).0) (λ a s. del_trial-termina r.0)

  con_configuracion-termina :
      (i : ℕ) (o : Option (Configuracion n.plataforma)) (t : n.trials.Trial) (m : x.Motor)
      → termina (con_configuracion x n i o t m).0 ≡ true
  unfolding correr_configuracion
  con_configuracion-termina i none t m =
      continue-termina (en_backend x n (n.tell_fallido t) m) (λ _. pure none)
        (del_backend-termina (n.tell_fallido t m).0) (λ a s. refl)
  con_configuracion-termina i (some cfg) t m =
      continue-termina (correr_configuracion x n i cfg t m) (λ completo. pure (some completo))
        (comunicar-termina t _ m) (λ a s. refl)

  pub intento-termina : (i : ℕ) (m : x.Motor) → termina (intento x n i m).0 ≡ true
  unfolding intento
  intento-termina i m =
      continue-termina (en_backend x n (n.ask (n.trial_id i)) m)
        (λ t.
          lift (del_espacio x n (sugerir_configuracion n.plataforma n.trials n.espacio_busqueda t))
          >>= λ s. con_configuracion x n i s.0 s.1)
        (del_backend-termina (n.ask (n.trial_id i) m).0)
        (λ t s.
          continue-termina
            (del_espacio x n (sugerir_configuracion n.plataforma n.trials n.espacio_busqueda t), s)
            (λ u. con_configuracion x n i u.0 u.1)
            (del_espacio-termina (sugerir_configuracion n.plataforma n.trials n.espacio_busqueda t))
            (λ u s. con_configuracion-termina i u.0 u.1 s))
