-- ===== src/Hpo/Estudio.antt =====
-- estudio.py: the loop of `ejecutar_estudio` over its trials, with the checkpoints of its session and
-- what closes it. `avisar` is what a list of calls on a trial and its study does to the backend. The
-- study is opened by the caller; its summary, the warm start and the log are left out.
use pred_engine.Prelude.{
  ℕ, zero, suc, ◌*◌, String, true, false, Option, none, some, List, [], ltb, if◌then◌else◌, length,
}
use pred_engine.Prelude.Result.{Result, ok, err}
use pred_engine.Prelude.Exec.{Exec, pure, lift, continue, ◌>>=◌}
use pred_engine.Reanudacion.Contratos.{ReanudacionError}
use pred_engine.Reanudacion.Controlador.{
  Externo, Mundo, SesionCorrida, checkpoint, interrumpir, completar, fallar,
}
use pred_engine.WalkForward.Ventanas.{VentanaTemporal}
use pred_engine.WalkForward.Numeros.{Numpy}
use pred_engine.WalkForward.Ejecucion.{Modelos, Ajustes}
use pred_engine.WalkForward.Recorridos.{ResultadoWalkForward, EjecutorGreedy, nuevo}
use pred_engine.Hpo.Asha.{ReglasPoda}
use pred_engine.Hpo.Trial.{Evento, Juicio, TrialError, correr_trial}
use pred_engine.Hpo.Espacio.{Plataforma, EspacioError, EspacioBusqueda, Configuracion}
use pred_engine.Hpo.Sugerencia.{TrialHpo, sugerir_configuracion}

pub data EstudioError : Type 0 where
  -- `EstudioError`, with the number of configurations that were rejected in a row
  rechaza_casi_todo : ℕ → EstudioError
  espacio : EspacioError → EstudioError
  trial : TrialError → EstudioError
  reanudacion : ReanudacionError → EstudioError
  backend : String → EstudioError
  -- the fuel of the model ran out
  sin_fin : EstudioError

abbrev pub max_intentos_invalidos_por_trial : ℕ
max_intentos_invalidos_por_trial = 20

-- The arguments of a study, and the backend: `study.ask()` with the attributes of a new trial,
-- `study.tell(trial, None, estado="fallido")`, and what a trial's calls do.
pub record Entorno (x : Externo) : Type 1 where
  pub plataforma : Plataforma
  pub trials : TrialHpo plataforma
  pub np : Numpy
  pub modelos : Modelos np
  pub espacio_busqueda : EspacioBusqueda plataforma
  pub como_dict : Configuracion plataforma → modelos.Configuracion
  pub serie : List np.F
  pub ventanas : List VentanaTemporal
  pub reglas : ReglasPoda
  pub n_trials : ℕ
  -- the settings of the walk with the name of the trial, and `trial_id`
  pub ajustes : String → Ajustes np
  pub trial_id : ℕ → String
  pub ask : String → Exec x.Motor String trials.Trial
  pub tell_fallido : trials.Trial → Exec x.Motor String (Unit {0})
  pub juicio : trials.Trial → x.Motor → Juicio np.F
  pub avisar : trials.Trial → List (Evento np.F) → Exec x.Motor String (Unit {0})

module _ (x : Externo) (n : Entorno x) where
  abbrev pub Completo : Type 0
  Completo = ResultadoWalkForward n.np

  abbrev pub del_backend : {A : Type 0} → Result String A → Result EstudioError A
  del_backend (ok a) = ok a
  del_backend (err e) = err (backend e)

  abbrev pub en_backend : {A : Type 0} → Exec x.Motor String A → Exec x.Motor EstudioError A
  en_backend op m = let r = op m in (del_backend r.0, r.1)

  abbrev pub del_espacio : {A : Type 0} → Result EspacioError A → Result EstudioError A
  del_espacio (ok a) = ok a
  del_espacio (err e) = err (espacio e)

  abbrev pub del_trial : {A : Type 0} → Result TrialError A → Result EstudioError A
  del_trial (ok a) = ok a
  del_trial (err e) = err (trial e)

  -- What a trial has said to the backend, and then its return or exception.
  unfoldable pub comunicar :
      n.trials.Trial
      → Result TrialError (Option Completo) × EjecutorGreedy n.np × List (Evento n.np.F)
      → Exec x.Motor EstudioError (Option Completo)
  comunicar t r = en_backend (n.avisar t r.2) >>= λ _. lift (del_trial r.0)

  -- The walk-forward of one configuration: its calls reach the backend, and then it returns or raises.
  unfoldable pub correr_configuracion :
      ℕ → Configuracion n.plataforma → n.trials.Trial → Exec x.Motor EstudioError (Option Completo)
  correr_configuracion indice cfg t m =
      let a = n.ajustes (n.trial_id indice) in
      let c = n.como_dict cfg in
      let e = nuevo n.np n.modelos a n.serie c n.ventanas in
      comunicar t
        (correr_trial n.np n.modelos a n.serie c (n.juicio t m) n.reglas (suc (length n.ventanas)) e
          [])
        m

  abbrev pub con_configuracion :
      ℕ
      → Option (Configuracion n.plataforma)
      → n.trials.Trial
      → Exec x.Motor EstudioError (Option (Option Completo))
  con_configuracion indice none t = en_backend (n.tell_fallido t) >>= λ _. pure none
  con_configuracion indice (some cfg) t =
      correr_configuracion indice cfg t >>= λ completo. pure (some completo)

  -- One turn up to what it counts: none when the configuration is rejected.
  unfoldable pub intento : ℕ → Exec x.Motor EstudioError (Option (Option Completo))
  unfolding correr_configuracion
  intento indice = en_backend (n.ask (n.trial_id indice)) >>= λ t.
      lift (del_espacio (sugerir_configuracion n.plataforma n.trials n.espacio_busqueda t)) >>= λ s.
      con_configuracion indice s.0 s.1

  -- The variables of the loop, and the world.
  pub record Marcha : Type 0 where
    pub mundo : Mundo x
    pub sesion : Option (SesionCorrida x)
    pub indice_trial : ℕ
    pub intentos_invalidos : ℕ
    pub mejor_completo : Option (String × Completo)

  abbrev pub Paso : Type 0 → Type 0
  Paso A = Exec Marcha EstudioError A

  abbrev pub anotar_sesion :
      Result ReanudacionError (SesionCorrida x) × Mundo x
      → Marcha
      → Result EstudioError (Unit {0}) × Marcha
  anotar_sesion (ok ses, w) m = (ok tt, record m { mundo = w; sesion = some ses })
  anotar_sesion (err e, w) m = (err (reanudacion e), record m { mundo = w })

  abbrev pub con_sesion :
      (SesionCorrida x → ℕ → Mundo x → Result ReanudacionError (SesionCorrida x) × Mundo x)
      → Option (SesionCorrida x)
      → Paso (Unit {0})
  con_sesion operacion none m = (ok tt, m)
  con_sesion operacion (some ses) m = anotar_sesion (operacion ses m.indice_trial m.mundo) m

  unfoldable pub guardar_avance : Paso (Unit {0})
  guardar_avance m = con_sesion (checkpoint x) m.sesion m

  abbrev pub rechazar : Paso (Unit {0})
  rechazar m =
      if ltb (n.n_trials * max_intentos_invalidos_por_trial) m.intentos_invalidos
      then (err (rechaza_casi_todo m.intentos_invalidos), m)
      else (ok tt, m)

  -- The first of the least ones.
  abbrev pub mejor_de :
      String → Option Completo → Option (String × Completo) → Option (String × Completo)
  mejor_de t none mejor = mejor
  mejor_de t (some c) none = some (t, c)
  mejor_de t (some c) (some m) =
      if n.np.lt c.valor_agregado m.1.valor_agregado then some (t, c) else some m

  abbrev pub contar : Result EstudioError (Option (Option Completo)) → Paso (Unit {0})
  contar (err e) m = (err e, m)
  contar (ok none) m =
      (guardar_avance >>= λ _. rechazar)
        (record m { intentos_invalidos = suc m.intentos_invalidos })
  contar (ok (some c)) m = guardar_avance (record m {
    intentos_invalidos = 0;
    mejor_completo = mejor_de (n.trial_id m.indice_trial) c m.mejor_completo;
    indice_trial = suc m.indice_trial;
  })

  -- The body of the `while`.
  unfoldable pub vuelta : Paso (Unit {0})
  unfolding guardar_avance
  vuelta m =
      let r = intento m.indice_trial m.mundo.motor in
      contar r.0 (record m { mundo = record m.mundo { motor = r.1 } })

  unfoldable pub bucle : ℕ → Paso (Unit {0})
  unfolding vuelta
  bucle zero m = (err sin_fin, m)
  bucle (suc f) m = elim (ltb m.indice_trial n.n_trials) [
    | true ↦ continue (vuelta m) (λ _. bucle f)
    | false ↦ (ok tt, m)
  ]

  unfoldable pub completar_sesion : Paso (Unit {0})
  completar_sesion m = con_sesion (completar x) m.sesion m

  -- `except EstudioError`: `fallar`, whose own exception takes its place.
  abbrev pub tras_fallar :
      EstudioError
      → Result EstudioError (Unit {0}) × Marcha
      → Result EstudioError (Unit {0}) × Marcha
  tras_fallar e (ok u, m) = (err e, m)
  tras_fallar e (err d, m) = (err d, m)

  -- `except (Exception, KeyboardInterrupt)`: `interrumpir`, whose own exception is logged.
  abbrev pub tras_interrumpir :
      EstudioError
      → Result EstudioError (Unit {0}) × Marcha
      → Result EstudioError (Unit {0}) × Marcha
  tras_interrumpir e (r, m) = (err e, m)

  unfoldable pub cerrar_estudio :
      Result EstudioError (Unit {0}) × Marcha → Result EstudioError (Unit {0}) × Marcha
  cerrar_estudio (ok u, m) = (ok u, m)
  cerrar_estudio (err (rechaza_casi_todo k), m) =
      tras_fallar (rechaza_casi_todo k) (con_sesion (fallar x) m.sesion m)
  cerrar_estudio (err e, m) = tras_interrumpir e (con_sesion (interrumpir x) m.sesion m)

  unfoldable pub ejecutar_estudio : ℕ → Paso (Unit {0})
  unfolding bucle completar_sesion cerrar_estudio
  ejecutar_estudio fuel m = cerrar_estudio ((bucle fuel >>= λ _. completar_sesion) m)
