-- ===== src/Reanudacion/Controlador.antt =====
-- controlador.py: opening, advancing and closing a run. `SesionCorrida` is a mutable object: an
-- operation returns it anew, and one that raises leaves the caller's as it was.
use pred_engine.Prelude.{ℕ, String, Option, none, some, if◌then◌else◌}
use pred_engine.Prelude.Exec.{Exec, pure, raise, lift, ◌>>=◌, ◌>>◌}
use pred_engine.Reanudacion.Contratos.{
  EstadoCorrida, nueva, en_progreso, interrumpida, completada, fallida, SolicitudCorrida,
  ManifiestoCorrida, ReanudacionError, corrida_fallida, schema_version,
}
use pred_engine.Reanudacion.Transiciones.{transicionar}
use pred_engine.Reanudacion.Huella.{Payload, calcular_huella, verificar_compatibilidad}
use pred_engine.Reanudacion.Almacen.{Disco, Codec, Op, existe, guardar, cargar}

-- What is not of the repository: floats, search spaces, JSON, SHA-256, and the HPO backend behind
-- `PuertoPersistenciaMotor`, with a state of its own.
pub record Externo : Type 1 where
  pub Flotante : Type 0
  pub Espacio : Type 0
  pub Handle : Type 0
  pub Motor : Type 0
  pub codec : Codec
  pub sha256_json : Payload Flotante Espacio → String
  pub crear : Exec Motor ReanudacionError Handle
  pub persistir : Handle → Exec Motor ReanudacionError String
  pub restaurar : String → Exec Motor ReanudacionError Handle

module _ (x : Externo) where
  pub record Mundo : Type 0 where
    pub disco : Disco
    pub motor : x.Motor

  pub record SesionCorrida : Type 0 where
    pub manifiesto : ManifiestoCorrida
    pub handle : x.Handle

  abbrev pub Accion : Type 0 → Type 0
  Accion A = Exec Mundo ReanudacionError A

  abbrev pub en_disco : {A : Type 0} → Op A → Accion A
  en_disco op w = let r = op w.disco in (r.0, record w { disco = r.1 })

  abbrev pub en_motor : {A : Type 0} → Exec x.Motor ReanudacionError A → Accion A
  en_motor op w = let r = op w.motor in (r.0, record w { motor = r.1 })

  abbrev pub referencia : Option String → String
  referencia none = ""
  referencia (some r) = r

  abbrev restaurar_de : ManifiestoCorrida → Accion x.Handle
  restaurar_de m = en_motor (x.restaurar (referencia m.backend_checkpoint))

  abbrev sesion : ManifiestoCorrida → x.Handle → SesionCorrida
  sesion m h = record { manifiesto = m; handle = h }

  abbrev pub manifiesto_nuevo : SolicitudCorrida x.Flotante x.Espacio → ManifiestoCorrida
  manifiesto_nuevo s = record {
    version_esquema = schema_version;
    run_id = s.run_id;
    estado = nueva;
    familia = s.familia;
    sku_id = s.sku_id;
    seed = s.seed;
    metrica_objetivo = s.metrica_objetivo;
    configuracion_validacion = s.validacion;
    fingerprint_configuracion = calcular_huella x.sha256_json s;
    backend = s.backend;
    backend_checkpoint = none;
    n_trials_objetivo = s.optimizador.n_trials_objetivo;
    n_trials_finalizados = 0;
  }

  unfoldable pub crear_corrida : SolicitudCorrida x.Flotante x.Espacio → Accion SesionCorrida
  crear_corrida s = do
    let m = manifiesto_nuevo s
    en_disco (guardar x.codec m)
    handle ← en_motor x.crear
    ref ← en_motor (x.persistir handle)
    estado ← lift (transicionar m.estado en_progreso)
    let en_curso = record m { estado = estado; backend_checkpoint = some ref }
    en_disco (guardar x.codec en_curso)
    pure (sesion en_curso handle)

  unfoldable pub retomar : ManifiestoCorrida → EstadoCorrida → Accion SesionCorrida
  retomar previo nuevo = do
    handle ← restaurar_de previo
    let actualizado = record previo { estado = nuevo }
    en_disco (guardar x.codec actualizado)
    pure (sesion actualizado handle)

  -- The branches of `abrir` on the state of the manifest that was read.
  unfoldable pub reabrir_en : EstadoCorrida → ManifiestoCorrida → Accion SesionCorrida
  reabrir_en fallida previo = raise corrida_fallida
  reabrir_en completada previo = do handle ← restaurar_de previo; pure (sesion previo handle)
  reabrir_en interrumpida previo = do
    nuevo ← lift (transicionar previo.estado en_progreso)
    retomar previo nuevo
  reabrir_en en_progreso previo = retomar previo en_progreso
  reabrir_en nueva previo = do
    nuevo ← lift (transicionar previo.estado en_progreso)
    retomar previo nuevo

  unfoldable pub reabrir : SolicitudCorrida x.Flotante x.Espacio → Accion SesionCorrida
  reabrir s = do
    previo ← en_disco (cargar x.codec s.run_id)
    lift (verificar_compatibilidad x.sha256_json s previo)
    reabrir_en previo.estado previo

  unfoldable pub abrir : SolicitudCorrida x.Flotante x.Espacio → Accion SesionCorrida
  abrir s w = if existe x.codec s.run_id w.disco then reabrir s w else crear_corrida s w

  -- The common body of `checkpoint`, `interrumpir`, `completar` and `fallar`.
  unfoldable pub avanzar : EstadoCorrida → SesionCorrida → ℕ → Accion SesionCorrida
  avanzar objetivo ses n = do
    ref ← en_motor (x.persistir ses.handle)
    estado ← lift (transicionar ses.manifiesto.estado objetivo)
    let actualizado = record ses.manifiesto {
      estado = estado;
      backend_checkpoint = some ref;
      n_trials_finalizados = n;
    }
    en_disco (guardar x.codec actualizado)
    pure (sesion actualizado ses.handle)

  unfoldable pub checkpoint : SesionCorrida → ℕ → Accion SesionCorrida
  checkpoint = avanzar en_progreso

  unfoldable pub interrumpir : SesionCorrida → ℕ → Accion SesionCorrida
  interrumpir = avanzar interrumpida

  unfoldable pub completar : SesionCorrida → ℕ → Accion SesionCorrida
  completar = avanzar completada

  unfoldable pub fallar : SesionCorrida → ℕ → Accion SesionCorrida
  fallar = avanzar fallida
