-- ===== src/Reanudacion/Apertura.antt =====
-- controlador.py: what `abrir` returns, and what it finds on disk after another operation.
use text.Mathlib.TextEquality.{eq_iff}
use pred_engine.Prelude.{String, ◌≡◌, refl, true, Option, some, arith}
use pred_engine.Prelude.Result.{ok}
use pred_engine.Reanudacion.Contratos.{
  EstadoCorrida, nueva, en_progreso, interrumpida, completada, fallida, SolicitudCorrida,
  ManifiestoCorrida, schema_version,
}
use pred_engine.Reanudacion.Transiciones.{transicionar}
use pred_engine.Reanudacion.Huella.{Coincide}
use pred_engine.Reanudacion.Compatibilidad.{verificar_compatibilidad_iff}
use pred_engine.Reanudacion.Almacen.{existe, guardar, cargar, escribir_atomico}
use pred_engine.Reanudacion.Controlador.{
  Externo, Mundo, SesionCorrida, manifiesto_nuevo, crear_corrida, retomar, reabrir_en, reabrir,
  abrir,
}
use pred_engine.Reanudacion.Avance.{EsCoherente}

module _ (x : Externo) (s : SolicitudCorrida x.Flotante x.Espacio) where
  -- The manifest belongs to the request.
  pub record EsDe (m : ManifiestoCorrida) : Type 0 where
    pub run_id : m.run_id ≡ s.run_id
    pub version : m.version_esquema ≡ schema_version
    pub coincide : Coincide x.sha256_json s m

  -- What the code relies on in `model_dump_json`, `json.loads` and `model_validate`: a printed
  -- manifest is read back.
  pub record LeyesCodec : Type 0 where
    pub json_de : ManifiestoCorrida → x.codec.Json
    pub loads-dump :
        (m : ManifiestoCorrida) → EsDe m → x.codec.loads (x.codec.dump m) ≡ some (json_de m)
    pub es_objeto_lem : (m : ManifiestoCorrida) → EsDe m → x.codec.es_objeto (json_de m) ≡ true
    pub version_lem :
        (m : ManifiestoCorrida) → EsDe m → x.codec.version (json_de m) ≡ some m.version_esquema
    pub model_validate_lem :
        (m : ManifiestoCorrida) → EsDe m → x.codec.model_validate (json_de m) ≡ some m

  pub manifiesto_nuevo-Coincide :
      (estado : EstadoCorrida) (ref : Option String)
      → Coincide x.sha256_json s
          (record (manifiesto_nuevo x s) { estado = estado; backend_checkpoint = ref })
  manifiesto_nuevo-Coincide estado ref = record {
    familia = refl;
    sku_id = refl;
    seed = refl;
    metrica_objetivo = refl;
    validacion = refl;
    n_trials_objetivo = refl;
    huella = refl;
  }

  -- The state in which a run comes back.
  abbrev pub estado_reabierto : EstadoCorrida → EstadoCorrida
  estado_reabierto completada = completada
  estado_reabierto _ = en_progreso

  module _ (w w' : Mundo x) (ses : SesionCorrida x) where
    pub crear_corrida_lem :
        crear_corrida x s w ≡ (ok ses, w')
        → (ses.manifiesto ≡ record (manifiesto_nuevo x s) {
          estado = en_progreso;
          backend_checkpoint = ses.manifiesto.backend_checkpoint;
        })
          × EsCoherente x w' ses.manifiesto
    unfolding crear_corrida guardar escribir_atomico transicionar
    crear_corrida_lem h = ground (arith, eq_iff s.run_id s.run_id)

    pub reabrir_en_lem :
        (e : EstadoCorrida) (m : ManifiestoCorrida)
        → m.estado ≡ e
        → reabrir_en x e m w ≡ (ok ses, w')
        → (ses.manifiesto ≡ record m { estado = estado_reabierto e })
          × (EsCoherente x w m → EsCoherente x w' ses.manifiesto)
    unfolding reabrir_en retomar guardar escribir_atomico transicionar
    reabrir_en_lem nueva m p h = ground (arith, eq_iff m.run_id m.run_id)
    reabrir_en_lem en_progreso m p h = ground (arith, eq_iff m.run_id m.run_id)
    reabrir_en_lem interrumpida m p h = ground (arith, eq_iff m.run_id m.run_id)
    reabrir_en_lem completada m p h = ground (arith, eq_iff m.run_id m.run_id)
    reabrir_en_lem fallida m p h = ground arith

  module _ (leyes : LeyesCodec) (w : Mundo x) (m : ManifiestoCorrida) (de : EsDe m)
      (coherente : EsCoherente x w m) where
    cargar-EsCoherente : cargar x.codec s.run_id w.disco ≡ (ok m, w.disco)
    unfolding cargar
    cargar-EsCoherente = ground (
      arith,
      leyes.loads-dump m de,
      leyes.es_objeto_lem m de,
      leyes.version_lem m de,
      leyes.model_validate_lem m de,
    )

    existe-EsCoherente : existe x.codec s.run_id w.disco ≡ true
    unfolding existe
    existe-EsCoherente = ground arith

    -- With a codec that reads back what it prints, when the disk holds a manifest that matches the
    -- request, opening the run goes on with that manifest, by its state.
    pub abrir-EsCoherente : abrir x s w ≡ reabrir_en x m.estado m w
    unfolding abrir reabrir
    abrir-EsCoherente = ground (
      arith,
      existe-EsCoherente,
      cargar-EsCoherente,
      (verificar_compatibilidad_iff x.sha256_json s m).1 de.coincide,
    )
