-- ===== src/Evidencia/Guardado.antt =====
-- persistencia_evidencia/repositorio.py: `guardar_evaluacion` and `_insertar_observaciones`.
use pred_engine.Prelude.{
  String, Bool, true, false, not, ℕ, Option, none, some, List, [], ◌∷◌, ◌++◌, map, ◌==◌, ◌&&◌, ◌||◌,
  string_eq, nat_eq, ltb, leb, if◌then◌else◌, length,
}
use pred_engine.Prelude.Sorted.{any, sorted, str_lt}
use pred_engine.Prelude.Result.{ok, err, raise_if}
use pred_engine.Prelude.Exec.{lift, ◌>>=◌, ◌>>◌}
use pred_engine.Veredictos.Contratos.{MetricasCandidato, EvaluacionBloques}
use pred_engine.Evidencia.Contratos.{
  EstadoCorrida, seleccionada, inconsistente, integridad, Corrida, De, Externo, Unidad, Pronostico,
  Observacion,
}
use pred_engine.Evidencia.Tablas.{
  insertar, de, con_run, corrida_de, Accion, transaccion, exigir_estado, cambiar_estado,
  o_integridad,
}
use pred_engine.Evidencia.Protocolo.{corte_de}
use pred_engine.Evidencia.Evaluacion.{
  ResultadoEvaluacion, Demanda, admite_evaluacion, mismo_origen, modelos, mal_evaluado,
  filas_metricas, misma_metrica, misma_categoria, mismo_veredicto, misma_observacion,
  sin_referencia, de_modelo,
}

module _ (x : Externo) where
  open x use {fl}

  -- The JSON of the identity and the columns of the run, against the result.
  abbrev pub otra_evaluacion : Option Corrida → ResultadoEvaluacion x → Bool
  otra_evaluacion none res = false
  otra_evaluacion (some c) res =
      let (politica, metricas) = x.versiones_de c.identidad in
      not ((res.version_politica == politica) && (res.version_metricas == metricas))
      || not (mismo_origen res.datos_sinteticos c)

  abbrev pub sin_pronosticos : String → List Unidad → EvaluacionBloques fl → Bool
  sin_pronosticos r us e =
      any
        (λ (c : MetricasCandidato fl).
          not (c.n_ventanas_totales == 0)
          && leb (length (de_modelo x r e.reserva.sku c.candidato_id us)) 0)
        (modelos x e.reserva)

  -- `set(observaciones) != skus`
  abbrev pub no_cubre : Demanda x → List (De String) → Bool
  no_cubre demanda skus =
      any (λ s. not (any (λ d. d.0 == s.1) demanda)) skus
      || any (λ d. not (any (λ s. s.1 == d.0) skus)) demanda

  abbrev pub hay_fechas_repetidas : List (ℕ × fl.F) → Bool
  hay_fechas_repetidas [] = false
  hay_fechas_repetidas ((f, v) ∷ fs) =
      let resto = hay_fechas_repetidas fs in if any (λ g. g.0 == f) fs then true else resto

  abbrev pub observacion : String → ℕ × fl.F → Observacion fl.F
  observacion sku (fecha, v) = record {
    sku = sku;
    fecha = fecha;
    valor = if x.finito v then some v else none;
  }

  abbrev pub observaciones_de : Demanda x → List (Observacion fl.F)
  observaciones_de [] = []
  observaciones_de ((sku, serie) ∷ ds) = map (observacion sku) serie ++ observaciones_de ds

  -- The trigger on the dates, of which the exception is caught here.
  abbrev pub fuera_de_reserva : ℕ → Observacion fl.F → Bool
  fuera_de_reserva t_star o = not (ltb t_star o.fecha)

  abbrev pub o_inconsistente : {A : Type 0} → Option A → Accion x A
  o_inconsistente none b = (err inconsistente, b)
  o_inconsistente (some a) b = (ok a, b)

  abbrev pub sin_observacion : String → List (De (Observacion fl.F)) → Pronostico fl.F → Bool
  sin_observacion r obs p =
      (p.run_id == r)
      && not (any (λ o. (o.0 == r) && (o.1.sku == p.sku) && (o.1.fecha == p.fecha)) obs)

  unfoldable pub insertar_observaciones : String → Demanda x → Accion x (Unit {0})
  insertar_observaciones r demanda b =
      (do
        lift (raise_if (no_cubre demanda (de r b.skus)) inconsistente)
        t_star ← o_inconsistente (corte_de r b.cortes)
        lift (raise_if (any (λ d. hay_fechas_repetidas d.1) demanda) inconsistente)
        let filas = observaciones_de (sorted (λ d e. str_lt d.0 e.0) demanda)
        lift (raise_if (any (fuera_de_reserva t_star) filas) inconsistente)
        observaciones ←
            o_inconsistente (insertar (misma_observacion x) b.observaciones (con_run r filas))
        lift (raise_if (any (sin_observacion r observaciones) b.pronosticos) inconsistente)
        (λ b'. (ok tt, record b' { observaciones = observaciones })))
        b

  -- The last two writes of `guardar_evaluacion`.
  unfoldable pub terminar_evaluacion : String → Demanda x → Accion x (Unit {0})
  terminar_evaluacion r demanda = do
    insertar_observaciones r demanda
    cambiar_estado x r seleccionada

  unfoldable pub escribir_evaluacion :
      String → List (EvaluacionBloques fl) → ResultadoEvaluacion x → Demanda x → Accion x (Unit {0})
  escribir_evaluacion r evaluaciones res demanda b =
      (do
        lift (raise_if (otra_evaluacion (corrida_de r b.corridas) res) inconsistente)
        lift (raise_if (any (sin_pronosticos r b.unidades) evaluaciones) inconsistente)
        lift (raise_if (any (mal_evaluado x r b.unidades) evaluaciones) inconsistente)
        filas ← lift (filas_metricas x evaluaciones)
        metricas ← o_integridad x (insertar (misma_metrica x) b.metricas (con_run r filas))
        categorias ←
            o_integridad x (insertar (misma_categoria x) b.categorias (con_run r res.categorias))
        let nuevos = con_run r res.skus
        lift (raise_if (any (sin_referencia x b.skus categorias) nuevos) integridad)
        veredictos ← o_integridad x (insertar (mismo_veredicto x) b.veredictos nuevos)
        (λ b'. (
          ok tt,
          record b' { metricas = metricas; categorias = categorias; veredictos = veredictos },
        ))
        terminar_evaluacion r demanda)
        b

  unfoldable pub evaluar_en :
      String
      → EstadoCorrida
      → List (EvaluacionBloques fl)
      → ResultadoEvaluacion x
      → Demanda x
      → Accion x (Unit {0})
  evaluar_en r seleccionada evaluaciones res demanda b = (ok tt, b)
  evaluar_en r _ evaluaciones res demanda b = escribir_evaluacion r evaluaciones res demanda b

  unfoldable pub guardar_evaluacion :
      String → List (EvaluacionBloques fl) → ResultadoEvaluacion x → Demanda x → Accion x (Unit {0})
  guardar_evaluacion r evaluaciones res demanda = transaccion x (do
    estado ← exigir_estado x r admite_evaluacion "guardar_evaluacion"
    evaluar_en r estado evaluaciones res demanda)
