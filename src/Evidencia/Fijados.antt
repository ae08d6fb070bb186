-- ===== src/Evidencia/Fijados.antt =====
-- `guardar_evaluacion` writes only what an effect allows.
use pred_engine.Prelude.{String, ◌≡◌, refl, sym, subst, true, List, string_eq, nat_eq}
use pred_engine.Prelude.Sorted.{any, sorted, str_lt}
use pred_engine.Prelude.Result.{Result, ok, err, raise_if}
use pred_engine.Prelude.Exec.{continue}
use pred_engine.Veredictos.Contratos.{EvaluacionBloques}
use pred_engine.Evidencia.Contratos.{
  inconsistente, integridad, EstadoCorrida, en_curso, evaluada, seleccionada, publicada, rechazada,
  EvidenciaError, Base, Externo,
}
use pred_engine.Evidencia.Tablas.{cambiar_estado, con_run, corrida_de, insertar, de}
use pred_engine.Evidencia.Protocolo.{corte_de}
use pred_engine.Evidencia.Evaluacion.{
  ResultadoEvaluacion, Demanda, admite_evaluacion, mal_evaluado, filas_metricas, misma_metrica,
  misma_categoria, mismo_veredicto, misma_observacion, sin_referencia,
}
use pred_engine.Evidencia.Guardado.{
  otra_evaluacion, sin_pronosticos, no_cubre, hay_fechas_repetidas, observaciones_de,
  fuera_de_reserva, sin_observacion, insertar_observaciones, terminar_evaluacion,
  escribir_evaluacion, evaluar_en, guardar_evaluacion,
}
use pred_engine.Evidencia.Efectos.{
  Efecto, nada, seguido, evidencia, demanda, selecciona, Esta, Conserva, Esta-mismas, Escribe,
  exigir-Efecto, insertar-append, lift-P, o_integridad-P, o_inconsistente-P,
}

module _ (x : Externo) where
  open x use {fl}

  insertar_observaciones-Conserva :
      (r : String) (demandadas : Demanda x)
      → Conserva x r evaluada (insertar_observaciones x r demandadas)
  unfolding insertar_observaciones
  insertar_observaciones-Conserva r ds b h =
      let P : Base fl → Type 0 = λ b'. Efecto x b b' × (b'.corridas ≡ b.corridas) in
      let filas = observaciones_de x (sorted (λ d e. str_lt d.0 e.0) ds) in
      lift-P x P (raise_if (no_cubre x ds (de r b.skus)) inconsistente) _ b (nada, refl)
        (λ u q.
          o_inconsistente-P x P (corte_de r b.cortes) _ b (nada, refl)
            (λ t q.
              lift-P x P (raise_if (any (λ d. hay_fechas_repetidas x d.1) ds) inconsistente) _ b
                (nada, refl)
                (λ u q.
                  lift-P x P (raise_if (any (fuera_de_reserva x t) filas) inconsistente) _ b
                    (nada, refl)
                    (λ u q.
                      o_inconsistente-P x P
                        (insertar (misma_observacion x) b.observaciones (con_run r filas)) _ b
                        (nada, refl)
                        (λ os q.
                          lift-P x P
                            (raise_if (any (sin_observacion x r os) b.pronosticos) inconsistente) _
                            b (nada, refl)
                            (λ u q'.
                              subst (λ os'. P (record b { observaciones = os' }))
                                (sym (
                                  insertar-append (misma_observacion x) b.observaciones
                                    (con_run r filas) q))
                                (demanda r filas h, refl)))))))

  terminar-Efecto :
      (r : String) (ds : Demanda x) (b : Base fl)
      → Esta x r evaluada b
      → Efecto x b (terminar_evaluacion x r ds b).1
  unfolding terminar_evaluacion
  terminar-Efecto r ds b h =
      segun (insertar_observaciones x r ds b) (insertar_observaciones-Conserva r ds b h)
    where
      segun :
          (p : Result EvidenciaError (Unit {0}) × Base fl)
          → Efecto x b p.1 × (p.1.corridas ≡ b.corridas)
          → Efecto x b (continue p (λ u. cambiar_estado x r seleccionada)).1
      segun (ok u, b') (e, k) = seguido e (selecciona r (Esta-mismas x r evaluada b b' k h)) k
      segun (err e', b') (e, k) = e

  escribir_evaluacion-Efecto :
      (r : String) (es : List (EvaluacionBloques fl)) (res : ResultadoEvaluacion x) (ds : Demanda x)
      (b : Base fl)
      → Esta x r evaluada b
      → Efecto x b (escribir_evaluacion x r es res ds b).1
  unfolding escribir_evaluacion
  escribir_evaluacion-Efecto r es res ds b h =
      let P : Base fl → Type 0 = λ b'. Efecto x b b' in
      lift-P x P (raise_if (otra_evaluacion x (corrida_de r b.corridas) res) inconsistente) _ b nada
        (λ u q.
          lift-P x P (raise_if (any (sin_pronosticos x r b.unidades) es) inconsistente) _ b nada
            (λ u q.
              lift-P x P (raise_if (any (mal_evaluado x r b.unidades) es) inconsistente) _ b nada
                (λ u q. lift-P x P (filas_metricas x es) _ b nada (λ filas q.
                  o_integridad-P x P (insertar (misma_metrica x) b.metricas (con_run r filas)) _ b
                    nada
                    (λ ms em.
                      o_integridad-P x P
                        (insertar (misma_categoria x) b.categorias (con_run r res.categorias)) _ b
                        nada
                        (λ cs ec.
                          lift-P x P
                            (raise_if (any (sin_referencia x b.skus cs) (con_run r res.skus))
                              integridad)
                            _ b nada
                            (λ u q.
                              o_integridad-P x P
                                (insertar (mismo_veredicto x) b.veredictos (con_run r res.skus)) _ b
                                nada
                                (λ vs ev.
                                  let escrita : Efecto x b (record b {
                                    metricas = ms;
                                    categorias = cs;
                                    veredictos = vs;
                                  }) =
                                    rw
                                      (
                                        insertar-append (misma_metrica x) b.metricas
                                            (con_run r filas) em,
                                        insertar-append (misma_categoria x) b.categorias
                                            (con_run r res.categorias) ec,
                                        insertar-append (mismo_veredicto x) b.veredictos
                                            (con_run r res.skus) ev,
                                      )
                                      (evidencia r filas res.categorias res.skus h) in
                                  seguido escrita
                                    (terminar-Efecto r ds
                                      (record b { metricas = ms; categorias = cs; veredictos = vs })
                                      h)
                                    refl))))))))

  evaluar_en-Efecto :
      (r : String) (es : List (EvaluacionBloques fl)) (res : ResultadoEvaluacion x) (ds : Demanda x)
      (s : EstadoCorrida) (b : Base fl)
      → admite_evaluacion s ≡ true
      → Esta x r s b
      → Efecto x b (evaluar_en x r s es res ds b).1
  unfolding evaluar_en
  evaluar_en-Efecto r es res ds en_curso b a h = cc a
  evaluar_en-Efecto r es res ds evaluada b a h = escribir_evaluacion-Efecto r es res ds b h
  evaluar_en-Efecto r es res ds seleccionada b a h = nada
  evaluar_en-Efecto r es res ds publicada b a h = cc a
  evaluar_en-Efecto r es res ds rechazada b a h = cc a

  pub guardar_evaluacion-Escribe :
      (r : String) (es : List (EvaluacionBloques fl)) (res : ResultadoEvaluacion x) (ds : Demanda x)
      → Escribe x (guardar_evaluacion x r es res ds)
  unfolding guardar_evaluacion
  guardar_evaluacion-Escribe r es res ds =
      exigir-Efecto x r "guardar_evaluacion" admite_evaluacion (λ s. evaluar_en x r s es res ds)
        (evaluar_en-Efecto r es res ds)
