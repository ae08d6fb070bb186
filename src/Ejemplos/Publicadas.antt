-- ===== src/Ejemplos/Publicadas.antt =====
-- The calls for a run of M3 up to its publication, and calls after that.
use mathlib.Core.List.{Memᴰ}
use pred_engine.Prelude.{◌≡◌, refl, true, none, some, [], string_eq, nat_eq}
use pred_engine.Prelude.Sorted.{filter, sorted, insertar, str_lt}
use pred_engine.Prelude.Result.{ok}
use pred_engine.Veredictos.Veredicto.{VeredictoSku}
use pred_engine.Evidencia.Contratos.{publicada, Base, De}
use pred_engine.Evidencia.Tablas.{estado_en}
use pred_engine.Evidencia.Registro.{registrar_corrida, dar_de_alta, ya_registrada}
use pred_engine.Evidencia.Unidades.{guardar_unidades, insertar_unidades, insertar_unidad, confirmar}
use pred_engine.Evidencia.Protocolo.{
  fijar_protocolo, fijar_corte, escribir_corte, protocolo_guardado,
}
use pred_engine.Evidencia.Marca.{marcar_en, marcar_evaluada}
use pred_engine.Evidencia.Guardado.{
  insertar_observaciones, terminar_evaluacion, escribir_evaluacion, evaluar_en, guardar_evaluacion,
}
use pred_engine.Evidencia.Publicacion.{exportar_corrida, publicar_en, publicar}
use pred_engine.Evidencia.Ordenes.{vacia, ejecutar, correr}
use pred_engine.Evidencia.Avances.{Avanza, historia, historia-Avanza}
use pred_engine.Evidencia.Congelada.{vista, correr-vista}
use pred_engine.Evidencia.Intactas.{Prefijo, correr-Prefijo}
use pred_engine.Evidencia.Completas.{correr-Completo}
use pred_engine.Evidencia.Derivada.{Deriva, publicar-Deriva}
use pred_engine.Evidencia.Repetidas.{guardar_unidades-repetida}
use pred_engine.Ejemplos.Evidencias.{
  flotantes, externo, exportador, peticion, serie, traza, primeras, todas, tardias,
}

abbrev final : Base flotantes
final = correr externo exportador todas (vacia externo)

abbrev abierta : Base flotantes
abierta = correr externo exportador primeras (vacia externo)

abbrev guardada : Base flotantes
guardada = (guardar_unidades externo "m3-c1" "s1" (serie 4) traza [] abierta).1

historia-Avanza_example :
    Avanza
      (estado_en "m3-c1" (vacia externo).corridas)
      (historia externo exportador "m3-c1" todas (vacia externo))
historia-Avanza_example = historia-Avanza externo exportador todas (vacia externo) "m3-c1"

se_publica : estado_en "m3-c1" final.corridas ≡ some publicada
unfolding correr ejecutar registrar_corrida dar_de_alta ya_registrada guardar_unidades
    insertar_unidades insertar_unidad confirmar fijar_protocolo fijar_corte escribir_corte marcar_en
    marcar_evaluada insertar_observaciones terminar_evaluacion escribir_evaluacion evaluar_en
    guardar_evaluacion exportar_corrida publicar_en publicar filter sorted insertar str_lt
se_publica = refl

correr-vista_example :
    vista externo "m3-c1" (correr externo exportador tardias final) ≡ vista externo "m3-c1" final
correr-vista_example = correr-vista externo exportador tardias final "m3-c1" se_publica

tiene_protocolo : protocolo_guardado "m3-c1" final.protocolos ≡ some peticion.protocolo
unfolding correr ejecutar registrar_corrida dar_de_alta ya_registrada guardar_unidades
    insertar_unidades insertar_unidad confirmar fijar_protocolo fijar_corte escribir_corte marcar_en
    marcar_evaluada insertar_observaciones terminar_evaluacion escribir_evaluacion evaluar_en
    guardar_evaluacion exportar_corrida publicar_en publicar filter sorted insertar str_lt
tiene_protocolo = refl

correr-Prefijo_example : Prefijo externo final (correr externo exportador tardias final)
correr-Prefijo_example = correr-Prefijo externo exportador tardias final

tiene_sku : Memᴰ ("m3-c1", "s1") final.skus
unfolding correr ejecutar registrar_corrida dar_de_alta ya_registrada guardar_unidades
    insertar_unidades insertar_unidad confirmar fijar_protocolo fijar_corte escribir_corte marcar_en
    marcar_evaluada insertar_observaciones terminar_evaluacion escribir_evaluacion evaluar_en
    guardar_evaluacion exportar_corrida publicar_en publicar filter sorted insertar str_lt
tiene_sku = Memᴰ.head refl

correr-Completo_example :
    (v : De (VeredictoSku flotantes)) × Memᴰ v final.veredictos × (v.0 ≡ "m3-c1") × (v.1.sku ≡ "s1")
correr-Completo_example = correr-Completo externo exportador todas "m3-c1" "s1" se_publica tiene_sku

publicar-Deriva_example : Deriva externo exportador "m3-c1" final none (
    publicar externo exportador "m3-c1" (record { exporta = true; reemplaza = true }) (final, none))
publicar-Deriva_example =
    publicar-Deriva externo exportador "m3-c1" final none
      (record { exporta = true; reemplaza = true })

se_guarda : guardar_unidades externo "m3-c1" "s1" (serie 4) traza [] abierta ≡ (ok 1, guardada)
unfolding correr ejecutar registrar_corrida dar_de_alta ya_registrada guardar_unidades
    insertar_unidades insertar_unidad confirmar fijar_protocolo fijar_corte escribir_corte marcar_en
    marcar_evaluada insertar_observaciones terminar_evaluacion escribir_evaluacion evaluar_en
    guardar_evaluacion exportar_corrida publicar_en publicar filter sorted insertar str_lt
se_guarda = refl

guardar_unidades-repetida_example :
    guardar_unidades externo "m3-c1" "s1" (serie 9) traza [] guardada ≡ (ok 0, guardada)
guardar_unidades-repetida_example =
    guardar_unidades-repetida externo "m3-c1" "s1" (serie 4) (serie 9) traza traza [] [] abierta
      guardada 1 se_guarda refl refl
