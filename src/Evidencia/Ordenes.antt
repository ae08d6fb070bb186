-- ===== src/Evidencia/Ordenes.antt =====
-- The writes of persistencia_evidencia as orders that come one after the other, and what no order changes.
use pred_engine.Prelude.{String, List, [], ◌∷◌}
use pred_engine.Veredictos.Contratos.{EvaluacionBloques}
use pred_engine.Evidencia.Contratos.{Externo, Base, IdentidadCorrida, SerieCandidato}
use pred_engine.Evidencia.Registro.{Entrada, Origen, registrar_corrida}
use pred_engine.Evidencia.Unidades.{
  Traza, Fallos, UnidadPronostico, guardar_unidades, guardar_unidades_generadas,
}
use pred_engine.Evidencia.Protocolo.{Peticion, fijar_protocolo}
use pred_engine.Evidencia.Marca.{marcar_evaluada}
use pred_engine.Evidencia.Evaluacion.{ResultadoEvaluacion, Demanda}
use pred_engine.Evidencia.Guardado.{guardar_evaluacion}
use pred_engine.Evidencia.Publicacion.{Carpeta, Sucesos, Exportador, publicar}
use pred_engine.Evidencia.Efectos.{Efecto}
use pred_engine.Evidencia.Escrituras.{guardar_unidades-Escribe, guardar_unidades_generadas-Escribe}
use pred_engine.Evidencia.Pasos.{marcar_evaluada-Escribe, publicar-Escribe}
use pred_engine.Evidencia.Altas.{registrar_corrida-Escribe}
use pred_engine.Evidencia.Fijados.{guardar_evaluacion-Escribe}
use pred_engine.Evidencia.Congelados.{fijar_protocolo-Escribe}

module _ (x : Externo) where
  open x use {fl}

  -- The tables after the migrations.
  abbrev pub vacia : Base fl
  vacia = record {
    corridas = [];
    ingestas = [];
    skus = [];
    fallos = [];
    unidades = [];
    pronosticos = [];
    protocolos = [];
    cortes = [];
    tardios = [];
    exclusiones = [];
    metricas = [];
    categorias = [];
    veredictos = [];
    observaciones = [];
  }

module _ (x : Externo) (exportar : Exportador x) where
  open x use {fl}

  -- A call of one of the seven functions that write, with its arguments.
  pub data Orden : Type 0 where
    registra : IdentidadCorrida → Entrada x.O x.Fraccion → Origen → Orden
    guarda : String → String → SerieCandidato fl.F → Traza → Fallos → Orden
    guarda_generadas : String → List (UnidadPronostico fl.F) → Orden
    fija : Peticion → Orden
    marca : String → Orden
    evalua : String → List (EvaluacionBloques fl) → ResultadoEvaluacion x → Demanda x → Orden
    publica : String → Sucesos → Carpeta → Orden

  -- The database after the call, returned or raised.
  unfoldable pub ejecutar : Orden → Base fl → Base fl
  ejecutar (registra i entrada o) b = (registrar_corrida x i entrada o b).1
  ejecutar (guarda r sku serie t fallos) b = (guardar_unidades x r sku serie t fallos b).1
  ejecutar (guarda_generadas r us) b = (guardar_unidades_generadas x r us b).1
  ejecutar (fija p) b = (fijar_protocolo x p b).1
  ejecutar (marca r) b = (marcar_evaluada x r b).1
  ejecutar (evalua r es res ds) b = (guardar_evaluacion x r es res ds b).1
  ejecutar (publica r s d) b = (publicar x exportar r s (b, d)).1.0

  unfoldable pub correr : List Orden → Base fl → Base fl
  correr [] b = b
  correr (o ∷ os) b = correr os (ejecutar o b)

  pub ejecutar-Efecto : (o : Orden) (b : Base fl) → Efecto x b (ejecutar o b)
  unfolding ejecutar
  ejecutar-Efecto (registra i entrada o) b = registrar_corrida-Escribe x i entrada o b
  ejecutar-Efecto (guarda r sku serie t fallos) b =
      guardar_unidades-Escribe x r sku serie t fallos b
  ejecutar-Efecto (guarda_generadas r us) b = guardar_unidades_generadas-Escribe x r us b
  ejecutar-Efecto (fija p) b = fijar_protocolo-Escribe x p b
  ejecutar-Efecto (marca r) b = marcar_evaluada-Escribe x r b
  ejecutar-Efecto (evalua r es res ds) b = guardar_evaluacion-Escribe x r es res ds b
  ejecutar-Efecto (publica r s d) b = publicar-Escribe x exportar r s b d

  -- What every effect keeps holds after any calls.
  pub correr_conserva :
      (P : Base fl → Type 0)
      → ((b b' : Base fl) → Efecto x b b' → P b → P b')
      → (os : List Orden) (b : Base fl) → P b
      → P (correr os b)
  unfolding correr
  correr_conserva P h [] b p = p
  correr_conserva P h (o ∷ os) b p =
      correr_conserva P h os (ejecutar o b) (h b (ejecutar o b) (ejecutar-Efecto o b) p)
