-- ===== src/Paralelo/Codigos.antt =====
-- comun/errores_codigo.py: the stable code of an exception, from its type. The classes of an
-- exception are its method resolution order, its own class first.
use pred_engine.Prelude.{
  String, Bool, true, false, Option, none, some, List, [], ◌∷◌, ◌++◌, map, ◌&&◌, ◌==◌, string_eq,
  if◌then◌else◌,
}
use pred_engine.Prelude.Sorted.{any, filter}

pub record Clase : Type 0 where
  pub modulo : String
  pub nombre : String

-- An exception without `__cause__`, or with one; the second text is its attribute `stage`.
pub data Excepcion : Type 0 where
  simple : List Clase → String → Excepcion
  con_causa : List Clase → String → Option String → Excepcion → Excepcion

abbrev pub clases : Excepcion → List Clase
clases (simple cs m) = cs
clases (con_causa cs m e c) = cs

abbrev pub nombre_de : List Clase → String
nombre_de [] = ""
nombre_de (c ∷ cs) = c.nombre

-- `isinstance(exc, clase)`
abbrev pub es_instancia : List Clase → String → String → Bool
es_instancia cs modulo nombre = any (λ c. (c.modulo == modulo) && (c.nombre == nombre)) cs

pub record Entrada : Type 0 where
  pub modulo : String
  pub nombre : String
  pub codigo : String

abbrev entrada : String → String → String → Entrada
entrada m n c = record { modulo = m; nombre = n; codigo = c }

abbrev elegibilidad_sin_historia : String
elegibilidad_sin_historia = "eligibility.no_admissible_history"

abbrev elegibilidad_huecos : String
elegibilidad_huecos = "eligibility.calendar_gaps"

abbrev elegibilidad_sin_reserva : String
elegibilidad_sin_reserva = "eligibility.no_reserved_observations"

abbrev elegibilidad_no_finita : String
elegibilidad_no_finita = "eligibility.non_finite_demand"

abbrev elegibilidad_historia_insuficiente : String
elegibilidad_historia_insuficiente = "eligibility.insufficient_history"

abbrev elegibilidad_sin_familia : String
elegibilidad_sin_familia = "eligibility.no_configured_family"

abbrev elegibilidad_menos_de_dos_familias : String
elegibilidad_menos_de_dos_familias = "eligibility.fewer_than_two_families"

abbrev pub codigo_etapa_fallida : String
codigo_etapa_fallida = "pipeline.stage_failed"

abbrev pub codigo_evaluacion_fallida : String
codigo_evaluacion_fallida = "evaluation.failed"

abbrev pub archivo_ausente : String
archivo_ausente = "ingest.file_not_found"

unfoldable pub tabla : List Entrada
tabla =
    entrada "pred_engine.ingesta.data.deposito" "RawConflictError" "ingest.raw_conflict"
    ∷ entrada "pred_engine.ingesta.data.proteccion_raw" "RawWritePermissionError"
        "ingest.raw_write_blocked"
    ∷ entrada "pred_engine.ingesta.lector.extractor_csv" "ArchivoNoCsvError" "ingest.not_csv"
    ∷ entrada "pred_engine.ingesta.lector.extractor_csv" "RutaFueraDeRawError" "ingest.not_csv"
    ∷ entrada "pred_engine.ingesta.sonda.errores" "SemanticAlignmentError" "ingest.header_rejected"
    ∷ entrada "pred_engine.ingesta.validador_formato.errores" "SchemaBarrierError"
        "ingest.schema_barrier"
    ∷ entrada "pred_engine.ingesta.continuidad.errores" "TemporalContinuityError"
        "ingest.temporal_continuity"
    ∷ entrada "pred_engine.ingesta.categorizacion.errores" "TopologyMathError" "topology.math"
    ∷ entrada "pred_engine.ingesta.categorizacion.errores" "TopologyRoutingError" "topology.routing"
    ∷ entrada "pred_engine.ingesta.categorizacion.errores" "TopologyContractError"
        "topology.contract"
    ∷ entrada "pred_engine.ingesta.salida.errores" "OutputContractError" "handoff.contract"
    ∷ entrada "pred_engine.ingesta.salida.errores" "PanelPreservationError" "handoff.preservation"
    ∷ entrada "pred_engine.ingesta.salida.errores" "HandoffPreconditionError" "handoff.precondition"
    ∷ entrada "pred_engine.ingesta.salida.errores" "MissingCutoffMetadataError"
        "handoff.missing_metadata"
    ∷ entrada "pred_engine.comun.llm.errores" "LlmError" "ingest.llm_provider"
    ∷ entrada "pred_engine.comun.procedencia" "OrigenIncompatibleError" "provenance.origin_conflict"
    ∷ entrada "pred_engine.optimizacion.router.errores" "NingunTrialCompletoError"
        "selection.no_viable_trial"
    ∷ entrada "pred_engine.optimizacion.router.errores" "SelectionContractError"
        "selection.contract"
    ∷ entrada "pred_engine.optimizacion.router.errores" "UnregisteredFamilyError"
        "selection.unregistered_family"
    ∷ entrada "pred_engine.optimizacion.router.errores" "UnknownSkuClassError"
        "selection.unknown_class"
    ∷ entrada "pred_engine.optimizacion.router.errores" "RouterConfigurationError"
        "selection.router_config"
    ∷ entrada "pred_engine.optimizacion.router.errores" "DuplicateStrategyError"
        "selection.router_config"
    ∷ entrada "pred_engine.optimizacion.control_reanudacion.errores" "IncompatibilidadCorridaError"
        "run.incompatible_config"
    ∷ entrada "pred_engine.optimizacion.control_reanudacion.errores" "CorridaFallidaError"
        "run.failed_terminal"
    ∷ entrada "pred_engine.optimizacion.control_reanudacion.errores" "TransicionEstadoError"
        "run.invalid_transition"
    ∷ entrada "pred_engine.optimizacion.control_reanudacion.errores" "ManifiestoAusenteError"
        "run.manifest_missing"
    ∷ entrada "pred_engine.optimizacion.control_reanudacion.errores" "ManifiestoCorruptoError"
        "run.manifest_corrupt"
    ∷ entrada "pred_engine.optimizacion.control_reanudacion.errores" "VersionManifiestoError"
        "run.manifest_version"
    ∷ entrada "pred_engine.comun.modelos.modelos_machine_learning.errores" "SerieCortaError"
        "model.series_too_short"
    ∷ entrada "pred_engine.comun.walkforward.errores" "VentanaInsuficienteError"
        "model.series_too_short"
    ∷ entrada "pred_engine.comun.modelos.modelos_fundacionales.errores"
        "ModeloFundacionalNoDisponibleError" "model.foundation_unavailable"
    ∷ entrada "pred_engine.comun.modelos.modelos_clasicos.errores" "AjusteModeloError"
        "model.fit_failed"
    ∷ entrada "pred_engine.optimizacion.optimizadores.HPO.errores" "EspacioInvalidoError"
        "hpo.invalid_space"
    ∷ entrada "pred_engine.optimizacion.optimizadores.HPO.errores" "EstudioError" "hpo.study_failed"
    ∷ entrada "pred_engine.comun.walkforward.errores" "EvaluacionError" codigo_evaluacion_fallida
    ∷ entrada "pred_engine.pipeline" "PronosticoDegeneradoError" "model.degenerate_forecast"
    ∷ entrada "pred_engine.pipeline" "StageUnavailableError" "pipeline.stage_unavailable"
    ∷ entrada "pred_engine.aumentacion.errores" "WormOverwriteError" "synthetic.worm_overwrite"
    ∷ entrada "pred_engine.aumentacion.errores" "SchemaConformanceError" "synthetic.conformance"
    ∷ entrada "pred_engine.aumentacion.errores" "DivergenceRejectionExhausted"
        "synthetic.divergence_exhausted"
    ∷ entrada "pred_engine.aumentacion.errores" "PhysicalConstraintError"
        "synthetic.physical_constraint"
    ∷ []

-- What can be imported is the platform's choice.
unfoldable pub resueltas : (String → String → Bool) → List Entrada
unfolding tabla filter
resueltas carga = filter (λ e. carga e.modulo e.nombre) tabla

abbrev codigos_elegibilidad : List String
codigos_elegibilidad =
    elegibilidad_sin_historia ∷ elegibilidad_huecos ∷ elegibilidad_sin_reserva
    ∷ elegibilidad_no_finita ∷ elegibilidad_historia_insuficiente
    ∷ elegibilidad_menos_de_dos_familias ∷ []

unfoldable pub codigos_conocidos : List String
codigos_conocidos =
    map (λ e. e.codigo) tabla
    ++ (archivo_ausente ∷ codigo_etapa_fallida ∷ codigo_evaluacion_fallida ∷ codigos_elegibilidad)

abbrev pub respaldo : Bool → Option String → String
respaldo true etapa = archivo_ausente
respaldo false none = codigo_etapa_fallida
respaldo false (some etapa) =
    if etapa == "L3" then codigo_evaluacion_fallida else codigo_etapa_fallida

abbrev pub primer_codigo : List Clase → Option String → List Entrada → String
primer_codigo cs etapa [] = respaldo (es_instancia cs "builtins" "FileNotFoundError") etapa
primer_codigo cs etapa (e ∷ es) =
    let resto = primer_codigo cs etapa es in
    if es_instancia cs e.modulo e.nombre then e.codigo else resto

-- `str(getattr(exc, "stage", etapa))`
abbrev pub etapa_de_error : Option String → Option String → String
etapa_de_error (some s) etapa = s
etapa_de_error none (some s) = s
etapa_de_error none none = "None"

module _ (carga : String → String → Bool) where
  unfoldable pub codigo_de : Excepcion → Option String → String
  unfolding resueltas
  codigo_de (simple cs m) etapa = primer_codigo cs etapa (resueltas carga)
  codigo_de (con_causa cs m s c) etapa =
      let de_causa = codigo_de c (some (etapa_de_error s etapa)) in
      if nombre_de cs == "PipelineExecutionError"
      then de_causa
      else primer_codigo cs etapa (resueltas carga)
