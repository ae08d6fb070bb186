-- ===== src/Candidatos/Contratos.antt =====
-- forecasting/adaptador_candidatos/contratos.py, the manifest of manifiesto_candidatos.py as the
-- validation reads it, and what it takes from Python, pydantic and the models as parameters.
use pred_engine.Prelude.{ℕ, String, Bool, Option, List}
use pred_engine.Prelude.Result.{Result}

pub data MotivoRechazo : Type 0 where
  manifiesto_ilegible : MotivoRechazo
  version_no_soportada : MotivoRechazo
  contexto_incompatible : MotivoRechazo
  handoff_posterior_a_reserva : MotivoRechazo
  candidato_id_duplicado : MotivoRechazo
  sku_fuera_del_panel : MotivoRechazo
  error_no_clasificado : MotivoRechazo

pub data CodigoFallo : Type 0 where
  modelo_no_registrado : CodigoFallo
  campo_faltante : CodigoFallo
  campo_sobrante : CodigoFallo
  tipo_incorrecto : CodigoFallo
  fuera_de_dominio : CodigoFallo
  semilla_ausente : CodigoFallo
  pesos_no_disponibles : CodigoFallo

pub record FalloCandidato : Type 0 where
  pub sku : String
  pub candidato_id : String
  pub modelo : Option String
  pub campo : String
  pub codigo_error : CodigoFallo
  pub mensaje : String

-- A value of a dictionary: the text that `isinstance(v, str)` finds, or another object.
pub data Valor (O : Type 0) : Type 0 where
  texto : String → Valor O
  otro : O → Valor O

-- A dictionary, whose keys are not repeated.
abbrev pub Crudo : Type 0 → Type 0
Crudo O = List (String × Valor O)

-- `json.loads`: a dictionary or another object.
pub data Leido (O : Type 0) : Type 0 where
  diccionario : Crudo O → Leido O
  no_diccionario : Leido O

-- A pydantic model that validated: the family, and `model_dump()`.
pub record Candidato (O : Type 0) : Type 0 where
  pub familia : String
  pub volcado : Crudo O

-- One of `exc.errors()`, with `str` of the parts of its `loc`.
pub record ErrorCampo : Type 0 where
  pub tipo : String
  pub ruta : List String
  pub msg : String

-- `exc.errors()`, which has a first element.
pub record ValidationError : Type 0 where
  pub primero : ErrorCampo
  pub otros : List ErrorCampo

-- What the load of the weights raises: ModeloFundacionalNoDisponibleError, or anything else.
pub data ErrorCarga : Type 0 where
  no_disponible : String → ErrorCarga
  inesperado : ErrorCarga

pub record ContextoParticion (D F : Type 0) : Type 0 where
  pub ingesta_ref_m1 : String
  pub t_corte_reserva : D
  pub fraccion_reserva : F

pub record ManifiestoCandidatos (O D F T : Type 0) : Type 0 where
  pub run_id_m2 : String
  pub emitido_en : T
  pub contexto : ContextoParticion D F
  pub candidatos : List (Crudo O)

-- Objects, dates, floats and instants with their operations; `json.loads`; the two validations of
-- pydantic; and `cargar_fundacional(CHRONOS2_ZERO_SHOT)`, as it goes in this run.
pub record Entorno : Type 1 where
  pub O : Type 0
  pub D : Type 0
  pub F : Type 0
  pub T : Type 0
  pub str : O → String
  pub es_numero : O → ℕ → Bool
  pub misma_fecha : D → D → Bool
  pub misma_fraccion : F → F → Bool
  pub anterior : T → T → Bool
  pub strip : String → String
  pub repr : String → String
  pub startswith : String → String → Bool
  pub endswith : String → String → Bool
  pub loads : String → Option (Leido O)
  pub model_validate_json : String → Result ValidationError (ManifiestoCandidatos O D F T)
  pub validate_python : Crudo O → Result ValidationError (Candidato O)
  pub cargar_fundacional : Result ErrorCarga (Unit {0})

pub record HandoffValidado (O D F : Type 0) : Type 0 where
  pub contexto : ContextoParticion D F
  pub run_id_m2 : String
  pub candidatos : List (Candidato O)
  pub fallos : List FalloCandidato
