-- ===== src/Evidencia/Contratos.antt =====
-- persistencia_evidencia/contratos.py and errores.py, the rows of the tables `m3_*`, and what the
-- component takes from Python, SQLite and JSON. A date is the number of its day, also in a table.
use pred_engine.Prelude.{ℕ, String, Bool, Option, List}
use pred_engine.Candidatos.Contratos.{Candidato, FalloCandidato}
use pred_engine.Veredictos.Contratos.{Flotantes, SeleccionCategoria}
use pred_engine.Veredictos.Veredicto.{VeredictoSku}
use pred_engine.Enrutador.Contratos.{SkuClass}

pub data EstadoCorrida : Type 0 where
  en_curso evaluada seleccionada publicada rechazada : EstadoCorrida

pub record IdentidadCorrida : Type 0 where
  pub ingesta_ref_m1 : String
  pub configuracion_id : String
  pub codigo_version : String
  pub t_corte_reserva : ℕ
  pub version_politica : String
  pub version_metricas : String

-- EstadoCorridaError with its three fields, EvidenciaInconsistenteError without its text, a constraint
-- of the database that does not hold (`sqlite3.IntegrityError`), a KeyError, and an exception of the
-- export.
pub data EvidenciaError : Type 0 where
  estado_corrida_error : String → Option EstadoCorrida → String → EvidenciaError
  inconsistente integridad sin_clave exportacion_fallida : EvidenciaError

pub record Corrida : Type 0 where
  pub run_id : String
  pub ingesta_sha256 : String
  pub run_id_m2 : Option String
  pub identidad : String
  pub datos_sinteticos : Bool
  pub estado : EstadoCorrida
  pub causa_rechazo : Option String
  pub origen_declarado : Bool

pub record Ingesta : Type 0 where
  pub ingesta_sha256 : String
  pub ingesta_ref_m1 : String
  pub datos_sinteticos : Bool
  pub origen_declarado : Bool

-- `estado` is "fallida" exactly when there is a `causa`, which a trigger demands.
pub record Unidad : Type 0 where
  pub run_id : String
  pub sku : String
  pub candidato_id : String
  pub origen : ℕ
  pub familia : String
  pub modelo : String
  pub causa : Option String
  pub emitido_en : Option String
  pub codigo_version : Option String
  pub semilla : Option ℕ

pub record Pronostico (F : Type 0) : Type 0 where
  pub run_id : String
  pub sku : String
  pub candidato_id : String
  pub origen : ℕ
  pub h : ℕ
  pub fecha : ℕ
  pub valor : Option F

pub record Protocolo : Type 0 where
  pub run_id : String
  pub protocolo : String
  pub manifiesto : String
  pub procedencia : String
  pub reserva_abierta_en : String
  pub n_unidades_previstas : ℕ

pub record Exclusion : Type 0 where
  pub sku : String
  pub sku_class : SkuClass
  pub codigo : String
  pub causa : String

pub data Cifra (F : Type 0) : Type 0 where
  cuenta : ℕ → Cifra F
  flotante : F → Cifra F

-- `ventana` is none for the row "agregada".
pub record FilaMetrica (F : Type 0) : Type 0 where
  pub sku : String
  pub candidato_id : String
  pub ventana : Option ℕ
  pub metrica : String
  pub valor : Option (Cifra F)

pub record Observacion (F : Type 0) : Type 0 where
  pub sku : String
  pub fecha : ℕ
  pub valor : Option F

-- A row with its run.
abbrev pub De : Type 0 → Type 0
De A = String × A

pub record Base (fl : Flotantes) : Type 0 where
  pub corridas : List Corrida
  pub ingestas : List Ingesta
  pub skus : List (De String)
  pub fallos : List (De FalloCandidato)
  pub unidades : List Unidad
  pub pronosticos : List (Pronostico fl.F)
  pub protocolos : List Protocolo
  pub cortes : List (De ℕ)
  pub tardios : List (De String)
  pub exclusiones : List (De Exclusion)
  pub metricas : List (De (FilaMetrica fl.F))
  pub categorias : List (De (SeleccionCategoria fl.F))
  pub veredictos : List (De (VeredictoSku fl))
  pub observaciones : List (De (Observacion fl.F))

-- `FalloPronostico`, `PronosticoFechado` and `SerieCandidato` of the generator of forecasts.
pub record FalloPronostico : Type 0 where
  pub sku : String
  pub candidato_id : String
  pub modelo : String
  pub origen : ℕ
  pub campo : String
  pub codigo_error : String
  pub mensaje : String

pub record PronosticoFechado (F : Type 0) : Type 0 where
  pub origen : ℕ
  pub fechas : List ℕ
  pub valores : List F

pub record SerieCandidato (F : Type 0) : Type 0 where
  pub candidato_id : String
  pub familia : String
  pub modelo : String
  pub pronosticos : List (PronosticoFechado F)

-- `canonica` prints an identity as JSON and `versiones_de` reads the versions of the policy and of the
-- metrics from that text; `digest` is the first 16 digits of SHA-256; `horizonte_de` reads
-- `["pronosticos"]["horizonte"]` of a protocol, when that is an integer that is not negative;
-- `es_elegibilidad` is `LIKE 'eligibility.%'`.
pub record Externo : Type 1 where
  pub fl : Flotantes
  pub O : Type 0
  pub Fraccion : Type 0
  pub sku_de : Candidato O → String
  pub finito : fl.F → Bool
  pub infinito : fl.F → Bool
  pub nan : fl.F
  pub canonica : IdentidadCorrida → String
  pub digest : String → String
  pub versiones_de : String → String × String
  pub horizonte_de : String → Option ℕ
  pub es_elegibilidad : String → Bool
  pub json_fallo : FalloPronostico → String
