-- ===== src/Reanudacion/Contratos.antt =====
-- contratos.py and errores.py: the request, the persisted manifest and the exceptions of a run.
-- Pydantic has validated every record; an `Externo` stands for what lies outside the repository.
use mathlib.Core.Logic.{◌↔◌}
use pred_engine.Prelude.{ℕ, String, ◌≡◌, refl, Bool, true, Option, List, ◌&&◌, arith, Eq, nat_beq}
use pred_engine.Prelude.Int.{ℤ}

abbrev pub schema_version : ℕ
schema_version = 1

pub data BackendHpo : Type 0 where
  optuna : BackendHpo

pub data EstadoCorrida : Type 0 where
  nueva en_progreso interrumpida completada fallida : EstadoCorrida

pub data Agregacion : Type 0 where
  media mediana media_recortada : Agregacion

pub record ConfiguracionValidacion : Type 0 where
  pub min_train : ℕ
  pub horizonte : ℕ
  pub paso : ℕ
  pub estacionalidad : ℕ

abbrev pub validacion_beq : ConfiguracionValidacion → ConfiguracionValidacion → Bool
validacion_beq a b =
    nat_beq a.min_train b.min_train
    && nat_beq a.horizonte b.horizonte
    && nat_beq a.paso b.paso
    && nat_beq a.estacionalidad b.estacionalidad

pub validacion_beq_iff : (a b : ConfiguracionValidacion) → (validacion_beq a b ≡ true) ↔ (a ≡ b)
validacion_beq_iff a b = ground arith

instance abbrev pub validacion_eq : Eq ConfiguracionValidacion
validacion_eq = record { iguales = validacion_beq; refleja = validacion_beq_iff }

abbrev pub backend_beq : BackendHpo → BackendHpo → Bool
backend_beq optuna optuna = true

pub backend_beq_iff : (a b : BackendHpo) → (backend_beq a b ≡ true) ↔ (a ≡ b)
backend_beq_iff optuna optuna = (λ _. refl, λ _. refl)

instance abbrev pub backend_eq : Eq BackendHpo
backend_eq = record { iguales = backend_beq; refleja = backend_beq_iff }

pub record ConfiguracionOptimizador (Flotante : Type 0) : Type 0 where
  pub n_trials_objetivo : ℕ
  pub muestreador : String
  pub min_ventanas : ℕ
  pub agregacion : Agregacion
  pub proporcion_recorte : Flotante
  pub factor_reduccion : ℕ
  pub habilitar_poda_semantica : Bool

-- `run_id` identifies the run and does not enter the fingerprint.
pub record SolicitudCorrida (Flotante Espacio : Type 0) : Type 0 where
  pub run_id : String
  pub familia : String
  pub sku_id : String
  pub seed : ℤ
  pub metrica_objetivo : String
  pub validacion : ConfiguracionValidacion
  pub espacio_busqueda : Espacio
  pub optimizador : ConfiguracionOptimizador Flotante
  pub n_observaciones : ℕ
  pub huella_serie : String
  pub backend : BackendHpo

pub record ManifiestoCorrida : Type 0 where
  pub version_esquema : ℕ
  pub run_id : String
  pub estado : EstadoCorrida
  pub familia : String
  pub sku_id : String
  pub seed : ℤ
  pub metrica_objetivo : String
  pub configuracion_validacion : ConfiguracionValidacion
  pub fingerprint_configuracion : String
  pub backend : BackendHpo
  pub backend_checkpoint : Option String
  pub n_trials_objetivo : ℕ
  pub n_trials_finalizados : ℕ

-- The reasons of `IncompatibilidadCorridaError`.
pub data Motivo : Type 0 where
  familia sku_id seed metrica_objetivo validacion n_trials_objetivo backend huella : Motivo

pub data ReanudacionError : Type 0 where
  transicion_estado : EstadoCorrida → EstadoCorrida → ReanudacionError
  incompatibilidad : List Motivo → ReanudacionError
  corrida_fallida : ReanudacionError
  manifiesto_ausente : ReanudacionError
  manifiesto_corrupto : ReanudacionError
  version_manifiesto : Option ℕ → ReanudacionError
  -- an exception of the operating system or of the HPO backend
  externo : String → ReanudacionError
