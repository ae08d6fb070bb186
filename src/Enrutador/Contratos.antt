-- ===== src/Enrutador/Contratos.antt =====
-- contratos.py and errores.py: families, profiles, requests and results. A name that comes from a
-- caller is text; `Familia` and `SkuClass` are the names that the literals admit.
use pred_engine.Prelude.{
  ℕ, String, ◌≡◌, Bool, true, false, Option, none, some, List, ◌↔◌, arith, if◌then◌else◌, ◌==◌, Eq,
  string_eq,
}
use pred_engine.Prelude.Int.{ℤ}

pub data Familia : Type 0 where
  classical ml dl foundation : Familia

pub data SkuClass : Type 0 where
  smooth erratic intermittent lumpy : SkuClass

pub data Perfil : Type 0 where
  dense_stable dense_variable sparse_stable sparse_variable : Perfil

abbrev pub familia_beq : Familia → Familia → Bool
familia_beq classical classical = true
familia_beq ml ml = true
familia_beq dl dl = true
familia_beq foundation foundation = true
familia_beq _ _ = false

pub familia_beq_iff : (a b : Familia) → (familia_beq a b ≡ true) ↔ (a ≡ b)
familia_beq_iff a b = ground arith

instance abbrev pub familia_eq : Eq Familia
familia_eq = record { iguales = familia_beq; refleja = familia_beq_iff }

abbrev pub sku_class_beq : SkuClass → SkuClass → Bool
sku_class_beq smooth smooth = true
sku_class_beq erratic erratic = true
sku_class_beq intermittent intermittent = true
sku_class_beq lumpy lumpy = true
sku_class_beq _ _ = false

pub sku_class_beq_iff : (a b : SkuClass) → (sku_class_beq a b ≡ true) ↔ (a ≡ b)
sku_class_beq_iff a b = ground arith

instance abbrev pub sku_class_eq : Eq SkuClass
sku_class_eq = record { iguales = sku_class_beq; refleja = sku_class_beq_iff }

abbrev pub perfil_beq : Perfil → Perfil → Bool
perfil_beq dense_stable dense_stable = true
perfil_beq dense_variable dense_variable = true
perfil_beq sparse_stable sparse_stable = true
perfil_beq sparse_variable sparse_variable = true
perfil_beq _ _ = false

pub perfil_beq_iff : (a b : Perfil) → (perfil_beq a b ≡ true) ↔ (a ≡ b)
perfil_beq_iff a b = ground arith

instance abbrev pub perfil_eq : Eq Perfil
perfil_eq = record { iguales = perfil_beq; refleja = perfil_beq_iff }

-- `family in PREDICTOR_FAMILIES`, and the family that it is.
unfoldable pub leer_familia : String → Option Familia
leer_familia t =
    if t == "classical"
    then some classical
    else if t == "ml"
    then some ml
    else if t == "dl"
    then some dl
    else if t == "foundation"
    then some foundation
    else none

pub data SelectionError : Type 0 where
  -- SelectionContractError, by what was wrong
  familia_invalida estrategia_invalida familia_ajena resultado_invalido : SelectionError
  identidad_distinta decision_distinta version_distinta sin_forecast_config : SelectionError
  serie_incoherente : ℕ → SelectionError
  -- UnregisteredFamilyError, DuplicateStrategyError, RouterConfigurationError
  familia_no_registrada : Familia → SelectionError
  estrategia_duplicada : Familia → SelectionError
  configuracion : SelectionError
  -- an exception that a strategy raised
  estrategia : String → SelectionError

pub record Observacion : Type 0 where
  pub sku_id : String
  pub sku_class : SkuClass

pub record SelectionRequest : Type 0 where
  pub sku_id : String
  pub sku_class : SkuClass
  pub series : List Observacion

pub record RoutingDecision : Type 0 where
  pub family : Familia
  pub profile : Perfil

-- `Json` is a mapping of the strategy, which the router does not read.
pub record SelectionResult (Json : Type 0) : Type 0 where
  pub sku_id : String
  pub sku_class : SkuClass
  pub family : Familia
  pub profile : Perfil
  pub produced_by : String
  pub policy_version : String
  pub payload : Json
  pub forecast_config : Option Json
  pub forecast_seed : ℤ
