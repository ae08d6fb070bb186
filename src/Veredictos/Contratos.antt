-- ===== src/Veredictos/Contratos.antt =====
-- contratos.py of calculo_errores and of veredictos: the metrics of a SKU in one block of the
-- reserve, and the policy that is frozen before the reserve is opened.
use pred_engine.Prelude.{
  ℕ, String, Bool, Option, none, some, List, [], ◌∷◌, string_eq, nat_beq, if◌then◌else◌,
}
use pred_engine.Enrutador.Contratos.{SkuClass}

-- Floats and `statistics.median`.
pub record Flotantes : Type 1 where
  pub F : Type 0
  pub uno : F
  pub lt : F → F → Bool
  pub ge : F → F → Bool
  pub eq : F → F → Bool
  pub restar : F → F → F
  pub median : List F → F

module _ (fl : Flotantes) where
  open fl use {F}

  -- `no_calculables` is left out: only the published tables read it.
  pub record Metricas : Type 0 where
    pub n_pares : ℕ
    pub mae : F
    pub rmse : F
    pub me : F
    pub mase : Option F
    pub razon_sn : Option F

  pub record MetricasVentana : Type 0 where
    pub origen : ℕ
    pub metricas : Metricas

  pub record MetricasCandidato : Type 0 where
    pub candidato_id : String
    pub familia : String
    pub modelo : String
    pub agregadas : Option Metricas
    pub por_ventana : List MetricasVentana
    pub n_ventanas_totales : ℕ
    pub n_ventanas_validas : ℕ
    pub n_pronosticos_validos : ℕ

  pub record EvaluacionSku : Type 0 where
    pub sku : String
    pub sku_class : SkuClass
    pub linea_base : MetricasCandidato
    pub candidatos : List MetricasCandidato
    pub n_obs_validas_reserva : ℕ
    pub reserva_toda_cero : Bool
    pub n_candidatos_fallidos : ℕ

  pub record EvaluacionBloques : Type 0 where
    pub reserva : EvaluacionSku
    pub seleccion : EvaluacionSku
    pub prueba : EvaluacionSku

  -- What the selection and the verdict read of the policy.
  pub record PoliticaSeleccion : Type 0 where
    pub n_min : ℕ
    pub tolerancia_empate : F
    pub orden_simplicidad : List String
    pub familias_elegibles : SkuClass → List String

  -- A dictionary of windows by origin: what is set last stays.
  abbrev ventana_en : ℕ → List MetricasVentana → Option Metricas
  ventana_en o [] = none
  ventana_en o (v ∷ vs) = elim (ventana_en o vs) [
    | some m ↦ some m
    | none ↦ if nat_beq o v.origen then some v.metricas else none
  ]

  abbrev juntar :
      Metricas → Option Metricas → List (Metricas × Metricas) → List (Metricas × Metricas)
  juntar m none r = r
  juntar m (some b) r = (m, b) ∷ r

  abbrev pares_de : List MetricasVentana → List MetricasVentana → List (Metricas × Metricas)
  pares_de [] base = []
  pares_de (v ∷ vs) base = juntar v.metricas (ventana_en v.origen base) (pares_de vs base)

  abbrev pub pares_comunes : MetricasCandidato → MetricasCandidato → List (Metricas × Metricas)
  pares_comunes candidato linea_base = pares_de candidato.por_ventana linea_base.por_ventana

pub data MotivoSeleccion : Type 0 where
  menor_mediana empate_por_simplicidad compuerta_linea_base sin_skus_comparables : MotivoSeleccion

pub record SeleccionCategoria (F : Type 0) : Type 0 where
  pub sku_class : SkuClass
  pub familia_campeona : String
  pub medianas_r : List (String × F)
  pub adverso : Bool
  pub motivo : MotivoSeleccion
  pub skus_comparables : List String
  pub excluidos : List (String × String)
  pub familias_excluidas : List (String × String)

abbrev pub familia_linea_base : String
familia_linea_base = "seasonal_naive"
