-- ===== src/Enrutador/Manifiesto.antt =====
-- manifiesto.py, and the names of comun/modelos/manifiesto_candidatos.py that it uses: the winners
-- of a run as candidates for M3.
use Prim.Native.String.{◌++◌ as concat}
use pred_engine.Prelude.{String, none, some, List}
use pred_engine.Prelude.Int.{ℤ}
use pred_engine.Prelude.Result.{Result, ok, err, traverse}
use pred_engine.Enrutador.Contratos.{
  Familia, classical, ml, dl, foundation, SkuClass, SelectionResult, SelectionError,
  sin_forecast_config,
}

unfoldable pub nombre_familia : Familia → String
nombre_familia classical = "classical"
nombre_familia ml = "ml"
nombre_familia dl = "dl"
nombre_familia foundation = "foundation"

unfoldable pub modelo_por_familia : Familia → String
modelo_por_familia classical = "sarima"
modelo_por_familia ml = "lightgbm"
modelo_por_familia dl = "mlp"
modelo_por_familia foundation = "chronos2"

pub record CandidatoCrudo (Json : Type 0) : Type 0 where
  pub candidato_id : String
  pub sku : String
  pub sku_class : SkuClass
  pub familia : Familia
  pub modelo : String
  pub semilla : ℤ
  pub configuracion : Json

-- `chronos2_fijado` is the frozen configuration of the foundation model.
module _ {Json : Type 0} (chronos2_fijado : Json) where
  unfoldable pub configuracion_declarada : Familia → Json → Json
  configuracion_declarada foundation forecast_config = chronos2_fijado
  configuracion_declarada classical forecast_config = forecast_config
  configuracion_declarada ml forecast_config = forecast_config
  configuracion_declarada dl forecast_config = forecast_config

  abbrev pub candidato_id : String → Familia → String
  candidato_id sku f =
      concat sku (concat "/" (concat (nombre_familia f) (concat "/" (modelo_por_familia f))))

  abbrev pub candidato_con : SelectionResult Json → Json → CandidatoCrudo Json
  candidato_con r config = record {
    candidato_id = candidato_id r.sku_id r.family;
    sku = r.sku_id;
    sku_class = r.sku_class;
    familia = r.family;
    modelo = modelo_por_familia r.family;
    semilla = r.forecast_seed;
    configuracion = configuracion_declarada r.family config;
  }

  unfoldable pub candidato : SelectionResult Json → Result SelectionError (CandidatoCrudo Json)
  candidato r = elim r.forecast_config [
    | none ↦ err sin_forecast_config
    | some config ↦ ok (candidato_con r config)
  ]

  unfoldable pub construir_candidatos :
      List (SelectionResult Json) → Result SelectionError (List (CandidatoCrudo Json))
  construir_candidatos resultados = traverse candidato resultados
