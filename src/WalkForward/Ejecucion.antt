-- ===== src/WalkForward/Ejecucion.antt =====
-- _ejecucion.py, semillas.py and protocolos.py: fitting a model on one window.
use pred_engine.Prelude.{
  ℕ, ◌-◌, ◌%◌, ◌^◌, ◌<◌, String, Bool, none, some, List, arith, take, drop, replicate,
  if◌then◌else◌,
}
use pred_engine.Prelude.Int.{ℤ}
use pred_engine.Prelude.Result.{Result, ok, err, ◌>>=◌}
use pred_engine.WalkForward.Ventanas.{VentanaTemporal, horizonte_de, EvaluacionError}
use pred_engine.WalkForward.Numeros.{Numpy}
use pred_engine.WalkForward.Metricas.{Estrategia, Metricas, calcular_metricas, ResultadoVentana}

-- `FabricaPronosticador` and `Pronosticador`, whose `fit` changes the model, and BLAKE2b of
-- `seed:identificador:indice` as a number.
pub record Modelos (np : Numpy) : Type 1 where
  pub Configuracion : Type 0
  pub Modelo : Type 0
  pub fabrica : Configuracion → ℕ → Result EvaluacionError Modelo
  pub fit : Modelo → List np.F → Result EvaluacionError Modelo
  pub predict : Modelo → ℕ → Result EvaluacionError (List np.F)
  pub blake2b : ℤ → String → ℕ → ℕ
  -- `type: message` of an exception
  pub describir : EvaluacionError → String

-- The keyword arguments that both ways to run share.
pub record Ajustes (np : Numpy) : Type 0 where
  pub metrica_objetivo : String
  pub estacionalidad : ℕ
  pub agregacion : Estrategia
  pub proporcion_recorte : np.F
  pub seed : ℤ
  pub tolerar_fallos : Bool
  pub identificador : String

module _ (np : Numpy) (modelos : Modelos np) where
  unfoldable pub derivar_semilla : ℤ → String → ℕ → ℕ
  derivar_semilla seed identificador indice_ventana =
      modelos.blake2b seed identificador indice_ventana % (2 ^ 31 - 1)

  pub derivar_semilla-lt : (s : ℤ) (t : String) (i : ℕ) → derivar_semilla s t i < 2 ^ 31 - 1
  unfolding derivar_semilla
  derivar_semilla-lt s t i = omega arith

  -- `y[inicio:fin]`
  abbrev pub tramo : List np.F → ℕ → ℕ → List np.F
  tramo y inicio fin = take (fin - inicio) (drop inicio y)

  metricas_fallo : Metricas np
  metricas_fallo = record { mae = np.inf; rmse = np.inf; smape = np.inf; mase = np.inf }

  -- The body of the `try`.
  unfoldable pub intentar :
      List np.F
      → modelos.Configuracion
      → VentanaTemporal
      → ℕ
      → ℕ
      → Result EvaluacionError (List np.F × Metricas np)
  intentar y configuracion ventana estacionalidad semilla = do
    let y_train = tramo y ventana.inicio_train ventana.fin_train
    modelo ← modelos.fabrica configuracion semilla
    ajustado ← modelos.fit modelo y_train
    y_pred ← modelos.predict ajustado (horizonte_de ventana)
    metricas ←
        calcular_metricas np (tramo y ventana.inicio_val ventana.fin_val) y_pred y_train
          estacionalidad
    ok (y_pred, metricas)

  unfoldable pub ejecutar_ventana :
      Ajustes np
      → List np.F
      → modelos.Configuracion
      → VentanaTemporal
      → Result EvaluacionError (ResultadoVentana np)
  unfolding intentar derivar_semilla metricas_fallo
  ejecutar_ventana a y configuracion ventana =
      let y_train = tramo y ventana.inicio_train ventana.fin_train in
      let y_real = tramo y ventana.inicio_val ventana.fin_val in
      elim (intentar y configuracion ventana a.estacionalidad
        (derivar_semilla a.seed a.identificador ventana.indice)) [
          | ok r ↦ ok (record {
            ventana = ventana;
            metricas = r.1;
            y_train = y_train;
            y_real = y_real;
            y_pred = r.0;
            fallo = none;
          })
          | err e ↦
              if a.tolerar_fallos
              then ok (record {
                ventana = ventana;
                metricas = metricas_fallo;
                y_train = y_train;
                y_real = y_real;
                y_pred = replicate (horizonte_de ventana) np.nan;
                fallo = some (modelos.describir e);
              })
              else err e
        ]
