-- ===== src/WalkForward/Recorridos.antt =====
-- walk_forward.py and walk_forward_greedy.py: all windows at once, and window by window.
use pred_engine.Prelude.{
  ℕ, String, Bool, true, false, Option, none, some, List, [], ◌∷◌, ◌++◌, length, nat_beq, ◌&&◌,
  if◌then◌else◌,
}
use pred_engine.Prelude.Result.{Result, ok, err, ◌>>=◌, traverse}
use pred_engine.WalkForward.Ventanas.{VentanaTemporal, EvaluacionError, valor, generar_ventanas}
use pred_engine.WalkForward.Numeros.{Numpy}
use pred_engine.WalkForward.Metricas.{ResultadoVentana, valor_agregado_de}
use pred_engine.WalkForward.Ejecucion.{Modelos, Ajustes, ejecutar_ventana}

-- `ajustes`, which the study notes later, is left out.
pub record ResultadoWalkForward (np : Numpy) : Type 0 where
  pub ventanas : List (ResultadoVentana np)
  pub metrica_objetivo : String
  pub valor_agregado : np.F
  pub completo : Bool
  pub n_ventanas_evaluadas : ℕ
  pub n_ventanas_totales : ℕ

pub record EstadoParcial (np : Numpy) : Type 0 where
  pub ultima : ResultadoVentana np
  pub n_evaluadas : ℕ
  pub n_totales : ℕ
  pub valor_parcial : np.F

-- The generator of `iterar_walk_forward`: what it has evaluated and what is left, or finished.
pub data Generador (np : Numpy) : Type 0 where
  vivo : List (ResultadoVentana np) → List VentanaTemporal → Generador np
  agotado : Generador np

pub record EjecutorGreedy (np : Numpy) : Type 0 where
  pub ventanas : List VentanaTemporal
  pub generador : Generador np
  pub historial : List (ResultadoVentana np)
  pub cerrado : Bool
  pub motivo_cierre : Option String

module _ (np : Numpy) (modelos : Modelos np) (a : Ajustes np) (y : List np.F)
    (configuracion : modelos.Configuracion) where
  abbrev pub agregado : List (ResultadoVentana np) → Result EvaluacionError np.F
  agregado rs = valor_agregado_de np rs a.metrica_objetivo a.agregacion a.proporcion_recorte

  abbrev pub una_ventana : VentanaTemporal → Result EvaluacionError (ResultadoVentana np)
  una_ventana = ejecutar_ventana np modelos a y configuracion

  -- `evaluar_walk_forward` behind `generar_ventanas`.
  unfoldable pub evaluar_ventanas :
      List VentanaTemporal → Result EvaluacionError (ResultadoWalkForward np)
  evaluar_ventanas ventanas = do
    resultados ← traverse una_ventana ventanas
    valor_agregado ← agregado resultados
    ok (record {
      ventanas = resultados;
      metrica_objetivo = a.metrica_objetivo;
      valor_agregado = valor_agregado;
      completo = true;
      n_ventanas_evaluadas = length resultados;
      n_ventanas_totales = length ventanas;
    })

  unfoldable pub evaluar_walk_forward : ℕ → ℕ → ℕ → Result EvaluacionError (ResultadoWalkForward np)
  unfolding evaluar_ventanas
  evaluar_walk_forward min_train horizonte paso = do
    ventanas ← generar_ventanas (length y) min_train horizonte paso
    evaluar_ventanas ventanas

  -- `next(generador)`: `none` is StopIteration. A generator that raised is finished.
  unfoldable pub siguiente :
      ℕ → Generador np → Result EvaluacionError (Option (EstadoParcial np)) × Generador np
  siguiente n_totales agotado = (ok none, agotado)
  siguiente n_totales (vivo [] []) =
      (err (valor "ventanas no puede ser vacio en el modo greedy"), agotado)
  siguiente n_totales (vivo (r ∷ rs) []) = (ok none, agotado)
  siguiente n_totales (vivo rs (v ∷ vs)) = elim (una_ventana v) [
    | err e ↦ (err e, agotado)
    | ok r ↦
        let historial = rs ++ r ∷ [] in
        elim (agregado historial) [
          | err e ↦ (err e, agotado)
          | ok x ↦ (
            ok (
                some (record {
                  ultima = r;
                  n_evaluadas = length historial;
                  n_totales = n_totales;
                  valor_parcial = x;
                })),
            vivo historial vs,
          )
        ]
  ]

  -- `EjecutorGreedy(...)`
  abbrev pub nuevo : List VentanaTemporal → EjecutorGreedy np
  nuevo ventanas = record {
    ventanas = ventanas;
    generador = vivo [] ventanas;
    historial = [];
    cerrado = false;
    motivo_cierre = none;
  }

  abbrev recibir :
      EjecutorGreedy np
      → Result EvaluacionError (Option (EstadoParcial np)) × Generador np
      → Result EvaluacionError (Option (EstadoParcial np)) × EjecutorGreedy np
  recibir e (err x, g) = (err x, record e { generador = g })
  recibir e (ok none, g) = (ok none, record e { generador = g; cerrado = true })
  recibir e (ok (some estado), g) =
      (ok (some estado), record e { generador = g; historial = e.historial ++ estado.ultima ∷ [] })

  unfoldable pub avanzar :
      EjecutorGreedy np → Result EvaluacionError (Option (EstadoParcial np)) × EjecutorGreedy np
  unfolding siguiente
  avanzar e =
      if e.cerrado then (ok none, e) else recibir e (siguiente (length e.ventanas) e.generador)

  unfoldable pub cerrar : String → EjecutorGreedy np → EjecutorGreedy np
  cerrar motivo e =
      if e.cerrado
      then e
      else record e { motivo_cierre = some motivo; generador = agotado; cerrado = true }

  abbrev sin_motivo : Option String → Bool
  sin_motivo none = true
  sin_motivo (some m) = false

  unfoldable pub resultado : EjecutorGreedy np → Result EvaluacionError (ResultadoWalkForward np)
  resultado e = do
    valor_agregado ← agregado e.historial
    ok (record {
      ventanas = e.historial;
      metrica_objetivo = a.metrica_objetivo;
      valor_agregado = valor_agregado;
      completo = sin_motivo e.motivo_cierre && nat_beq (length e.historial) (length e.ventanas);
      n_ventanas_evaluadas = length e.historial;
      n_ventanas_totales = length e.ventanas;
    })
