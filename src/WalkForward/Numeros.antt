-- ===== src/WalkForward/Numeros.antt =====
-- Floats and the NumPy functions that the metrics call: parameters of the model.
use pred_engine.Prelude.{ℕ, Bool, List}
use pred_engine.Prelude.Result.{Result}
use pred_engine.WalkForward.Ventanas.{EvaluacionError}

-- Arrays are one-dimensional. `emparejar` is broadcasting: it raises on shapes that do not fit.
pub record Numpy : Type 1 where
  pub F : Type 0
  pub inf : F
  pub nan : F
  pub cero : F
  pub medio : F
  pub cien : F
  pub lt : F → F → Bool
  pub le : F → F → Bool
  pub eq : F → F → Bool
  pub isfinite : F → Bool
  pub sumar : F → F → F
  pub restar : F → F → F
  pub multiplicar : F → F → F
  pub dividir : F → F → F
  pub absoluto : F → F
  pub sqrt : F → F
  pub mean : List F → F
  pub median : List F → F
  pub sort : List F → List F
  -- `int(math.floor(n * proporcion))`
  pub parte : ℕ → F → ℕ
  pub emparejar : List F → List F → Result EvaluacionError (List (F × F))
