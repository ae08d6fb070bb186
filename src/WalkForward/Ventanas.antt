-- ===== src/WalkForward/Ventanas.antt =====
-- ventanas.py and `VentanaTemporal` of validacion_temporal.py.
use pred_engine.Prelude.{
  ℕ, zero, suc, ◌+◌, ◌-◌, String, List, [], ◌∷◌, ◌++◌, length, leb, ltb, nat_beq, not,
  if◌then◌else◌,
}
use pred_engine.Prelude.Result.{Result, ok, err, ◌>>=◌, ◌>>◌, raise_if}

pub data EvaluacionError : Type 0 where
  -- ValueError, by its message
  valor : String → EvaluacionError
  -- VentanaInsuficienteError
  ventana_insuficiente : ℕ → ℕ → EvaluacionError
  -- an exception of a model or of NumPy, as `type: message`
  fallo_modelo : String → EvaluacionError

pub record VentanaTemporal : Type 0 where
  pub indice : ℕ
  pub inicio_train : ℕ
  pub fin_train : ℕ
  pub inicio_val : ℕ
  pub fin_val : ℕ

-- The constructor, with the checks of `__post_init__`.
unfoldable pub ventana_temporal : VentanaTemporal → Result EvaluacionError VentanaTemporal
ventana_temporal v = do
  raise_if (not (nat_beq v.inicio_val v.fin_train))
      (valor "inicio_val debe ser igual a fin_train (sin hueco ni solape)")
  raise_if (leb v.fin_val v.inicio_val) (valor "fin_val debe ser mayor que inicio_val")
  raise_if (leb v.fin_train v.inicio_train) (valor "fin_train debe ser mayor que inicio_train")
  ok v

abbrev pub horizonte_de : VentanaTemporal → ℕ
horizonte_de v = v.fin_val - v.inicio_val

-- The loop `while fin_train + horizonte <= n_observaciones`, with fuel.
unfoldable pub recorrer_ventanas :
    ℕ → ℕ → ℕ → ℕ → ℕ → List VentanaTemporal → Result EvaluacionError (List VentanaTemporal)
unfolding ventana_temporal
recorrer_ventanas zero n horizonte paso fin_train ventanas = err (valor "sin combustible")
recorrer_ventanas (suc f) n horizonte paso fin_train ventanas =
    let sigue =
      ventana_temporal (record {
        indice = length ventanas;
        inicio_train = 0;
        fin_train = fin_train;
        inicio_val = fin_train;
        fin_val = fin_train + horizonte;
      })
      >>= λ v. recorrer_ventanas f n horizonte paso (fin_train + paso) (ventanas ++ v ∷ []) in
    if leb (fin_train + horizonte) n then sigue else ok ventanas

unfoldable pub generar_ventanas : ℕ → ℕ → ℕ → ℕ → Result EvaluacionError (List VentanaTemporal)
unfolding recorrer_ventanas
generar_ventanas n min_train horizonte paso = do
  raise_if (ltb min_train 1) (valor "min_train debe ser >= 1")
  raise_if (ltb horizonte 1) (valor "horizonte debe ser >= 1")
  raise_if (ltb paso 1) (valor "paso debe ser >= 1")
  raise_if (ltb n (min_train + horizonte)) (ventana_insuficiente (min_train + horizonte) n)
  recorrer_ventanas (suc n) n horizonte paso min_train []
