-- ===== src/WalkForward/Metricas.antt =====
-- metricas.py: the errors of one window and their aggregation over windows.
use pred_engine.Prelude.{
  ℕ, ◌-◌, ◌*◌, String, Bool, true, false, Option, none, some, List, [], ◌∷◌, map, length, take,
  drop, ltb, leb, not, ◌&&◌, ◌||◌, if◌then◌else◌, ◌==◌, string_eq, ◌≡◌, refl, arith,
}
use pred_engine.Prelude.Result.{Result, ok, err, ◌>>=◌, ◌>>◌, raise_if}
use pred_engine.WalkForward.Ventanas.{VentanaTemporal, EvaluacionError, valor}
use pred_engine.WalkForward.Numeros.{Numpy}

pub data Estrategia : Type 0 where
  media mediana media_recortada : Estrategia

module _ (np : Numpy) where
  open np use {
    F, inf, nan, cero, medio, cien, lt, le, eq, isfinite, sumar, restar, multiplicar, dividir,
    absoluto, sqrt, mean, median, sort, parte, emparejar,
  }

  pub record Metricas : Type 0 where
    pub mae : F
    pub rmse : F
    pub smape : F
    pub mase : F

  -- `metricas.get(nombre, nan)`
  unfoldable pub obtener : Metricas → String → F
  obtener m nombre =
      if nombre == "mae"
      then m.mae
      else if nombre == "rmse"
      then m.rmse
      else if nombre == "smape"
      then m.smape
      else if nombre == "mase"
      then m.mase
      else nan

  -- `np.abs(y_real - y_pred)`
  abbrev diferencias : List F → List F → Result EvaluacionError (List F)
  diferencias a b = do pares ← emparejar a b; ok (map (λ p. absoluto (restar p.0 p.1)) pares)

  unfoldable pub mae : List F → List F → Result EvaluacionError F
  mae y_real y_pred = do d ← diferencias y_real y_pred; ok (mean d)

  unfoldable pub rmse : List F → List F → Result EvaluacionError F
  rmse y_real y_pred = do
    pares ← emparejar y_real y_pred
    ok (sqrt (mean (map (λ p. let d = restar p.0 p.1 in multiplicar d d) pares)))

  -- `np.divide` where the denominator is not 0, and 0 elsewhere.
  abbrev termino_smape : F × F → F
  termino_smape p =
      let denominador = multiplicar (sumar (absoluto p.0) (absoluto p.1)) medio in
      if eq denominador cero then cero else dividir (absoluto (restar p.0 p.1)) denominador

  unfoldable pub smape : List F → List F → Result EvaluacionError F
  smape y_real y_pred = do
    pares ← emparejar y_real y_pred
    ok (multiplicar (mean (map termino_smape pares)) cien)

  -- The two slices have one length, so they are paired from the front.
  abbrev diffs_naive : List F → List F → List F
  diffs_naive [] bs = []
  diffs_naive (a ∷ ys) [] = []
  diffs_naive (a ∷ ys) (b ∷ bs) = absoluto (restar a b) ∷ diffs_naive ys bs

  unfoldable pub mase : List F → List F → List F → ℕ → Result EvaluacionError F
  mase y_real y_pred y_train estacionalidad = do
    raise_if (ltb estacionalidad 1) (valor "estacionalidad debe ser >= 1")
    let n = length y_train
    let denominador =
        mean (diffs_naive (drop estacionalidad y_train) (take (n - estacionalidad) y_train))
    if leb n estacionalidad
        then ok inf
        else if not (isfinite denominador) || eq denominador cero
        then ok inf
        else (do d ← diferencias y_real y_pred; ok (dividir (mean d) denominador))

  unfoldable pub calcular_metricas : List F → List F → List F → ℕ → Result EvaluacionError Metricas
  unfolding mae rmse smape mase
  calcular_metricas y_real y_pred y_train estacionalidad = do
    a ← mae y_real y_pred
    b ← rmse y_real y_pred
    c ← smape y_real y_pred
    d ← mase y_real y_pred y_train estacionalidad
    ok (record { mae = a; rmse = b; smape = c; mase = d })

  abbrev pub finitos : List F → List F
  finitos [] = []
  finitos (x ∷ xs) = let r = finitos xs in if isfinite x then x ∷ r else r

  -- `0.0 <= proporcion_recorte < 0.5`
  abbrev pub proporcion_valida : F → Bool
  proporcion_valida p = le cero p && lt p medio

  -- `ordenado[recorte : n - recorte]`
  abbrev pub recortados : ℕ → List F → List F
  recortados recorte ordenado =
      let n = length ordenado in take (n - recorte - recorte) (drop recorte ordenado)

  unfoldable pub media_de_recortados : List F → F → F
  media_de_recortados ordenado proporcion =
      let n = length ordenado in
      let recorte = parte n proporcion in
      if leb recorte 0 || leb n (recorte * 2)
      then mean ordenado
      else mean (recortados recorte ordenado)

  abbrev agregar_finitos : Estrategia → F → List F → Result EvaluacionError F
  agregar_finitos e proporcion [] = ok inf
  agregar_finitos media proporcion (x ∷ xs) = ok (mean (x ∷ xs))
  agregar_finitos mediana proporcion (x ∷ xs) = ok (median (x ∷ xs))
  agregar_finitos media_recortada proporcion (x ∷ xs) = do
    raise_if (not (proporcion_valida proporcion))
        (valor "proporcion_recorte debe estar en [0, 0.5)")
    ok (media_de_recortados (sort (x ∷ xs)) proporcion)

  unfoldable pub agregar : Estrategia → F → List F → Result EvaluacionError F
  agregar e proporcion [] = err (valor "valores no puede estar vacio")
  agregar e proporcion (x ∷ xs) = agregar_finitos e proporcion (finitos (x ∷ xs))

  -- `duracion_s`, a clock reading that nothing reads back, is left out.
  pub record ResultadoVentana : Type 0 where
    pub ventana : VentanaTemporal
    pub metricas : Metricas
    pub y_train : List F
    pub y_real : List F
    pub y_pred : List F
    pub fallo : Option String

  abbrev sin_fallo : Option String → Bool
  sin_fallo none = true
  sin_fallo (some e) = false

  abbrev pub valores_de : String → List ResultadoVentana → List F
  valores_de metrica [] = []
  valores_de metrica (r ∷ rs) =
      let v = obtener r.metricas metrica in
      let resto = valores_de metrica rs in
      if sin_fallo r.fallo && isfinite v then v ∷ resto else resto

  abbrev agregar_o_inf : Estrategia → F → List F → Result EvaluacionError F
  agregar_o_inf e proporcion [] = ok inf
  agregar_o_inf e proporcion (x ∷ xs) = agregar e proporcion (x ∷ xs)

  unfoldable pub valor_agregado_de :
      List ResultadoVentana → String → Estrategia → F → Result EvaluacionError F
  valor_agregado_de resultados metrica_objetivo e proporcion =
      agregar_o_inf e proporcion (valores_de metrica_objetivo resultados)

  agregar_finitos_total :
      (e : Estrategia) (p : F) (xs : List F)
      → proporcion_valida p ≡ true
      → (v : F) × (agregar_finitos e p xs ≡ ok v)
  agregar_finitos_total e p [] h = (inf, refl)
  agregar_finitos_total media p (x ∷ xs) h = (mean (x ∷ xs), refl)
  agregar_finitos_total mediana p (x ∷ xs) h = (median (x ∷ xs), refl)
  agregar_finitos_total media_recortada p (x ∷ xs) h =
      (media_de_recortados (sort (x ∷ xs)) p, ground arith)

  agregar_o_inf_total :
      (e : Estrategia) (p : F) (xs : List F)
      → proporcion_valida p ≡ true
      → (v : F) × (agregar_o_inf e p xs ≡ ok v)
  unfolding agregar
  agregar_o_inf_total e p [] h = (inf, refl)
  agregar_o_inf_total e p (x ∷ xs) h = agregar_finitos_total e p (finitos (x ∷ xs)) h

  -- With a valid proportion the aggregate is always computed.
  pub valor_agregado_total :
      (rs : List ResultadoVentana) (metrica : String) (e : Estrategia) (p : F)
      → proporcion_valida p ≡ true
      → (v : F) × (valor_agregado_de rs metrica e p ≡ ok v)
  unfolding valor_agregado_de
  valor_agregado_total rs metrica e p h = agregar_o_inf_total e p (valores_de metrica rs) h
