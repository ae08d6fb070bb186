-- ===== src/Veredictos/Seleccion.antt =====
-- seleccion.py: the rule that picks the champion family of a category.
use pred_engine.Prelude.{
  ℕ, suc, String, Bool, true, false, Option, none, some, List, [], ◌∷◌, ◌++◌, map, length, ltb, not,
  ◌&&◌, ◌||◌, if◌then◌else◌, ◌==◌, string_eq,
}
use Prim.Native.String.{◌++◌ as ◌+++◌}
use pred_engine.Prelude.Result.{Result, ok, err, ◌>>=◌, traverse}
use pred_engine.Prelude.Sorted.{any, filter, minimo, sorted, str_lt}
use pred_engine.Enrutador.Contratos.{SkuClass}
use pred_engine.Veredictos.Contratos.{
  Flotantes, Metricas, MetricasCandidato, EvaluacionSku, PoliticaSeleccion, pares_comunes,
  SeleccionCategoria, menor_mediana, empate_por_simplicidad, compuerta_linea_base,
  sin_skus_comparables, familia_linea_base,
}

pub data SeleccionError : Type 0 where
  -- KeyError of `razones[s][f]`
  clave : String → SeleccionError
  -- ValueError of `min` on an empty list
  sin_minimo : SeleccionError

-- Dictionaries in the order in which their keys came.
module _ {A : Type 0} where
  unfoldable pub poner : String → A → List (String × A) → List (String × A)
  poner k v [] = (k, v) ∷ []
  poner k v ((j, w) ∷ r) = if j == k then (k, v) ∷ r else (j, w) ∷ poner k v r

  unfoldable pub buscar : String → List (String × A) → Result SeleccionError A
  buscar k [] = err (clave k)
  buscar k ((j, w) ∷ r) = if j == k then ok w else buscar k r

abbrev pub en : String → List String → Bool
en f fs = any (λ g. g == f) fs

abbrev pub sin_repetir : List String → List String
sin_repetir [] = []
sin_repetir (f ∷ fs) = let r = sin_repetir fs in if en f fs then r else f ∷ r

abbrev pub indice : String → List String → ℕ
indice f [] = 0
indice f (g ∷ gs) = let i = indice f gs in if g == f then 0 else suc i

module _ (fl : Flotantes) where
  open fl use {F, uno, lt, ge, eq, restar, median}

  abbrev con_agregadas :
      MetricasCandidato fl
      → Option (Metricas fl)
      → List (MetricasCandidato fl × Metricas fl)
      → List (MetricasCandidato fl × Metricas fl)
  con_agregadas c none r = r
  con_agregadas c (some m) r = (c, m) ∷ r

  -- The list of options, each beside its metrics, which are not None.
  abbrev opciones : String → List (MetricasCandidato fl) → List (MetricasCandidato fl × Metricas fl)
  opciones f [] = []
  opciones f (c ∷ cs) =
      let r = opciones f cs in if c.familia == f then con_agregadas c c.agregadas r else r

  unfoldable pub representante :
      EvaluacionSku fl → String → Option (MetricasCandidato fl × Metricas fl)
  representante e f = minimo (λ a b. lt a.1.rmse b.1.rmse) (opciones f e.candidatos)

  abbrev razon_de : Option (MetricasCandidato fl × Metricas fl) → Option (MetricasCandidato fl × F)
  razon_de none = none
  razon_de (some (c, m)) = elim m.razon_sn [ none ↦ none | some r ↦ some (c, r) ]

  -- The body of the inner loop for one family: its ratio, or why the SKU is left out.
  abbrev razon_familia :
      ℕ → MetricasCandidato fl → String → Option (MetricasCandidato fl × F) → Result String F
  razon_familia n_min linea_base f none = err ("sin_razon_calculable:" +++ f)
  razon_familia n_min linea_base f (some (c, r)) =
      if ltb (length (pares_comunes fl c linea_base)) n_min
      then err ("pocas_ventanas:" +++ f)
      else ok r

  unfoldable pub por_familia :
      ℕ → EvaluacionSku fl → List String → Result String (List (String × F))
  por_familia n_min e [] = ok []
  por_familia n_min e (f ∷ fs) = do
    r ← razon_familia n_min e.linea_base f (razon_de (representante e f))
    rs ← por_familia n_min e fs
    ok ((f, r) ∷ rs)

  abbrev pub Razones : Type 0
  Razones = List (String × List (String × F))

  abbrev anotar :
      String
      → Result String (List (String × F))
      → Razones × List (String × String)
      → Razones × List (String × String)
  anotar sku (ok rs) (razones, excluidos) = (poner sku rs razones, excluidos)
  anotar sku (err motivo) (razones, excluidos) = (razones, poner sku motivo excluidos)

  -- The loop on the evaluations.
  unfoldable pub recoger :
      ℕ
      → List String
      → List (EvaluacionSku fl)
      → Razones × List (String × String)
      → Razones × List (String × String)
  recoger n_min familias [] acc = acc
  recoger n_min familias (e ∷ es) acc =
      recoger n_min familias es (anotar e.sku (por_familia n_min e familias) acc)

  abbrev pub entregadas : List (EvaluacionSku fl) → List String
  entregadas [] = []
  entregadas (e ∷ es) = map (λ c. c.familia) e.candidatos ++ entregadas es

  abbrev pub mediana_de : Razones → List String → String → Result SeleccionError (String × F)
  mediana_de razones comparables f = do
    xs ← traverse (λ s. do rs ← buscar s razones; buscar f rs) comparables
    ok (f, median xs)

  -- `_simplicidad`, compared as a tuple
  abbrev pub mas_simple : PoliticaSeleccion fl → String × F → String × F → Bool
  mas_simple p a b =
      let i = indice a.0 p.orden_simplicidad in
      let j = indice b.0 p.orden_simplicidad in ltb i j || (not (ltb j i) && str_lt a.0 b.0)

  abbrev pub empata : PoliticaSeleccion fl → F → String × F → Bool
  empata p mejor q = lt q.1 uno && (eq q.1 mejor || lt (restar q.1 mejor) p.tolerancia_empate)

  abbrev pub exigir : {A : Type 0} → Option A → Result SeleccionError A
  exigir none = err sin_minimo
  exigir (some x) = ok x

  -- From `medianas` on.
  unfoldable pub elegir :
      PoliticaSeleccion fl
      → SeleccionCategoria F
      → List (String × F)
      → Result SeleccionError (SeleccionCategoria F)
  elegir p s medianas = do
    mejor ← exigir (minimo lt (map (λ q. q.1) medianas))
    let empatadas = filter (empata p mejor) medianas
    if ge mejor uno
        then ok (record s { medianas_r = medianas; adverso = true; motivo = compuerta_linea_base })
        else do
          ganadora ← exigir (minimo (mas_simple p) empatadas)
          ok (record s {
            familia_campeona = ganadora.0;
            medianas_r = medianas;
            motivo = if ltb 1 (length empatadas) then empate_por_simplicidad else menor_mediana;
          })

  abbrev pub vacia : {A : Type 0} → List A → Bool
  vacia [] = true
  vacia (x ∷ xs) = false

  -- The result when nothing can be compared, whose exclusions every result has.
  abbrev pub sin_comparables :
      SkuClass
      → List (EvaluacionSku fl)
      → PoliticaSeleccion fl
      → List String
      → List (String × String)
      → SeleccionCategoria F
  sin_comparables clase evaluaciones p comparables excluidos =
      let elegibles = p.familias_elegibles clase in
      let dadas = entregadas evaluaciones in
      record {
        sku_class = clase;
        familia_campeona = familia_linea_base;
        medianas_r = [];
        adverso = false;
        motivo = sin_skus_comparables;
        skus_comparables = comparables;
        excluidos = excluidos;
        familias_excluidas =
            map (λ f. (f, "no_entregada")) (filter (λ f. not (en f dadas)) elegibles)
            ++ map (λ f. (f, "no_elegible"))
                (filter (λ f. not (en f elegibles)) (sin_repetir dadas));
      }

  unfoldable pub seleccionar_categoria :
      SkuClass
      → List (EvaluacionSku fl)
      → PoliticaSeleccion fl
      → Result SeleccionError (SeleccionCategoria F)
  unfolding elegir recoger
  seleccionar_categoria clase evaluaciones p =
      let elegibles = p.familias_elegibles clase in
      let dadas = entregadas evaluaciones in
      let familias = sorted str_lt (filter (λ f. en f dadas) elegibles) in
      let recogidas = recoger p.n_min familias evaluaciones ([], []) in
      let comparables = sorted str_lt (map (λ q. q.0) recogidas.0) in
      let base = sin_comparables clase evaluaciones p comparables recogidas.1 in
      if vacia familias || vacia comparables then ok base else do
        medianas ← traverse (mediana_de recogidas.0 comparables) familias
        elegir p base medianas
