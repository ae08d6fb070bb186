-- ===== src/Evidencia/Evaluacion.antt =====
-- persistencia_evidencia/repositorio.py: the rows that `guardar_evaluacion` writes and the keys of their
-- tables. The rows of the portfolio, of the significance, of
-- the confirmations and of the intervals are left out.
use pred_engine.Prelude.{
  String, Bool, true, false, not, ℕ, Option, none, some, List, [], ◌∷◌, ◌++◌, ◌==◌, ◌&&◌, ◌||◌,
  string_eq, nat_eq, if◌then◌else◌, length,
}
use pred_engine.Prelude.Sorted.{any, filter}
use pred_engine.Prelude.Result.{Result, ok, err, ◌>>=◌}
use pred_engine.Enrutador.Contratos.{sku_class_eq}
use pred_engine.Veredictos.Contratos.{
  Metricas, MetricasVentana, MetricasCandidato, EvaluacionSku, EvaluacionBloques,
  SeleccionCategoria,
}
use pred_engine.Veredictos.Veredicto.{VeredictoSku}
use pred_engine.Evidencia.Contratos.{
  EstadoCorrida, evaluada, seleccionada, EvidenciaError, sin_clave, Corrida, De, Externo, Unidad,
  Cifra, cuenta, flotante, FilaMetrica, Observacion,
}
use pred_engine.Evidencia.Registro.{mismo_bool}
use pred_engine.Evidencia.Unidades.{tiene_sku}

abbrev pub admite_evaluacion : EstadoCorrida → Bool
admite_evaluacion evaluada = true
admite_evaluacion seleccionada = true
admite_evaluacion _ = false

abbrev pub mismo_origen : Option Bool → Corrida → Bool
mismo_origen none c = not c.origen_declarado
mismo_origen (some s) c = c.origen_declarado && mismo_bool s c.datos_sinteticos

module _ (x : Externo) where
  open x use {fl}

  -- The fields of ResultadoEvaluacion that are stored here.
  pub record ResultadoEvaluacion : Type 0 where
    pub version_politica : String
    pub version_metricas : String
    pub datos_sinteticos : Option Bool
    pub categorias : List (SeleccionCategoria fl.F)
    pub skus : List (VeredictoSku fl)

  abbrev pub Demanda : Type 0
  Demanda = List (String × List (ℕ × fl.F))

  abbrev pub modelos : EvaluacionSku fl → List (MetricasCandidato fl)
  modelos e = e.linea_base ∷ e.candidatos

  abbrev pub de_modelo : String → String → String → List Unidad → List Unidad
  de_modelo r sku cid us =
      filter (λ u. (u.run_id == r) && (u.sku == sku) && (u.candidato_id == cid)) us

  abbrev pub es_nula : ℕ → Bool
  es_nula n = n == 0

  -- The origins of a model are as many as its units, by the primary key.
  abbrev pub sin_confirmar : String → String → List Unidad → MetricasCandidato fl → Bool
  sin_confirmar r sku us c =
      let propias = de_modelo r sku c.candidato_id us in
      not (length propias == c.n_ventanas_totales)
      || any (λ (v : MetricasVentana fl). not (any (λ (u : Unidad). u.origen == v.origen) propias))
          c.por_ventana

  abbrev pub mal_evaluado : String → List Unidad → EvaluacionBloques fl → Bool
  mal_evaluado r us e = any (sin_confirmar r e.reserva.sku us) (modelos e.reserva)

  -- `_filas`: the six metrics.
  abbrev pub o_flotante : Option fl.F → Option (Cifra fl.F)
  o_flotante none = none
  o_flotante (some v) = some (flotante v)

  abbrev pub fila : String → String → Option ℕ → String → Option (Cifra fl.F) → FilaMetrica fl.F
  fila sku cid ventana nombre valor = record {
    sku = sku;
    candidato_id = cid;
    ventana = ventana;
    metrica = nombre;
    valor = valor;
  }

  abbrev pub filas : String → String → Option ℕ → Metricas fl → List (FilaMetrica fl.F)
  filas sku cid v m =
      fila sku cid v "n_pares" (some (cuenta m.n_pares))
      ∷ fila sku cid v "mae" (some (flotante m.mae))
      ∷ fila sku cid v "rmse" (some (flotante m.rmse))
      ∷ fila sku cid v "me" (some (flotante m.me))
      ∷ fila sku cid v "mase" (o_flotante m.mase)
      ∷ fila sku cid v "razon_sn" (o_flotante m.razon_sn)
      ∷ []

  abbrev pub por_ventana : String → String → List (MetricasVentana fl) → List (FilaMetrica fl.F)
  por_ventana sku cid [] = []
  por_ventana sku cid (v ∷ vs) = filas sku cid (some v.origen) v.metricas ++ por_ventana sku cid vs

  abbrev pub agregadas : String → String → Option (Metricas fl) → List (FilaMetrica fl.F)
  agregadas sku cid none = []
  agregadas sku cid (some m) = filas sku cid none m

  abbrev pub conteos : String → MetricasCandidato fl → List (FilaMetrica fl.F)
  conteos sku c =
      fila sku c.candidato_id none "n_ventanas_totales" (some (cuenta c.n_ventanas_totales))
      ∷ fila sku c.candidato_id none "n_ventanas_validas" (some (cuenta c.n_ventanas_validas))
      ∷ fila sku c.candidato_id none "n_pronosticos_validos" (some (cuenta c.n_pronosticos_validos))
      ∷ []

  -- `prueba[candidato.candidato_id]`: what is set last stays.
  abbrev pub en_prueba : String → List (MetricasCandidato fl) → Option (MetricasCandidato fl)
  en_prueba cid [] = none
  en_prueba cid (c ∷ cs) = elim (en_prueba cid cs) [
    | some d ↦ some d
    | none ↦ if c.candidato_id == cid then some c else none
  ]

  abbrev pub de_bloque :
      String → Option (MetricasCandidato fl) → Result EvidenciaError (List (FilaMetrica fl.F))
  de_bloque sku none = err sin_clave
  de_bloque sku (some bloque) =
      ok (agregadas sku bloque.candidato_id bloque.agregadas ++ conteos sku bloque)

  abbrev pub de_candidatos :
      String
      → List (MetricasCandidato fl)
      → List (MetricasCandidato fl)
      → Result EvidenciaError (List (FilaMetrica fl.F))
  de_candidatos sku prueba [] = ok []
  de_candidatos sku prueba (c ∷ cs) = do
    bloque ← de_bloque sku (en_prueba c.candidato_id prueba)
    resto ← de_candidatos sku prueba cs
    ok (por_ventana sku c.candidato_id c.por_ventana ++ (bloque ++ resto))

  -- `_filas_metricas`, for each evaluation.
  abbrev pub filas_metricas :
      List (EvaluacionBloques fl) → Result EvidenciaError (List (FilaMetrica fl.F))
  filas_metricas [] = ok []
  filas_metricas (e ∷ es) = do
    propias ← de_candidatos e.reserva.sku (modelos e.prueba) (modelos e.reserva)
    resto ← filas_metricas es
    ok (propias ++ resto)

  -- The primary keys, and the foreign key of a verdict to its category.
  abbrev pub misma_ventana : Option ℕ → Option ℕ → Bool
  misma_ventana none none = true
  misma_ventana (some v) (some w) = v == w
  misma_ventana _ _ = false

  abbrev pub misma_metrica : De (FilaMetrica fl.F) → De (FilaMetrica fl.F) → Bool
  misma_metrica f g =
      (f.0 == g.0)
      && (f.1.sku == g.1.sku)
      && (f.1.candidato_id == g.1.candidato_id)
      && misma_ventana f.1.ventana g.1.ventana
      && (f.1.metrica == g.1.metrica)

  abbrev pub misma_categoria : De (SeleccionCategoria fl.F) → De (SeleccionCategoria fl.F) → Bool
  misma_categoria f g = (f.0 == g.0) && (f.1.sku_class == g.1.sku_class)

  abbrev pub mismo_veredicto : De (VeredictoSku fl) → De (VeredictoSku fl) → Bool
  mismo_veredicto f g = (f.0 == g.0) && (f.1.sku == g.1.sku)

  abbrev pub misma_observacion : De (Observacion fl.F) → De (Observacion fl.F) → Bool
  misma_observacion f g = (f.0 == g.0) && (f.1.sku == g.1.sku) && (f.1.fecha == g.1.fecha)

  abbrev pub sin_referencia :
      List (De String) → List (De (SeleccionCategoria fl.F)) → De (VeredictoSku fl) → Bool
  sin_referencia skus categorias (r, v) =
      not (tiene_sku x r v.sku skus)
      || not (any (λ c. (c.0 == r) && (c.1.sku_class == v.sku_class)) categorias)
