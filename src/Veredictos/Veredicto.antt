-- ===== src/Veredictos/Veredicto.antt =====
-- veredictos.py: the verdict of one SKU on the block of test. The tests of hypotheses, the
-- intervals, the coverage and the text of the justification are left out: no verdict reads them.
use pred_engine.Prelude.{
  ℕ, String, Bool, false, Option, none, some, List, [], ◌∷◌, map, length, ltb, nat_beq, not, ◌&&◌,
  ◌||◌, if◌then◌else◌, ◌==◌, string_eq,
}
use pred_engine.Prelude.Result.{Result, ok, err, ◌>>=◌}
use pred_engine.Prelude.Sorted.{any, all, find, filter, sorted, str_lt}
use pred_engine.Enrutador.Contratos.{SkuClass}
use pred_engine.Veredictos.Contratos.{
  Flotantes, Metricas, MetricasCandidato, EvaluacionSku, EvaluacionBloques, PoliticaSeleccion,
  SeleccionCategoria, familia_linea_base,
}
use pred_engine.Veredictos.Seleccion.{representante, en}

pub data Veredicto : Type 0 where
  fallo_tecnico no_evaluable evidencia_insuficiente validado exploratorio : Veredicto

-- StopIteration of `next` when the chosen instance has no forecast in the block of test.
pub data VeredictoError : Type 0 where
  sin_instancia : String → VeredictoError

module _ (fl : Flotantes) where
  open fl use {F, uno, lt, ge, eq}

  pub record ModeloEvaluado : Type 0 where
    pub candidato_id : String
    pub familia : String
    pub modelo : String
    pub razon_sn : Option F

  pub record VeredictoSku : Type 0 where
    pub sku : String
    pub sku_class : SkuClass
    pub veredicto : Veredicto
    pub familia_campeona : String
    pub candidato_campeon : Option String
    pub n_ventanas : ℕ
    pub razon_sn : Option F
    pub pierde_frente_a_linea_base : Option Bool
    pub comparacion_incompleta : Bool
    pub metricas_campeon : Option (Metricas fl)
    pub metricas_linea_base : Option (Metricas fl)
    pub fallback_desde : Option String
    pub modelos_evaluados : List ModeloEvaluado

  abbrev pub tiene_familia : String → List (MetricasCandidato fl) → Bool
  tiene_familia f cs = any (λ c. c.familia == f) cs

  abbrev pub de_familia : String → List (MetricasCandidato fl) → List (MetricasCandidato fl)
  de_familia f cs = filter (λ c. c.familia == f) cs

  abbrev primero : List (MetricasCandidato fl) → Option (MetricasCandidato fl)
  primero [] = none
  primero (c ∷ cs) = some c

  abbrev exigir_instancia :
      String → Option (MetricasCandidato fl) → Result VeredictoError (Option (MetricasCandidato fl))
  exigir_instancia f none = err (sin_instancia f)
  exigir_instancia f (some c) = ok (some c)

  abbrev elegida :
      String
      → List (MetricasCandidato fl)
      → Option (MetricasCandidato fl × Metricas fl)
      → Result VeredictoError (Option (MetricasCandidato fl))
  elegida f prueba none = ok (primero prueba)
  elegida f prueba (some (c, m)) =
      exigir_instancia f (find (λ d. d.candidato_id == c.candidato_id) prueba)

  unfoldable pub instancia :
      EvaluacionBloques fl → String → Result VeredictoError (Option (MetricasCandidato fl))
  instancia e familia =
      if familia == familia_linea_base
      then ok (some e.prueba.linea_base)
      else elegida familia (de_familia familia e.prueba.candidatos)
          (representante fl e.seleccion familia)

  -- The key of the ranking: the median, then the name.
  abbrev pub antes : String × F → String × F → Bool
  antes a b = lt a.1 b.1 || (eq a.1 b.1 && str_lt a.0 b.0)

  -- The family that is judged, and the one it stands in for.
  abbrev con_fallback : String → Option (String × F) → String × Option String
  con_fallback familia none = (familia, none)
  con_fallback familia (some q) = (q.0, some familia)

  unfoldable pub familia_juzgada : EvaluacionSku fl → SeleccionCategoria F → String × Option String
  familia_juzgada prueba s =
      let familia = s.familia_campeona in
      if not (familia == familia_linea_base) && not (tiene_familia familia prueba.candidatos)
      then con_fallback familia (
          find (λ q. not (q.0 == familia) && tiene_familia q.0 prueba.candidatos)
            (sorted antes s.medianas_r))
      else (familia, none)

  abbrev pub esta_fallido : EvaluacionSku fl → MetricasCandidato fl → Bool
  esta_fallido prueba c =
      (ltb 0 c.n_ventanas_totales || ltb 0 prueba.linea_base.n_ventanas_totales)
      && nat_beq c.n_pronosticos_validos 0

  abbrev pub fallidos : EvaluacionSku fl → List (MetricasCandidato fl)
  fallidos prueba = filter (esta_fallido prueba) prueba.candidatos

  abbrev pub incompleta : EvaluacionSku fl → List String → Bool
  incompleta prueba elegibles =
      ltb 0 prueba.n_candidatos_fallidos || any (λ c. en c.familia elegibles) (fallidos prueba)

  abbrev pub todos_fallaron : EvaluacionSku fl → Bool
  todos_fallaron prueba =
      nat_beq (length (fallidos prueba)) (length prueba.candidatos)
      && (ltb 0 (length prueba.candidatos) || ltb 0 prueba.n_candidatos_fallidos)

  -- The champion has no instance, or its instances have windows and no forecast.
  abbrev pub sin_pronostico : List (MetricasCandidato fl) → Bool
  sin_pronostico instancias =
      nat_beq (length instancias) 0
      || (any (λ c. ltb 0 c.n_ventanas_totales) instancias
          && all (λ c. nat_beq c.n_pronosticos_validos 0) instancias)

  abbrev pub agregadas_de : Option (MetricasCandidato fl) → Option (Metricas fl)
  agregadas_de none = none
  agregadas_de (some c) = c.agregadas

  abbrev pub razon_de : Option (Metricas fl) → Option F
  razon_de none = none
  razon_de (some m) = m.razon_sn

  abbrev pub ventanas_de : Option (MetricasCandidato fl) → ℕ
  ventanas_de none = 0
  ventanas_de (some c) = c.n_ventanas_validas

  abbrev pub mejora : Option F → Bool
  mejora none = false
  mejora (some r) = lt r uno

  abbrev pub es_real : Option Bool → Bool
  es_real none = false
  es_real (some sinteticos) = not sinteticos

  -- The chain of tests, in the order of the source.
  unfoldable pub veredicto_de :
      EvaluacionSku fl
      → List (MetricasCandidato fl)
      → Option (MetricasCandidato fl)
      → PoliticaSeleccion fl
      → Option Bool
      → Veredicto
  veredicto_de prueba instancias campeon p datos_sinteticos =
      if todos_fallaron prueba || sin_pronostico instancias
      then fallo_tecnico
      else if nat_beq prueba.n_obs_validas_reserva 0
      then no_evaluable
      else if ltb (ventanas_de campeon) p.n_min || prueba.reserva_toda_cero
      then evidencia_insuficiente
      else if es_real datos_sinteticos
          && mejora (razon_de (agregadas_de campeon))
          && not (incompleta prueba (p.familias_elegibles prueba.sku_class))
      then validado
      else exploratorio

  abbrev pub instancias_de : EvaluacionSku fl → String → List (MetricasCandidato fl)
  instancias_de prueba familia =
      if familia == familia_linea_base
      then prueba.linea_base ∷ []
      else de_familia familia prueba.candidatos

  abbrev modelo_evaluado : MetricasCandidato fl → ModeloEvaluado
  modelo_evaluado c = record {
    candidato_id = c.candidato_id;
    familia = c.familia;
    modelo = c.modelo;
    razon_sn = razon_de c.agregadas;
  }

  abbrev pierde : Option F → Option Bool
  pierde none = none
  pierde (some r) = some (ge r uno)

  abbrev id_de : Option (MetricasCandidato fl) → Option String
  id_de none = none
  id_de (some c) = some c.candidato_id

  unfoldable pub veredicto_sku :
      EvaluacionBloques fl
      → SeleccionCategoria F
      → PoliticaSeleccion fl
      → Option Bool
      → Result VeredictoError VeredictoSku
  veredicto_sku e s p datos_sinteticos = do
    let prueba = e.prueba
    let familia = (familia_juzgada prueba s).0
    campeon ← instancia e familia
    ok (record {
      sku = prueba.sku;
      sku_class = prueba.sku_class;
      veredicto = veredicto_de prueba (instancias_de prueba familia) campeon p datos_sinteticos;
      familia_campeona = familia;
      candidato_campeon = id_de campeon;
      n_ventanas = ventanas_de campeon;
      razon_sn = razon_de (agregadas_de campeon);
      pierde_frente_a_linea_base = pierde (razon_de (agregadas_de campeon));
      comparacion_incompleta = incompleta prueba (p.familias_elegibles prueba.sku_class);
      metricas_campeon = agregadas_de campeon;
      metricas_linea_base = prueba.linea_base.agregadas;
      fallback_desde = (familia_juzgada prueba s).1;
      modelos_evaluados = map modelo_evaluado (prueba.linea_base ∷ prueba.candidatos);
    })
