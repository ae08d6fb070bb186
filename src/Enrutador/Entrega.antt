-- ===== src/Enrutador/Entrega.antt =====
-- From `route` to the manifest: what M3 gets of the winners of one product.
use Prim.Native.String.{◌++◌ as concat}
use text.Mathlib.TextEquality.{eq_iff}
use text.Mathlib.TextLemmas.{append_cancel_left}
use pred_engine.Prelude.{
  String, ◌≡◌, ◌≢◌, refl, sym, ap, ap₂, ◌∙◌, ◌⊎◌, inl, inr, true, false, ◌==◌, string_eq, some,
  List, [], ◌∷◌, map, Todos, subst, arith,
}
use pred_engine.Prelude.Result.{ok, traverse-Pares, Pares, nil, cons, ok_injective}
use pred_engine.Enrutador.Contratos.{
  Familia, classical, ml, dl, foundation, SkuClass, smooth, erratic, intermittent, lumpy,
  SelectionRequest, SelectionResult, RoutingDecision,
}
use pred_engine.Enrutador.Politica.{initial_topology_policy, families_by_sku_class}
use pred_engine.Enrutador.Registro.{StrategyRegistry}
use pred_engine.Enrutador.Router.{SelectionRouter, route}
use pred_engine.Enrutador.Matriz.{plan_inicial}
use pred_engine.Enrutador.Rutas.{Responde, route-Responde}
use pred_engine.Enrutador.Manifiesto.{
  nombre_familia, modelo_por_familia, CandidatoCrudo, configuracion_declarada, candidato_id,
  candidato_con, candidato, construir_candidatos,
}

-- The model that stands for a family.
pub data EsModelo : Familia → String → Type 0 where
  sarima : {m : String} → m ≡ "sarima" → EsModelo classical m
  lightgbm : {m : String} → m ≡ "lightgbm" → EsModelo ml m
  mlp : {m : String} → m ≡ "mlp" → EsModelo dl m
  chronos2 : {m : String} → m ≡ "chronos2" → EsModelo foundation m

modelo-EsModelo : (f : Familia) → EsModelo f (modelo_por_familia f)
unfolding modelo_por_familia
modelo-EsModelo classical = sarima refl
modelo-EsModelo ml = lightgbm refl
modelo-EsModelo dl = mlp refl
modelo-EsModelo foundation = chronos2 refl

-- No text comes twice.
abbrev pub Distintos : List String → Type 0
Distintos [] = Unit
Distintos (t ∷ ts) = Todos (λ u. t ≢ u) ts × Distintos ts

-- What follows the product in the id of a candidate.
sufijo : Familia → String
sufijo f = concat "/" (concat (nombre_familia f) (concat "/" (modelo_por_familia f)))

distinto : (t s u : String) → (s == u) ≡ false → concat t s ≢ concat t u
distinto t s u h e =
    let igual : (s == u) ≡ true = (eq_iff s u).1 (append_cancel_left t s u e) in cc (igual, h)

module _ {Json : Type 0} (chronos2_fijado : Json) where
  -- A candidate is of the product that was asked for, has the model of its family and the seed of its
  -- result, and the configuration that won: that of the result, but for the foundation family, which
  -- has the frozen one.
  pub record Entregado (request : SelectionRequest) (r : SelectionResult Json)
      (c : CandidatoCrudo Json) : Type 0 where
    pub sku : c.sku ≡ request.sku_id
    pub sku_class : c.sku_class ≡ request.sku_class
    pub modelo : EsModelo c.familia c.modelo
    pub semilla : c.semilla ≡ r.forecast_seed
    pub configuracion :
        ((c.familia ≡ foundation) × (c.configuracion ≡ chronos2_fijado))
        ⊎ ((c.familia ≢ foundation) × (r.forecast_config ≡ some c.configuracion))

  candidato-con :
      (r : SelectionResult Json) (c : CandidatoCrudo Json)
      → candidato chronos2_fijado r ≡ ok c
      → (config : Json) × (r.forecast_config ≡ some config)
        × (c ≡ candidato_con chronos2_fijado r config)
  unfolding candidato
  candidato-con r c h = ground arith

  ganadora :
      (f : Familia) (config : Json)
      → ((f ≡ foundation) × (configuracion_declarada chronos2_fijado f config ≡ chronos2_fijado))
        ⊎ ((f ≢ foundation) × (config ≡ configuracion_declarada chronos2_fijado f config))
  unfolding configuracion_declarada
  ganadora classical config = inr (λ e. cc e, refl)
  ganadora ml config = inr (λ e. cc e, refl)
  ganadora dl config = inr (λ e. cc e, refl)
  ganadora foundation config = inl (refl, refl)

module _ {Json Wf : Type 0} (chronos2_fijado : Json) (registro : StrategyRegistry Json Wf)
    (request : SelectionRequest) where
  -- The router of a run: the approved matrix, and the strategies that were registered.
  abbrev pub del_hito : SelectionRouter Json Wf
  del_hito = record { policy = initial_topology_policy; registry = registro }

  entregado :
      (r : SelectionResult Json) (c : CandidatoCrudo Json)
      → r.sku_id ≡ request.sku_id
      → r.sku_class ≡ request.sku_class
      → candidato chronos2_fijado r ≡ ok c
      → Entregado chronos2_fijado request r c
        × (c.familia ≡ r.family)
        × (c.candidato_id ≡ candidato_id chronos2_fijado request.sku_id r.family)
  entregado r c es_sku es_clase h =
      let (config, e, d) = candidato-con chronos2_fijado r c h in
      let familia = ap (λ (t : CandidatoCrudo Json). t.familia) d in
      let P : CandidatoCrudo Json → Type 0 = λ w.
        Entregado chronos2_fijado request r w
        × (w.familia ≡ r.family)
        × (w.candidato_id ≡ candidato_id chronos2_fijado request.sku_id r.family) in
      subst P (sym d) (
        record {
          sku = es_sku;
          sku_class = es_clase;
          modelo = modelo-EsModelo r.family;
          semilla = refl;
          configuracion = elim (ganadora chronos2_fijado r.family config) [
            | inl fija ↦ inl fija
            | inr (no_es, son) ↦ inr (no_es, e ∙ ap some son)
          ];
        },
        refl,
        ap (λ s. candidato_id chronos2_fijado s r.family) es_sku,
      )

  -- Each decision with the candidate of its result.
  de_las_decisiones :
      (ds : List RoutingDecision) (rs : List (SelectionResult Json))
      (cs : List (CandidatoCrudo Json))
      → Pares (Responde del_hito request) ds rs
      → Pares (λ r c. candidato chronos2_fijado r ≡ ok c) rs cs
      → Pares (Entregado chronos2_fijado request) rs cs
        × (map (λ (c : CandidatoCrudo Json). c.familia) cs
            ≡ map (λ (d : RoutingDecision). d.family) ds)
        × (map (λ (c : CandidatoCrudo Json). c.candidato_id) cs
            ≡ map
                (candidato_id chronos2_fijado request.sku_id)
                (map (λ (d : RoutingDecision). d.family) ds))
  de_las_decisiones _ _ _ nil nil = (nil, refl, refl)
  de_las_decisiones _ _ _ (cons {x = d} {y = r} {xs = ds} {ys = rs} a as')
        (cons {y = c} {ys = cs} h hs) =
      let (e, familia, id) = entregado r c a.sku_id a.sku_class h in
      let (es, familias, ids) = de_las_decisiones ds rs cs as' hs in
      (
        cons e es,
        ap₂ ◌∷◌ (familia ∙ a.family) familias,
        ap₂ ◌∷◌ (id ∙ ap (candidato_id chronos2_fijado request.sku_id) a.family) ids,
      )

  distintas :
      (f g : Familia)
      → (sufijo f == sufijo g) ≡ false
      → candidato_id chronos2_fijado request.sku_id f
        ≢ candidato_id chronos2_fijado request.sku_id g
  unfolding sufijo
  distintas f g h = distinto request.sku_id (sufijo f) (sufijo g) h

  ids-Distintos :
      (c : SkuClass)
      → Distintos (map (candidato_id chronos2_fijado request.sku_id) (families_by_sku_class c))
  unfolding families_by_sku_class sufijo nombre_familia modelo_por_familia
  ids-Distintos smooth = (
    (
      distintas classical ml refl,
      (distintas classical dl refl, (distintas classical foundation refl, tt)),
    ),
    (
      (distintas ml dl refl, (distintas ml foundation refl, tt)),
      ((distintas dl foundation refl, tt), (tt, tt)),
    ),
  )
  ids-Distintos erratic = (
    (
      distintas classical ml refl,
      (distintas classical dl refl, (distintas classical foundation refl, tt)),
    ),
    (
      (distintas ml dl refl, (distintas ml foundation refl, tt)),
      ((distintas dl foundation refl, tt), (tt, tt)),
    ),
  )
  ids-Distintos intermittent = (
    (distintas classical ml refl, (distintas classical foundation refl, tt)),
    ((distintas ml foundation refl, tt), (tt, tt)),
  )
  ids-Distintos lumpy = ((distintas classical foundation refl, tt), (tt, tt))

  -- When a product is routed by the approved matrix and its manifest is built, the manifest has one
  -- candidate for each family that the matrix gives the class of the product, in its order; no two
  -- have the same id; and each is of the product and its class, with the model of its family, the seed of
  -- its result and the configuration that its result found, but for the foundation family, which
  -- has the frozen one.
  pub construir_candidatos-Entregado :
      (rs : List (SelectionResult Json)) (cs : List (CandidatoCrudo Json))
      → route del_hito request ≡ ok rs
      → construir_candidatos chronos2_fijado rs ≡ ok cs
      → Pares (Entregado chronos2_fijado request) rs cs
        × (map (λ (c : CandidatoCrudo Json). c.familia) cs
            ≡ families_by_sku_class request.sku_class)
        × Distintos (map (λ (c : CandidatoCrudo Json). c.candidato_id) cs)
  unfolding construir_candidatos
  construir_candidatos-Entregado rs cs h k =
      let (ds, plan_es, responden) = route-Responde del_hito request rs h in
      let (ds', plan_es', familias', perfiles) = plan_inicial del_hito request refl in
      let familias : map (λ (d : RoutingDecision). d.family) ds
          ≡ families_by_sku_class request.sku_class =
        ap (map (λ (d : RoutingDecision). d.family)) (ok_injective (sym plan_es ∙ plan_es'))
        ∙ familias' in
      let (es, de_ds, ids) =
        de_las_decisiones ds rs cs responden (traverse-Pares (candidato chronos2_fijado) rs k) in
      (
        es,
        de_ds ∙ familias,
        subst Distintos
            (sym (ids ∙ ap (map (candidato_id chronos2_fijado request.sku_id)) familias))
            (ids-Distintos request.sku_class),
      )
