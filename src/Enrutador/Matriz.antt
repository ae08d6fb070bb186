-- ===== src/Enrutador/Matriz.antt =====
-- politica.py: what the approved matrix guarantees, and what it means for `plan`.

use pred_engine.Prelude.{◌≡◌, refl, List, [], ◌∷◌, map, Bool, true, false, ◌&&◌, ◌||◌, not, ◌==◌}
use pred_engine.Prelude.Result.{ok}
use pred_engine.Enrutador.Contratos.{
  Familia, familia_eq, classical, foundation, SkuClass, smooth, erratic, intermittent, lumpy,
  RoutingDecision, SelectionRequest,
}
use pred_engine.Enrutador.Politica.{
  profile_by_sku_class, families_by_sku_class, decidir, initial_topology_policy,
}
use pred_engine.Enrutador.Router.{SelectionRouter, no_vacias, plan}

abbrev pub contiene : List Familia → Familia → Bool
contiene [] f = false
contiene (g ∷ gs) f = g == f || contiene gs f

abbrev pub sin_repetir : List Familia → Bool
sin_repetir [] = true
sin_repetir (f ∷ fs) = not (contiene fs f) && sin_repetir fs

-- The checks of `_validar_matriz` that the types do not make, for every class; and that the
-- statistical and the foundation family always compete.
pub matriz_valida :
    (c : SkuClass)
    → (sin_repetir (families_by_sku_class c) ≡ true)
      × (contiene (families_by_sku_class c) classical ≡ true)
      × (contiene (families_by_sku_class c) foundation ≡ true)
unfolding families_by_sku_class
matriz_valida smooth = (refl, refl, refl)
matriz_valida erratic = (refl, refl, refl)
matriz_valida intermittent = (refl, refl, refl)
matriz_valida lumpy = (refl, refl, refl)

-- With the approved policy a product's plan is never refused: it is the families of its class, in
-- order, each with the profile of the class.
pub plan_inicial :
    {Json Wf : Type 0} (router : SelectionRouter Json Wf) (request : SelectionRequest)
    → router.policy ≡ initial_topology_policy
    → (ds : List RoutingDecision) × (plan router request ≡ ok ds)
      × (map (λ d. d.family) ds ≡ families_by_sku_class request.sku_class)
      × (map (λ d. d.profile) ds
          ≡ map
              (λ f. profile_by_sku_class request.sku_class)
              (families_by_sku_class request.sku_class))
unfolding plan initial_topology_policy decidir
plan_inicial router request h = (
  decidir request.sku_class,
  rw h (plan_de request.sku_class),
  familias request.sku_class,
  perfiles request.sku_class,
)
  where
    plan_de : (c : SkuClass) → no_vacias (decidir c) ≡ ok (decidir c)
    plan_de smooth = refl
    plan_de erratic = refl
    plan_de intermittent = refl
    plan_de lumpy = refl

    familias : (c : SkuClass) → map (λ d. d.family) (decidir c) ≡ families_by_sku_class c
    familias smooth = refl
    familias erratic = refl
    familias intermittent = refl
    familias lumpy = refl

    perfiles :
        (c : SkuClass)
        → map (λ d. d.profile) (decidir c)
          ≡ map (λ f. profile_by_sku_class c) (families_by_sku_class c)
    perfiles smooth = refl
    perfiles erratic = refl
    perfiles intermittent = refl
    perfiles lumpy = refl
