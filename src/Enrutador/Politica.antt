-- ===== src/Enrutador/Politica.antt =====
-- politica.py: the approved matrix, from the class of a product to families and profile.
use pred_engine.Prelude.{String, List, [], ◌∷◌, map}
use pred_engine.Prelude.Result.{Result, ok}
use pred_engine.Enrutador.Contratos.{
  Familia, classical, ml, dl, foundation, SkuClass, smooth, erratic, intermittent, lumpy, Perfil,
  dense_stable, dense_variable, sparse_stable, sparse_variable, RoutingDecision, SelectionError,
}

-- A policy is the version that it declares and its `decide`, which may raise.
pub record RoutingPolicy : Type 0 where
  pub version : String
  pub decide : SkuClass → Result SelectionError (List RoutingDecision)

unfoldable pub profile_by_sku_class : SkuClass → Perfil
profile_by_sku_class smooth = dense_stable
profile_by_sku_class erratic = dense_variable
profile_by_sku_class intermittent = sparse_stable
profile_by_sku_class lumpy = sparse_variable

unfoldable pub families_by_sku_class : SkuClass → List Familia
families_by_sku_class smooth = classical ∷ ml ∷ dl ∷ foundation ∷ []
families_by_sku_class erratic = classical ∷ ml ∷ dl ∷ foundation ∷ []
families_by_sku_class intermittent = classical ∷ ml ∷ foundation ∷ []
families_by_sku_class lumpy = classical ∷ foundation ∷ []

unfoldable pub decidir : SkuClass → List RoutingDecision
unfolding profile_by_sku_class families_by_sku_class
decidir sku_class =
    map (λ f. record { family = f; profile = profile_by_sku_class sku_class })
      (families_by_sku_class sku_class)

abbrev pub initial_policy_version : String
initial_policy_version = "2.2.0-initial"

-- Its argument is one of the four classes, so `UnknownSkuClassError` has no branch here.
unfoldable pub initial_topology_policy : RoutingPolicy
unfolding decidir
initial_topology_policy = record {
  version = initial_policy_version;
  decide = λ sku_class. ok (decidir sku_class);
}
