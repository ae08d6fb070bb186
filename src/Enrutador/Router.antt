-- ===== src/Enrutador/Router.antt =====
-- enrutador.py: the router, which has no state of its own.
use pred_engine.Prelude.{
  Option, none, some, List, [], ◌∷◌, if◌then◌else◌, ◌==◌, string_eq, not, ◌&&◌, ◌||◌,
}
use pred_engine.Prelude.Result.{Result, ok, err, ◌>>=◌, ◌>>◌, raise_if, traverse}
use pred_engine.Enrutador.Contratos.{
  Familia, familia_eq, sku_class_eq, Perfil, perfil_eq, SelectionRequest, SelectionResult,
  RoutingDecision, SelectionError, resultado_invalido, identidad_distinta, decision_distinta,
  version_distinta, configuracion,
}
use pred_engine.Enrutador.Politica.{RoutingPolicy}
use pred_engine.Enrutador.Registro.{
  Crudo, resultado, otro, Estrategia, StrategyRegistry, resolve_familia,
}

abbrev pub no_vacias : List RoutingDecision → Result SelectionError (List RoutingDecision)
no_vacias [] = err configuracion
no_vacias (d ∷ ds) = ok (d ∷ ds)

abbrev es_resultado : {Json : Type 0} → Crudo Json → Result SelectionError (SelectionResult Json)
es_resultado (resultado r) = ok r
es_resultado otro = err resultado_invalido

pub record SelectionRouter (Json Wf : Type 0) : Type 0 where
  pub policy : RoutingPolicy
  pub registry : StrategyRegistry Json Wf

module _ {Json Wf : Type 0} where
  unfoldable pub plan :
      SelectionRouter Json Wf → SelectionRequest → Result SelectionError (List RoutingDecision)
  plan router request = do decisiones ← router.policy.decide request.sku_class; no_vacias decisiones

  unfoldable pub anotar :
      SelectionRouter Json Wf
      → SelectionRequest
      → Familia
      → Perfil
      → Crudo Json
      → Result SelectionError (SelectionResult Json)
  anotar router request familia perfil crudo = do
    result ← es_resultado crudo
    raise_if (not (result.sku_id == request.sku_id) || not (result.sku_class == request.sku_class))
        identidad_distinta
    raise_if (not (result.family == familia) || not (result.profile == perfil)) decision_distinta
    raise_if
        (not (result.policy_version == "") && not (result.policy_version == router.policy.version))
        version_distinta
    ok (
        if result.policy_version == ""
        then record result { policy_version = router.policy.version }
        else result)

  abbrev pub seleccionar :
      Estrategia Json Wf
      → SelectionRequest
      → Perfil
      → Result SelectionError (Crudo Json × Option Wf)
  seleccionar e request perfil = elim e.select_with_walk_forward [
    | none ↦ e.select request perfil >>= λ crudo. ok (crudo, none)
    | some g ↦ g request perfil
  ]

  unfoldable pub ejecutar :
      SelectionRouter Json Wf
      → SelectionRequest
      → RoutingDecision
      → Result SelectionError (SelectionResult Json × Option Wf)
  ejecutar router request decision = do
    estrategia ← resolve_familia decision.family router.registry
    respuesta ← seleccionar estrategia request decision.profile
    anotada ← anotar router request decision.family decision.profile respuesta.0
    ok (anotada, respuesta.1)

  unfoldable pub execute :
      SelectionRouter Json Wf
      → SelectionRequest
      → RoutingDecision
      → Result SelectionError (SelectionResult Json)
  execute router request decision = ejecutar router request decision >>= λ r. ok r.0

  unfoldable pub route :
      SelectionRouter Json Wf
      → SelectionRequest
      → Result SelectionError (List (SelectionResult Json))
  unfolding plan
  route router request = do
    decisiones ← plan router request
    traverse (execute router request) decisiones
