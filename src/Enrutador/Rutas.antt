-- ===== src/Enrutador/Rutas.antt =====
-- enrutador.py: what `route` returns.
use text.Mathlib.TextEquality.{eq_iff}
use pred_engine.Prelude.{
  ◌≡◌, false, Option, List, ap, ◌∙◌, arith, not, if◌then◌else◌, ◌==◌, string_eq, ◌&&◌, ◌||◌,
}
use pred_engine.Prelude.Result.{
  ok, >>=-eq-ok, Pares, Pares-map, traverse-Pares, ok_injective, raise_if-ok,
}
use pred_engine.Enrutador.Contratos.{
  familia_eq, sku_class_eq, perfil_eq, familia_beq_iff, sku_class_beq_iff, perfil_beq_iff,
  SelectionRequest, SelectionResult, RoutingDecision,
}
use pred_engine.Enrutador.Registro.{Crudo, resultado, otro, resolve_familia}
use pred_engine.Enrutador.Router.{
  SelectionRouter, plan, anotar, seleccionar, ejecutar, execute, route,
}

module _ {Json Wf : Type 0} (router : SelectionRouter Json Wf) (request : SelectionRequest) where
  -- The answer to one decision: the identity of the request, the decision's family and profile, and
  -- the version of the policy.
  pub record Responde (d : RoutingDecision) (r : SelectionResult Json) : Type 0 where
    pub sku_id : r.sku_id ≡ request.sku_id
    pub sku_class : r.sku_class ≡ request.sku_class
    pub family : r.family ≡ d.family
    pub profile : r.profile ≡ d.profile
    pub version : r.policy_version ≡ router.policy.version

  -- The checks that a result has passed.
  record Comprobado (d : RoutingDecision) (q r : SelectionResult Json) : Type 0 where
    identidad : (not (q.sku_id == request.sku_id) || not (q.sku_class == request.sku_class)) ≡ false
    decision : (not (q.family == d.family) || not (q.profile == d.profile)) ≡ false
    version :
        (not (q.policy_version == "") && not (q.policy_version == router.policy.version)) ≡ false
    anotado :
        (if q.policy_version == "" then record q { policy_version = router.policy.version } else q)
        ≡ r

  anotar-Comprobado :
      (d : RoutingDecision) (q r : SelectionResult Json)
      → anotar router request d.family d.profile (resultado q) ≡ ok r
      → Comprobado d q r
  unfolding anotar
  anotar-Comprobado d q r h =
      let (a, h1) = raise_if-ok _ _ _ h in
      let (b, h2) = raise_if-ok _ _ _ h1 in
      let (c, h3) = raise_if-ok _ _ _ h2 in
      record { identidad = a; decision = b; version = c; anotado = ok_injective h3 }

  Comprobado-Responde :
      (d : RoutingDecision) (q r : SelectionResult Json) → Comprobado d q r → Responde d r
  Comprobado-Responde d q r c = record {
    sku_id = ground (arith, c.identidad, c.anotado, eq_iff q.sku_id request.sku_id);
    sku_class =
        ground (arith, c.identidad, c.anotado, sku_class_beq_iff q.sku_class request.sku_class);
    family = ground (arith, c.decision, c.anotado, familia_beq_iff q.family d.family);
    profile = ground (arith, c.decision, c.anotado, perfil_beq_iff q.profile d.profile);
    version = ground (arith, c.version, c.anotado, eq_iff q.policy_version router.policy.version);
  }

  anotar_otro :
      (d : RoutingDecision) (r : SelectionResult Json)
      → ¬ (anotar router request d.family d.profile otro ≡ ok r)
  unfolding anotar
  anotar_otro d r h = cc

  anotar-Responde :
      (d : RoutingDecision) (c : Crudo Json) (r : SelectionResult Json)
      → anotar router request d.family d.profile c ≡ ok r
      → Responde d r
  anotar-Responde d (resultado q) r h = Comprobado-Responde d q r (anotar-Comprobado d q r h)
  anotar-Responde d otro r h = absurd (anotar_otro d r h)

  ejecutar-Responde :
      (d : RoutingDecision) (r : SelectionResult Json)
      → execute router request d ≡ ok r
      → Responde d r
  unfolding execute ejecutar
  ejecutar-Responde d r h =
      let (p, e, h1) = >>=-eq-ok (ejecutar router request d) _ h in
      let (s, e1, h2) = >>=-eq-ok (resolve_familia d.family router.registry) _ e in
      let (c, e2, h3) = >>=-eq-ok (seleccionar s request d.profile) _ h2 in
      let (q, e3, h4) = >>=-eq-ok (anotar router request d.family d.profile c.0) _ h3 in
      anotar-Responde d c.0 r
        (e3 ∙ ap ok (ap (λ (t : SelectionResult Json × Option Wf). t.0) (ok_injective h4)) ∙ h1)

  -- A routing that returns has one result for each decision of the policy, in the policy's order:
  -- each carries the identity of the request, the family and the profile of its decision, and the
  -- version of the policy.
  pub route-Responde :
      (rs : List (SelectionResult Json))
      → route router request ≡ ok rs
      → (ds : List RoutingDecision) × (plan router request ≡ ok ds) × Pares Responde ds rs
  unfolding route
  route-Responde rs h =
      let (ds, e, h') = >>=-eq-ok (plan router request) _ h in
      (ds, e, Pares-map ejecutar-Responde (traverse-Pares (execute router request) ds h'))
