-- ===== src/Ejemplos/Rutas.antt =====
-- A router with a strategy for every family.
use pred_engine.Prelude.{String, ℕ, ◌≡◌, ◌≢◌, refl, true, false, none, some, List, [], ◌∷◌, map}
use pred_engine.Prelude.Int.{pos}
use pred_engine.Prelude.Result.{ok, Pares}
use pred_engine.Enrutador.Contratos.{
  Familia, classical, ml, dl, foundation, lumpy, SkuClass, Perfil, sparse_variable,
  SelectionRequest, SelectionResult, RoutingDecision, leer_familia,
}
use pred_engine.Enrutador.Politica.{
  initial_topology_policy, families_by_sku_class, profile_by_sku_class, decidir,
  initial_policy_version,
}
use pred_engine.Enrutador.Registro.{
  resultado, Estrategia, StrategyRegistry, vacio, anotar_estrategia, exigir_familia, register,
  resolve_familia,
}
use pred_engine.Enrutador.Router.{SelectionRouter, plan, anotar, ejecutar, execute, route}
use pred_engine.Enrutador.Rutas.{Responde, route-Responde}
use pred_engine.Enrutador.Registros.{EsFiel, register-EsFiel}
use pred_engine.Enrutador.Manifiesto.{
  nombre_familia, CandidatoCrudo, candidato_con, candidato, construir_candidatos,
}
use pred_engine.Enrutador.Entrega.{Entregado, Distintos, construir_candidatos-Entregado}

abbrev resultado_de : Familia → String → SkuClass → Perfil → SelectionResult String
resultado_de f sku clase perfil = record {
  sku_id = sku;
  sku_class = clase;
  family = f;
  profile = perfil;
  produced_by = "prueba";
  policy_version = "";
  payload = "p";
  forecast_config = some "ganadora";
  forecast_seed = pos 3;
}

abbrev estrategia_de : Familia → Estrategia String ℕ
estrategia_de f = record {
  satisface = true;
  family = nombre_familia f;
  select = λ q perfil. ok (resultado (resultado_de f q.sku_id q.sku_class perfil));
  select_with_walk_forward = none;
}

abbrev enrutador : SelectionRouter String ℕ
enrutador = record { policy = initial_topology_policy; registry = λ f. some (estrategia_de f) }

abbrev peticion : SelectionRequest
peticion = record { sku_id = "A"; sku_class = lumpy; series = [] }

abbrev con_version : Familia → SelectionResult String
con_version f = record (resultado_de f "A" lumpy sparse_variable) {
  policy_version = initial_policy_version;
}

abbrev rutas : List (SelectionResult String)
rutas = con_version classical ∷ con_version foundation ∷ []

se_enruta : route enrutador peticion ≡ ok rutas
unfolding route execute ejecutar anotar plan initial_topology_policy decidir families_by_sku_class
    profile_by_sku_class resolve_familia
se_enruta = refl

route-Responde_example :
    (ds : List RoutingDecision) × (plan enrutador peticion ≡ ok ds)
    × Pares (Responde enrutador peticion) ds rutas
route-Responde_example = route-Responde enrutador peticion rutas se_enruta

abbrev registro_vacio : StrategyRegistry String ℕ
registro_vacio = vacio

abbrev con_ml : StrategyRegistry String ℕ
con_ml = anotar_estrategia ml (estrategia_de ml) registro_vacio

se_registra : register "ml" (estrategia_de ml) false registro_vacio ≡ ok con_ml
unfolding register exigir_familia leer_familia nombre_familia
se_registra = refl

vacio_fiel : EsFiel registro_vacio
vacio_fiel f = refl

register-EsFiel_example : EsFiel con_ml
register-EsFiel_example =
    register-EsFiel "ml" (estrategia_de ml) false registro_vacio con_ml vacio_fiel se_registra

no_es_dl : exigir_familia "ml" ≢ ok dl
unfolding exigir_familia leer_familia
no_es_dl e = cc e

abbrev candidatos : List (CandidatoCrudo String)
candidatos =
    candidato_con "congelada" (con_version classical) "ganadora"
    ∷ candidato_con "congelada" (con_version foundation) "ganadora"
    ∷ []

se_construyen : construir_candidatos "congelada" rutas ≡ ok candidatos
unfolding construir_candidatos candidato
se_construyen = refl

construir_candidatos-Entregado_example :
    Pares (Entregado "congelada" peticion) rutas candidatos
    × (map (λ (c : CandidatoCrudo String). c.familia) candidatos ≡ families_by_sku_class lumpy)
    × Distintos (map (λ (c : CandidatoCrudo String). c.candidato_id) candidatos)
construir_candidatos-Entregado_example =
    construir_candidatos-Entregado "congelada" (λ f. some (estrategia_de f)) peticion rutas
      candidatos se_enruta se_construyen
