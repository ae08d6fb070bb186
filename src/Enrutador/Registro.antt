-- ===== src/Enrutador/Registro.antt =====
-- registro.py: strategies by family.
use pred_engine.Prelude.{
  String, Bool, true, false, Option, none, some, if◌then◌else◌, ◌==◌, not, ◌&&◌,
}
use pred_engine.Prelude.Result.{Result, ok, err, ◌>>=◌, ◌>>◌, raise_if}
use pred_engine.Enrutador.Contratos.{
  Familia, familia_eq, Perfil, SelectionRequest, SelectionResult, SelectionError, familia_invalida,
  estrategia_invalida, familia_ajena, familia_no_registrada, estrategia_duplicada, leer_familia,
}

-- What a call of a strategy gives back: a result, or some other object.
pub data Crudo (Json : Type 0) : Type 0 where
  resultado : SelectionResult Json → Crudo Json
  otro : Crudo Json

-- An object given to the registry. `satisface` is `isinstance(strategy, SelectionStrategy)`; the
-- method `select_with_walk_forward` may be absent. `Wf` is a walk-forward result.
pub record Estrategia (Json Wf : Type 0) : Type 0 where
  pub satisface : Bool
  pub family : String
  pub select : SelectionRequest → Perfil → Result SelectionError (Crudo Json)
  pub select_with_walk_forward :
      Option (SelectionRequest → Perfil → Result SelectionError (Crudo Json × Option Wf))

-- The dictionary `_estrategias`.
abbrev pub StrategyRegistry : Type 0 → Type 0 → Type 0
StrategyRegistry Json Wf = Familia → Option (Estrategia Json Wf)

unfoldable pub exigir_familia : String → Result SelectionError Familia
unfolding leer_familia
exigir_familia family = elim (leer_familia family) [ none ↦ err familia_invalida | some f ↦ ok f ]

-- `strategy.family != familia`, negated
abbrev pub es_de : Familia → Option Familia → Bool
es_de f none = false
es_de f (some g) = g == f

module _ {Json Wf : Type 0} where
  abbrev pub vacio : StrategyRegistry Json Wf
  vacio f = none

  abbrev pub ocupada : Option (Estrategia Json Wf) → Bool
  ocupada none = false
  ocupada (some e) = true

  abbrev pub anotar_estrategia :
      Familia → Estrategia Json Wf → StrategyRegistry Json Wf → StrategyRegistry Json Wf
  anotar_estrategia f e r g = if f == g then some e else r g

  -- A registration that raises changes nothing: the dictionary is written last.
  unfoldable pub register :
      String
      → Estrategia Json Wf
      → Bool
      → StrategyRegistry Json Wf
      → Result SelectionError (StrategyRegistry Json Wf)
  register family strategy replace r = do
    familia ← exigir_familia family
    raise_if (not strategy.satisface) estrategia_invalida
    raise_if (not (es_de familia (leer_familia strategy.family))) familia_ajena
    raise_if (ocupada (r familia) && not replace) (estrategia_duplicada familia)
    ok (anotar_estrategia familia strategy r)

  abbrev pub o_no_registrada :
      Familia → Option (Estrategia Json Wf) → Result SelectionError (Estrategia Json Wf)
  o_no_registrada f none = err (familia_no_registrada f)
  o_no_registrada f (some e) = ok e

  unfoldable pub resolve :
      String → StrategyRegistry Json Wf → Result SelectionError (Estrategia Json Wf)
  resolve family r = do familia ← exigir_familia family; o_no_registrada familia (r familia)

  -- `resolve` at a family that a routing decision holds.
  unfoldable pub resolve_familia :
      Familia → StrategyRegistry Json Wf → Result SelectionError (Estrategia Json Wf)
  resolve_familia f r = o_no_registrada f (r f)
