-- ===== src/Candidatos/Lote.antt =====
-- forecasting/adaptador_candidatos/validacion.py: `_validar_lote` and `_identidad`.

use pred_engine.Prelude.{
  String, ℕ, Bool, false, not, Option, none, some, List, [], ◌∷◌, ◌==◌, ◌&&◌, ◌||◌, string_eq,
  if◌then◌else◌,
}
use pred_engine.Prelude.Sorted.{any}
use pred_engine.Prelude.Result.{Result, ok, err, ◌>>=◌, ◌>>◌, raise_if, traverse}
use pred_engine.Candidatos.Contratos.{
  MotivoRechazo, manifiesto_ilegible, version_no_soportada, contexto_incompatible,
  handoff_posterior_a_reserva, candidato_id_duplicado, sku_fuera_del_panel, Valor, texto, otro,
  Crudo, Leido, diccionario, no_diccionario, ValidationError, ContextoParticion,
  ManifiestoCandidatos, Entorno,
}

abbrev pub version_esquema_manifiesto : ℕ
version_esquema_manifiesto = 1

abbrev pub contiene : String → List String → Bool
contiene t ts = any (λ u. u == t) ts

abbrev pub hay_duplicados : List String → Bool
hay_duplicados [] = false
hay_duplicados (t ∷ ts) = contiene t ts || hay_duplicados ts

module _ (x : Entorno) where
  open x use {O, D, F, T}

  abbrev pub get : Crudo O → String → Option (Valor O)
  get [] campo = none
  get ((k, v) ∷ resto) campo =
      let despues = get resto campo in if k == campo then some v else despues

  -- `_identidad`
  abbrev pub legible : Option (Valor O) → Result MotivoRechazo String
  legible (some (texto t)) = if x.strip t == "" then err manifiesto_ilegible else ok (x.strip t)
  legible _ = err manifiesto_ilegible

  abbrev pub identidad : String → Crudo O → Result MotivoRechazo String
  identidad campo crudo = legible (get crudo campo)

  abbrev pub version_soportada : Option (Valor O) → Bool
  version_soportada (some (otro o)) = x.es_numero o version_esquema_manifiesto
  version_soportada _ = false

  abbrev pub comprobar_version : Option (Leido O) → Result MotivoRechazo (Unit {0})
  comprobar_version none = err manifiesto_ilegible
  comprobar_version (some no_diccionario) = err manifiesto_ilegible
  comprobar_version (some (diccionario datos)) =
      raise_if (not (version_soportada (get datos "schema_version"))) version_no_soportada

  abbrev pub ilegible : {A : Type 0} → Result ValidationError A → Result MotivoRechazo A
  ilegible (ok a) = ok a
  ilegible (err e) = err manifiesto_ilegible

  abbrev pub mismo_contexto : ContextoParticion D F → ContextoParticion D F → Bool
  mismo_contexto a b =
      (a.ingesta_ref_m1 == b.ingesta_ref_m1)
      && x.misma_fecha a.t_corte_reserva b.t_corte_reserva
      && x.misma_fraccion a.fraccion_reserva b.fraccion_reserva

  abbrev pub es_posterior : T → Option T → Bool
  es_posterior emitido none = false
  es_posterior emitido (some abierta) = not (x.anterior emitido abierta)

  unfoldable pub validar_lote :
      String
      → ContextoParticion D F
      → List String
      → Option T
      → Result MotivoRechazo (ManifiestoCandidatos O D F T)
  validar_lote contenido esperado skus_panel reserva_abierta_en = do
    comprobar_version (x.loads contenido)
    manifiesto ← ilegible (x.model_validate_json contenido)
    raise_if (not (mismo_contexto manifiesto.contexto esperado)) contexto_incompatible
    raise_if (es_posterior manifiesto.emitido_en reserva_abierta_en) handoff_posterior_a_reserva
    ids ← traverse (identidad "candidato_id") manifiesto.candidatos
    raise_if (hay_duplicados ids) candidato_id_duplicado
    skus ← traverse (identidad "sku") manifiesto.candidatos
    raise_if (any (λ s. not (contiene s skus_panel)) skus) sku_fuera_del_panel
    ok manifiesto
