-- ===== src/Evidencia/Protocolo.antt =====
-- persistencia_evidencia: `fijar_protocolo` and `protocolo_guardado` of recuperacion.py, `_fijar_corte` of
-- repositorio.py. The dictionaries come as their JSON text with sorted keys, an exclusion with the
-- class of its product; the reference to the table of executions is left out.
use pred_engine.Prelude.{
  String, Bool, true, false, not, ℕ, Option, none, some, List, [], ◌∷◌, ◌++◌, map, ◌==◌, ◌&&◌, ◌||◌,
  string_eq, nat_eq, if◌then◌else◌, length,
}
use pred_engine.Prelude.Sorted.{any, sorted, str_lt}
use pred_engine.Prelude.Result.{ok, err, raise_if}
use pred_engine.Prelude.Exec.{lift, ◌>>=◌, ◌>>◌}
use pred_engine.Enrutador.Contratos.{sku_class_eq}
use pred_engine.Evidencia.Contratos.{
  EstadoCorrida, en_curso, evaluada, rechazada, inconsistente, integridad, De, Base, Externo,
  Protocolo, Exclusion,
}
use pred_engine.Evidencia.Tablas.{
  insertar, de, con_run, Accion, transaccion, exigir_estado, o_integridad,
}
use pred_engine.Evidencia.Registro.{sin_repetir, misma_clave}

-- SkuExclusion of a late launch.
pub record Tardio : Type 0 where
  pub sku_id : String
  pub cause : String

-- The arguments given by keyword.
pub record Peticion : Type 0 where
  pub protocolo : Protocolo
  pub t_star : ℕ
  pub lanzamientos_tardios : List Tardio
  pub exclusiones : List Exclusion

abbrev pub causa_lanzamiento_tardio : String
causa_lanzamiento_tardio = "lanzado despues del corte"

abbrev pub protocolo_guardado : String → List Protocolo → Option Protocolo
protocolo_guardado r [] = none
protocolo_guardado r (p ∷ ps) =
    let resto = protocolo_guardado r ps in if p.run_id == r then some p else resto

abbrev pub no_es_rechazada : EstadoCorrida → Bool
no_es_rechazada rechazada = false
no_es_rechazada _ = true

abbrev pub esta_abierta : EstadoCorrida → Bool
esta_abierta en_curso = true
esta_abierta evaluada = true
esta_abierta _ = false

abbrev pub mismo_protocolo : Protocolo → Protocolo → Bool
mismo_protocolo p q =
    (p.protocolo == q.protocolo)
    && (p.manifiesto == q.manifiesto)
    && (p.n_unidades_previstas == q.n_unidades_previstas)

abbrev pub mismos : {A : Type 0} → (A → A → Bool) → List A → List A → Bool
mismos misma [] [] = true
mismos misma (a ∷ as') (b ∷ bs) = misma a b && mismos misma as' bs
mismos misma _ _ = false

abbrev pub corte_de : String → List (De ℕ) → Option ℕ
corte_de r [] = none
corte_de r ((q, t) ∷ cs) = let resto = corte_de r cs in if q == r then some t else resto

module _ (x : Externo) where
  -- By its SKU: the primary key.
  abbrev pub misma_exclusion : De Exclusion → De Exclusion → Bool
  misma_exclusion f g = (f.0 == g.0) && (f.1.sku == g.1.sku)

  abbrev pub igual_exclusion : Exclusion → Exclusion → Bool
  igual_exclusion e f =
      (e.sku == f.sku)
      && (e.sku_class == f.sku_class)
      && (e.codigo == f.codigo)
      && (e.causa == f.causa)

  abbrev pub por_sku : Exclusion → Exclusion → Bool
  por_sku e f = str_lt e.sku f.sku

  -- The triggers: neither a late launch nor an excluded product is a SKU of the run.
  abbrev pub es_evaluado : Base x.fl → String → String → Bool
  es_evaluado b r sku = any (λ s. (s.0 == r) && (s.1 == sku)) b.skus

  abbrev pub no_admitida : Base x.fl → String → Exclusion → Bool
  no_admitida b r e = es_evaluado b r e.sku || not (x.es_elegibilidad e.codigo)

  unfoldable pub escribir_corte : String → ℕ → List String → List Exclusion → Accion x (Unit {0})
  escribir_corte r t_star tardias excluidas b =
      (do
        lift (raise_if (any (es_evaluado b r) tardias) integridad)
        tardios ← o_integridad x (insertar misma_clave b.tardios (con_run r tardias))
        lift (raise_if (any (no_admitida b r) excluidas) integridad)
        exclusiones ← o_integridad x (insertar misma_exclusion b.exclusiones (con_run r excluidas))
        (λ b'. (
          ok tt,
          record b' {
            cortes = b.cortes ++ (r, t_star) ∷ [];
            tardios = tardios;
            exclusiones = exclusiones;
          },
        )))
        b

  abbrev pub comparar_corte :
      String → Option ℕ → EstadoCorrida → ℕ → List String → List Exclusion → Accion x (Unit {0})
  comparar_corte r none estado t_star tardias excluidas b =
      if esta_abierta estado then escribir_corte r t_star tardias excluidas b else (ok tt, b)
  comparar_corte r (some previo) estado t_star tardias excluidas b =
      if (previo == t_star)
        && mismos ◌==◌ (sorted str_lt (map (λ (t : De String). t.1) (de r b.tardios))) tardias
        && mismos igual_exclusion
            (sorted por_sku (map (λ (e : De Exclusion). e.1) (de r b.exclusiones))) excluidas
      then (ok tt, b)
      else (err inconsistente, b)

  -- `_fijar_corte`
  unfoldable pub fijar_corte :
      String → EstadoCorrida → ℕ → List Tardio → List Exclusion → Accion x (Unit {0})
  fijar_corte r estado t_star lanzamientos exclusiones b =
      let tardias = sorted str_lt (sin_repetir (map (λ (e : Tardio). e.sku_id) lanzamientos)) in
      if any (λ (e : Tardio). not (e.cause == causa_lanzamiento_tardio)) lanzamientos
        || not (length tardias == length lanzamientos)
      then (err inconsistente, b)
      else comparar_corte r (corte_de r b.cortes) estado t_star tardias (sorted por_sku exclusiones)
          b

  abbrev pub fijar_texto : Option Protocolo → Protocolo → Accion x (Unit {0})
  fijar_texto none p b = (ok tt, record b { protocolos = b.protocolos ++ p ∷ [] })
  fijar_texto (some previa) p b =
      if mismo_protocolo previa p then (ok tt, b) else (err inconsistente, b)

  -- The run is the one that the protocol names.
  unfoldable pub fijar_protocolo : Peticion → Accion x (Unit {0})
  fijar_protocolo p = transaccion x (do
    estado ← exigir_estado x p.protocolo.run_id no_es_rechazada "fijar_protocolo"
    (λ b. fijar_texto (protocolo_guardado p.protocolo.run_id b.protocolos) p.protocolo b)
    fijar_corte p.protocolo.run_id estado p.t_star p.lanzamientos_tardios p.exclusiones)
