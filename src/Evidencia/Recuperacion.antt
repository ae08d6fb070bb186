-- ===== src/Evidencia/Recuperacion.antt =====
-- persistencia_evidencia/recuperacion.py: `cargar_serie`.
use pred_engine.Prelude.{
  String, Bool, false, not, ℕ, suc, Option, none, some, List, map, ◌==◌, ◌&&◌, ◌||◌, string_eq,
  nat_eq, ltb, if◌then◌else◌, length,
}
use pred_engine.Prelude.Sorted.{any, all, filter, sorted}
use pred_engine.Prelude.Result.{Result, ok, err, raise_if, traverse, ◌>>=◌, ◌>>◌}
use pred_engine.Evidencia.Contratos.{
  EvidenciaError, inconsistente, Base, Externo, Unidad, Pronostico, Protocolo, PronosticoFechado,
  SerieCandidato,
}
use pred_engine.Evidencia.Unidades.{es_vacia, mismas, rango}
use pred_engine.Evidencia.Protocolo.{protocolo_guardado}

abbrev pub es_propia : String → String → String → Unidad → Bool
es_propia r sku cid u = (u.run_id == r) && (u.sku == sku) && (u.candidato_id == cid)

-- ORDER BY origen
abbrev pub por_origen : Unidad → Unidad → Bool
por_origen u v = ltb u.origen v.origen

-- `horizonte is not None and len(filas) != horizonte`
abbrev pub no_cuadra : Option ℕ → ℕ → Bool
no_cuadra none n = false
no_cuadra (some h) n = not (n == h)

module _ (x : Externo) where
  open x use {fl}

  abbrev pub es_fila : String → String → String → ℕ → Pronostico fl.F → Bool
  es_fila r sku cid o f =
      (f.run_id == r) && (f.sku == sku) && (f.candidato_id == cid) && (f.origen == o)

  -- ORDER BY h
  abbrev pub por_h : Pronostico fl.F → Pronostico fl.F → Bool
  por_h f g = ltb f.h g.h

  abbrev pub exigir_horizonte : Option ℕ → Result EvidenciaError (Option ℕ)
  exigir_horizonte none = err inconsistente
  exigir_horizonte (some h) = if h == 0 then err inconsistente else ok (some h)

  -- The horizon of the protocol, when the run has one.
  abbrev pub horizonte : Option Protocolo → Result EvidenciaError (Option ℕ)
  horizonte none = ok none
  horizonte (some p) = exigir_horizonte (x.horizonte_de p.protocolo)

  abbrev pub o_nan : Option fl.F → fl.F
  o_nan none = x.nan
  o_nan (some v) = v

  -- The values against the state of the unit, which is "fallida" when there is a cause.
  abbrev pub incompatible : Option String → List fl.F → Bool
  incompatible none vs = not (all x.finito vs)
  incompatible (some causa) vs = all x.finito vs || any x.infinito vs

  -- One turn of the loop, from the rows that the query gives.
  abbrev pub leer_ventana :
      Option ℕ → Unidad → List (Pronostico fl.F) → Result EvidenciaError (PronosticoFechado fl.F)
  leer_ventana h u filas =
      let hs = map (λ (f : Pronostico fl.F). f.h) filas in
      let fechas = map (λ (f : Pronostico fl.F). f.fecha) filas in
      let valores = map (λ (f : Pronostico fl.F). o_nan f.valor) filas in
      do
        raise_if (es_vacia filas || no_cuadra h (length filas) || not (mismas hs (rango 1 hs)))
            inconsistente
        raise_if (not (mismas fechas (rango (suc u.origen) fechas))) inconsistente
        raise_if (incompatible u.causa valores) inconsistente
        ok (record { origen = u.origen; fechas = fechas; valores = valores })

  abbrev pub cargar_ventana :
      String
      → String
      → String
      → Option ℕ
      → List (Pronostico fl.F)
      → Unidad
      → Result EvidenciaError (PronosticoFechado fl.F)
  cargar_ventana r sku cid h tabla u =
      leer_ventana h u (sorted por_h (filter (es_fila r sku cid u.origen) tabla))

  unfoldable pub cargar_serie :
      Base fl
      → String
      → String
      → String
      → String
      → String
      → Result EvidenciaError (SerieCandidato fl.F)
  cargar_serie b r sku cid familia modelo = do
    h ← horizonte (protocolo_guardado r b.protocolos)
    ps ←
        traverse (cargar_ventana r sku cid h b.pronosticos)
          (sorted por_origen (filter (es_propia r sku cid) b.unidades))
    ok (record { candidato_id = cid; familia = familia; modelo = modelo; pronosticos = ps })
