-- ===== src/Evidencia/Vuelta.antt =====
-- persistencia_evidencia: `cargar_serie` after `guardar_unidades`.
use mathlib.Core.List.{append_assoc, append-nil}
use pred_engine.Prelude.{
  String, ◌≡◌, refl, ap, ap₂, subst, ◌∙◌, Bool, true, false, ◌&&◌, ℕ, ◌<◌, ◌==◌, Option, some, List,
  [], ◌∷◌, ◌++◌, map, string_eq, nat_eq, nat_beq, lt→ltb, Todos, arith,
}
use pred_engine.Prelude.Sorted.{any, filter, sorted}
use pred_engine.Prelude.Filtros.{
  Ascienden, Todos-imp, Todos-append, filter-append, filter_self, filter_nada, any-Todos, Todos-any,
  sorted-Ascienden,
}
use pred_engine.Prelude.Result.{ok, traverse}
use pred_engine.Evidencia.Contratos.{
  Base, Externo, Unidad, Pronostico, PronosticoFechado, SerieCandidato,
}
use pred_engine.Evidencia.Unidades.{Traza, es_unidad, guardar_unidades}
use pred_engine.Evidencia.Protocolo.{protocolo_guardado}
use pred_engine.Evidencia.Recuperacion.{
  es_propia, por_origen, es_fila, por_h, horizonte, leer_ventana, cargar_ventana, cargar_serie,
}
use pred_engine.Evidencia.Lecturas.{
  Sana, Diaria, Cuadra, filas_suyas, filas_ajenas, filas_de, leer_ventana-filas_de,
}
use pred_engine.Evidencia.Nuevas.{
  antes_no_es, Causales, suya, filas_todas, Libre, insertar_unidades-nuevas,
}
use pred_engine.Evidencia.Retornos.{guardar_unidades-inversa}

and_mas : (a b : Bool) → a ≡ false → (a && b) ≡ false
and_mas false b h = refl
and_mas true b h = cc

despues_no_es : (a b : ℕ) → a < b → nat_beq b a ≡ false
despues_no_es a b h = ground arith

module _ (x : Externo) where
  open x use {fl}

  abbrev pub es_candidato : String → String → String → Pronostico fl.F → Bool
  es_candidato r sku cid f = (f.run_id == r) && (f.sku == sku) && (f.candidato_id == cid)

  -- No unit and no forecast of a candidate in the tables.
  abbrev pub Nuevo : String → String → String → Base fl → Type 0
  Nuevo r sku cid b =
      (any (es_propia r sku cid) b.unidades ≡ false)
      × (any (es_candidato r sku cid) b.pronosticos ≡ false)

  module _ (r sku : String) (serie : SerieCandidato fl.F) (t : Traza) where
    abbrev Ajena : List (Pronostico fl.F) → PronosticoFechado fl.F → Type 0
    Ajena filas p = Todos (λ f. es_fila x r sku serie.candidato_id p.origen f ≡ false) filas

    abbrev de_aqui : PronosticoFechado fl.F → List (Pronostico fl.F)
    de_aqui p = filas_de x r sku serie.candidato_id p

    -- The rows of later origins are not those of an origin, nor the other way round.
    las_de_despues :
        (p : PronosticoFechado fl.F) (ps : List (PronosticoFechado fl.F))
        → Todos (λ (q : PronosticoFechado fl.F). p.origen < q.origen) ps
        → Ajena (filas_todas x r sku serie t ps) p
    las_de_despues p [] h = tt
    las_de_despues p (q ∷ ps) h =
        Todos-append _ (de_aqui q) _
          (filas_ajenas x r sku serie.candidato_id q.origen p.origen 1 q.fechas (map some q.valores)
            (despues_no_es p.origen q.origen h.0))
          (las_de_despues p ps h.1)

    con_las_de_antes :
        (filas : List (Pronostico fl.F)) (p : PronosticoFechado fl.F)
        (ps : List (PronosticoFechado fl.F))
        → Todos (Ajena filas) ps
        → Todos (λ (q : PronosticoFechado fl.F). p.origen < q.origen) ps
        → Todos (Ajena (filas ++ de_aqui p)) ps
    con_las_de_antes filas p [] a h = tt
    con_las_de_antes filas p (q ∷ ps) a h = (
      Todos-append _ filas _ a.0 (
          filas_ajenas x r sku serie.candidato_id p.origen q.origen 1 p.fechas (map some p.valores)
            (antes_no_es p.origen q.origen h.0)),
      con_las_de_antes filas p ps a.1 h.1,
    )

    -- The query for an origin, between the rows of others.
    filter-de_aqui :
        (antes luego : List (Pronostico fl.F)) (p : PronosticoFechado fl.F)
        → Ajena antes p
        → Ajena luego p
        → filter (es_fila x r sku serie.candidato_id p.origen) (antes ++ (de_aqui p ++ luego))
          ≡ de_aqui p
    filter-de_aqui antes luego p a l =
        let q = es_fila x r sku serie.candidato_id p.origen in
        filter-append q antes (de_aqui p ++ luego)
        ∙ ap₂ ◌++◌ (filter_nada q antes a) (
            filter-append q (de_aqui p) luego
            ∙ ap₂ ◌++◌
                (filter_self q (de_aqui p)
                  (filas_suyas x r sku serie.candidato_id p.origen 1 p.fechas (map some p.valores)))
                (filter_nada q luego l))
        ∙ append-nil (de_aqui p)

    leidas :
        (h : Option ℕ) (filas : List (Pronostico fl.F)) (ps : List (PronosticoFechado fl.F))
        → Todos (Ajena filas) ps
        → Causales x ps
        → Todos (Sana x) ps
        → Todos (Diaria x) ps
        → Todos (Cuadra x h) ps
        → traverse
            (cargar_ventana x r sku serie.candidato_id h (filas ++ filas_todas x r sku serie t ps))
            (map (suya x r sku serie t) ps)
          ≡ ok ps
    leidas h filas [] a c s d k = refl
    leidas h filas (p ∷ ps) a c s d k =
        let resto = filas_todas x r sku serie t ps in
        let una : cargar_ventana x r sku serie.candidato_id h (filas ++ (de_aqui p ++ resto))
              (suya x r sku serie t p)
            ≡ ok p =
          ap (λ w. leer_ventana x h (suya x r sku serie t p) (sorted (por_h x) w))
            (filter-de_aqui filas resto p a.0 (las_de_despues p ps c.0))
          ∙ leer_ventana-filas_de x r sku serie t h p s.0 d.0 k.0 in
        let otras : traverse
              (cargar_ventana x r sku serie.candidato_id h (filas ++ (de_aqui p ++ resto)))
              (map (suya x r sku serie t) ps)
            ≡ ok ps =
          subst
            (λ w.
              traverse (cargar_ventana x r sku serie.candidato_id h w)
                (map (suya x r sku serie t) ps)
              ≡ ok ps)
            (append_assoc filas (de_aqui p) resto)
            (leidas h (filas ++ de_aqui p) ps (con_las_de_antes filas p ps a.1 c.0) c.1 s.1 d.1
              k.1) in
        rw (una, otras) refl

    las_propias :
        (ps : List (PronosticoFechado fl.F))
        → Todos (λ u. es_propia r sku serie.candidato_id u ≡ true) (map (suya x r sku serie t) ps)
    las_propias [] = tt
    las_propias (p ∷ ps) = (
      rw
          (
            (string_eq.refleja r r).1 refl,
            (string_eq.refleja sku sku).1 refl,
            (string_eq.refleja serie.candidato_id serie.candidato_id).1 refl,
          )
          refl,
      las_propias ps,
    )

    las_siguientes :
        (p : PronosticoFechado fl.F) (ps : List (PronosticoFechado fl.F))
        → Todos (λ (q : PronosticoFechado fl.F). p.origen < q.origen) ps
        → Todos (λ u. por_origen (suya x r sku serie t p) u ≡ true) (map (suya x r sku serie t) ps)
    las_siguientes p [] h = tt
    las_siguientes p (q ∷ ps) h = (lt→ltb p.origen q.origen h.0, las_siguientes p ps h.1)

    unidades-Ascienden :
        (ps : List (PronosticoFechado fl.F))
        → Causales x ps
        → Ascienden (λ u v. por_origen u v ≡ true) (map (suya x r sku serie t) ps)
    unidades-Ascienden [] h = tt
    unidades-Ascienden (p ∷ ps) h = (las_siguientes p ps h.0, unidades-Ascienden ps h.1)

    Nuevo-Libre :
        (b : Base fl) (ps : List (PronosticoFechado fl.F))
        → Nuevo r sku serie.candidato_id b
        → Todos (Libre x r sku serie t b) ps
    Nuevo-Libre b [] h = tt
    Nuevo-Libre b (p ∷ ps) h = (
      Todos-any (es_unidad r sku serie.candidato_id p.origen) b.unidades (
          Todos-imp b.unidades
            (λ u e. and_mas (es_propia r sku serie.candidato_id u) (u.origen == p.origen) e)
            (any-Todos (es_propia r sku serie.candidato_id) b.unidades h.0)),
      Nuevo-Libre b ps h,
    )

    Nuevo-Ajena :
        (b : Base fl) (ps : List (PronosticoFechado fl.F))
        → Nuevo r sku serie.candidato_id b
        → Todos (Ajena b.pronosticos) ps
    Nuevo-Ajena b [] h = tt
    Nuevo-Ajena b (p ∷ ps) h = (
      Todos-imp b.pronosticos
          (λ f e. and_mas (es_candidato r sku serie.candidato_id f) (f.origen == p.origen) e)
          (any-Todos (es_candidato r sku serie.candidato_id) b.pronosticos h.1),
      Nuevo-Ajena b ps h,
    )

    -- The query for the units of a candidate, in the order of their origins.
    unidades_leidas :
        (us : List Unidad) (ps : List (PronosticoFechado fl.F))
        → any (es_propia r sku serie.candidato_id) us ≡ false
        → Causales x ps
        → sorted por_origen
            (filter (es_propia r sku serie.candidato_id) (us ++ map (suya x r sku serie t) ps))
          ≡ map (suya x r sku serie t) ps
    unidades_leidas us ps h c =
        let q = es_propia r sku serie.candidato_id in
        ap (sorted por_origen) (
          filter-append q us (map (suya x r sku serie t) ps)
          ∙ ap₂ ◌++◌ (filter_nada q us (any-Todos q us h))
              (filter_self q (map (suya x r sku serie t) ps) (las_propias ps)))
        ∙ sorted-Ascienden por_origen (map (suya x r sku serie t) ps) (unidades-Ascienden ps c)

    -- For a candidate without units or forecasts in the tables, a protocol that is absent or gives a
    -- horizon, and forecasts in the order of their origins, of that horizon, with as many values as
    -- dates and every value finite: after `guardar_unidades` has returned, `cargar_serie` gives the
    -- series back.
    pub guardada_se_lee :
        (b b' : Base fl) (n : ℕ) (h : Option ℕ)
        → Nuevo r sku serie.candidato_id b
        → horizonte x (protocolo_guardado r b.protocolos) ≡ ok h
        → Causales x serie.pronosticos
        → Todos (Sana x) serie.pronosticos
        → Todos (Cuadra x h) serie.pronosticos
        → guardar_unidades x r sku serie t [] b ≡ (ok n, b')
        → cargar_serie x b' r sku serie.candidato_id serie.familia serie.modelo ≡ ok serie
    unfolding cargar_serie
    guardada_se_lee b b' n h nuevo plazo causales sanas cuadran devuelve =
        let ps = serie.pronosticos in
        let (g, lazo) = guardar_unidades-inversa x r sku serie t [] b b' n devuelve in
        let (diarias, (us, fs, prs)) =
          insertar_unidades-nuevas x r sku serie t ps b b' n (Nuevo-Libre b ps nuevo) causales sanas
            lazo in
        rw
          (
            prs,
            plazo,
            us,
            fs,
            unidades_leidas b.unidades ps nuevo.0 causales,
            leidas h b.pronosticos ps (Nuevo-Ajena b ps nuevo) causales sanas diarias cuadran,
          )
          refl
