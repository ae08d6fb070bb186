-- ===== src/Evidencia/Nuevas.antt =====
-- persistencia_evidencia/repositorio.py: `_insertar_unidades` of a candidate that has no unit yet.
use pred_engine.Prelude.{
  String, ◌≡◌, refl, sym, ap, subst, ◌∙◌, Bool, true, false, not, ◌||◌, ℕ, suc, ◌<◌, none, some,
  List, [], ◌∷◌, ◌++◌, map, string_eq, nat_eq, nat_beq, Bool-cases, inl, inr, Todos, length, arith,
}
use mathlib.Core.List.{append_assoc, append-nil}
use pred_engine.Prelude.Sorted.{any, all}
use pred_engine.Prelude.Filtros.{Ascienden}
use pred_engine.Prelude.Result.{ok}
use pred_engine.Evidencia.Contratos.{
  Base, Externo, Unidad, Pronostico, PronosticoFechado, SerieCandidato,
}
use pred_engine.Evidencia.Unidades.{
  Traza, es_vacia, mismas, rango, es_ninguno, es_unidad, o_finito, unidad_de, tiene_sku,
  juzgar_fallo, confirmar, insertar_unidad, insertar_unidades,
}
use pred_engine.Evidencia.Retornos.{continue-inversa}
use pred_engine.Evidencia.Lecturas.{Sana, Diaria, filas_de}

pub antes_no_es : (a b : ℕ) → a < b → nat_beq a b ≡ false
antes_no_es a b h = ground arith

pub ni_mal : (a b : Bool) → (a || not b) ≡ false → (a ≡ false) × (b ≡ true)
ni_mal true b h = cc
ni_mal false true h = (refl, refl)
ni_mal false false h = cc

module _ (x : Externo) where
  open x use {fl}

  finitos-some :
      (vs : List fl.F)
      → all x.finito vs ≡ true
      → (map (o_finito x) vs ≡ map some vs) × (any (es_ninguno {A = fl.F}) (map some vs) ≡ false)
  finitos-some [] h = (refl, refl)
  finitos-some (v ∷ vs) h = elim (Bool-cases (x.finito v)) [
    | inl e ↦ let (i, j) = finitos-some vs (rw e at h) in (rw (e, i) refl, j)
    | inr e ↦ cc (rw e at h)
  ]

  pub juzgar_fallo-Sana :
      (sku : String) (serie : SerieCandidato fl.F) (p : PronosticoFechado fl.F)
      → Sana x p
      → juzgar_fallo x sku serie p none ≡ ok (none, map some p.valores)
  juzgar_fallo-Sana sku serie p s =
      let (i, j) = finitos-some p.valores s.1 in
      rw ((nat_eq.refleja (length p.valores) (length p.fechas)).1 s.0, i, j) refl

  abbrev pub Causales : List (PronosticoFechado fl.F) → Type 0
  Causales ps = Ascienden (λ p q. p.origen < q.origen) ps

  module _ (r sku : String) (serie : SerieCandidato fl.F) (t : Traza) where
    abbrev pub suya : PronosticoFechado fl.F → Unidad
    suya p = unidad_de x r sku serie t p.origen none

    abbrev pub filas_todas : List (PronosticoFechado fl.F) → List (Pronostico fl.F)
    filas_todas [] = []
    filas_todas (p ∷ ps) = filas_de x r sku serie.candidato_id p ++ filas_todas ps

    abbrev pub Escrito : Base fl → Base fl → List (PronosticoFechado fl.F) → Type 0
    Escrito b b' ps =
        (b'.unidades ≡ b.unidades ++ map suya ps)
        × (b'.pronosticos ≡ b.pronosticos ++ filas_todas ps)
        × (b'.protocolos ≡ b.protocolos)

    abbrev pub Libre : Base fl → PronosticoFechado fl.F → Type 0
    Libre b p = any (es_unidad r sku serie.candidato_id p.origen) b.unidades ≡ false

    abbrev Anotado : Base fl → Base fl → PronosticoFechado fl.F → Type 0
    Anotado b b' p =
        (b'.unidades ≡ b.unidades ++ suya p ∷ [])
        × (b'.pronosticos ≡ b.pronosticos ++ filas_de x r sku serie.candidato_id p)
        × (b'.protocolos ≡ b.protocolos)

    confirmar-Anotado :
        (p : PronosticoFechado fl.F) (b b' : Base fl) (n : ℕ)
        → confirmar x r sku serie t p (ok (none, map some p.valores)) b ≡ (ok n, b')
        → Anotado b b' p
    unfolding confirmar
    confirmar-Anotado p b b' n h = elim (Bool-cases (tiene_sku x r sku b.skus)) [
      | inr e ↦ cc (rw e at h)
      | inl e ↦
          let q = ap (λ w. w.1) (rw e at h) in
          (
            sym (ap (λ (w : Base fl). w.unidades) q),
            sym (ap (λ (w : Base fl). w.pronosticos) q),
            sym (ap (λ (w : Base fl). w.protocolos) q),
          )
    ]

    insertar_unidad-nueva :
        (p : PronosticoFechado fl.F) (b b' : Base fl) (n : ℕ)
        → Libre b p
        → Sana x p
        → insertar_unidad x r sku serie t [] p b ≡ (ok n, b')
        → Diaria x p × Anotado b b' p
    unfolding insertar_unidad
    insertar_unidad-nueva p b b' n libre s h =
        elim (Bool-cases
          (es_vacia p.fechas || not (mismas p.fechas (rango (suc p.origen) p.fechas)))) [
            | inl mal ↦ cc (rw (libre, mal) at h)
            | inr mal ↦ (
              ni_mal (es_vacia p.fechas) (mismas p.fechas (rango (suc p.origen) p.fechas)) mal,
              confirmar-Anotado p b b' n (
                  subst (λ j. confirmar x r sku serie t p j b ≡ (ok n, b'))
                    (juzgar_fallo-Sana sku serie p s) (rw (libre, mal) at h)),
            )
          ]

    any-append_nada :
        (q : Unidad → Bool) (us : List Unidad) (u : Unidad)
        → any q us ≡ false
        → q u ≡ false
        → any q (us ++ u ∷ []) ≡ false
    any-append_nada q [] u h e = rw e refl
    any-append_nada q (v ∷ us) u h e = elim (Bool-cases (q v)) [
      | inl i ↦ cc (rw i at h)
      | inr i ↦ rw (i, any-append_nada q us u (rw i at h) e) refl
    ]

    no_es_suya :
        (p q : PronosticoFechado fl.F)
        → p.origen < q.origen
        → es_unidad r sku serie.candidato_id q.origen (suya p) ≡ false
    no_es_suya p q h =
        rw
          (
            (string_eq.refleja r r).1 refl,
            (string_eq.refleja sku sku).1 refl,
            (string_eq.refleja serie.candidato_id serie.candidato_id).1 refl,
            antes_no_es p.origen q.origen h,
          )
          refl

    -- The unit of a forecast leaves those of later origins free.
    siguen :
        (p : PronosticoFechado fl.F) (ps : List (PronosticoFechado fl.F)) (b b1 : Base fl)
        → b1.unidades ≡ b.unidades ++ suya p ∷ []
        → Todos (Libre b) ps
        → Todos (λ (q : PronosticoFechado fl.F). p.origen < q.origen) ps
        → Todos (Libre b1) ps
    siguen p [] b b1 e libres antes = tt
    siguen p (q ∷ ps) b b1 e libres antes = (
      ap (any (es_unidad r sku serie.candidato_id q.origen)) e
          ∙ any-append_nada (es_unidad r sku serie.candidato_id q.origen) b.unidades (suya p)
              libres.0 (no_es_suya p q antes.0),
      siguen p ps b b1 e libres.1 antes.1,
    )

    -- What the loop over new forecasts has written, and that their dates are in order.
    pub insertar_unidades-nuevas :
        (ps : List (PronosticoFechado fl.F)) (b b' : Base fl) (n : ℕ)
        → Todos (Libre b) ps
        → Causales ps
        → Todos (Sana x) ps
        → insertar_unidades x r sku serie t [] ps b ≡ (ok n, b')
        → Todos (Diaria x) ps × Escrito b b' ps
    unfolding insertar_unidades
    insertar_unidades-nuevas [] b b' n libres causales sanas h =
        let q : b' ≡ b = sym (ap (λ w. w.1) h) in
        (
          tt,
          (
            ap (λ w. w.unidades) q ∙ sym (append-nil b.unidades),
            ap (λ w. w.pronosticos) q ∙ sym (append-nil b.pronosticos),
            ap (λ w. w.protocolos) q,
          ),
        )
    insertar_unidades-nuevas (p ∷ ps) b b' n libres causales sanas h =
        let (k, b1, e1, h1) = continue-inversa (insertar_unidad x r sku serie t [] p b) _ h in
        let (m, b2, e2, h2) = continue-inversa (insertar_unidades x r sku serie t [] ps b1) _ h1 in
        let llega : b2 ≡ b' = ap (λ w. w.1) h2 in
        let (dia, (us1, fs1, ps1)) = insertar_unidad-nueva p b b1 k libres.0 sanas.0 e1 in
        let (dias, (us2, fs2, ps2)) =
          insertar_unidades-nuevas ps b1 b2 m (siguen p ps b b1 us1 libres.1 causales.0) causales.1
            sanas.1 e2 in
        (
          (dia, dias),
          (
            ap (λ w. w.unidades) (sym llega)
                ∙ us2
                ∙ ap (λ w. w ++ map suya ps) us1
                ∙ append_assoc b.unidades (suya p ∷ []) (map suya ps),
            ap (λ w. w.pronosticos) (sym llega)
                ∙ fs2
                ∙ ap (λ w. w ++ filas_todas ps) fs1
                ∙ append_assoc b.pronosticos (filas_de x r sku serie.candidato_id p)
                    (filas_todas ps),
            ap (λ w. w.protocolos) (sym llega) ∙ ps2 ∙ ps1,
          ),
        )
