-- ===== src/Evidencia/Repetidas.antt =====
-- persistencia_evidencia/repositorio.py: `guardar_unidades` of units that are confirmed already.
use pred_engine.Prelude.{
  String, ◌≡◌, refl, sym, ap, subst, ◌∙◌, true, not, ◌||◌, ℕ, suc, Option, List, [], ◌∷◌, map,
  string_eq, nat_eq, Bool-cases, inl, inr, Todos,
}
use pred_engine.Prelude.Sorted.{any}
use pred_engine.Prelude.Filtros.{any-append_l, any-append_r}
use pred_engine.Prelude.Result.{Result, ok, err}
use pred_engine.Evidencia.Contratos.{
  en_curso, EvidenciaError, Base, Externo, Unidad, FalloPronostico, PronosticoFechado,
  SerieCandidato,
}
use pred_engine.Evidencia.Unidades.{
  Traza, Fallos, Valores, es_unidad, es_vacia, mismas, rango, unidad_de, tiene_sku, juzgar_fallo,
  fallo_en, confirmar, insertar_unidad, insertar_unidades, guardar_unidades,
}
use pred_engine.Evidencia.Efectos.{Esta, Esta-mismas}
use pred_engine.Evidencia.Escrituras.{insertar_unidad-Conserva, insertar_unidades-Conserva}
use pred_engine.Evidencia.Retornos.{continue-inversa, guardar_unidades-inversa}
use pred_engine.Evidencia.Intactas.{Efecto-Prefijo}

module _ (x : Externo) (r sku : String) where
  open x use {fl}

  -- A forecast of a candidate has its unit.
  abbrev Guardado : String → Base fl → PronosticoFechado fl.F → Type 0
  Guardado cid b p = any (es_unidad r sku cid p.origen) b.unidades ≡ true

  propia :
      (serie : SerieCandidato fl.F) (t : Traza) (o : ℕ) (f : Option FalloPronostico)
      → es_unidad r sku serie.candidato_id o (unidad_de x r sku serie t o f) ≡ true
  propia serie t o f =
      rw
        (
          (string_eq.refleja r r).1 refl,
          (string_eq.refleja sku sku).1 refl,
          (string_eq.refleja serie.candidato_id serie.candidato_id).1 refl,
          (nat_eq.refleja o o).1 refl,
        )
        refl

  confirmar-Guardado :
      (serie : SerieCandidato fl.F) (t : Traza) (p : PronosticoFechado fl.F)
      (j : Result EvidenciaError (Option FalloPronostico × Valores x)) (b b' : Base fl) (n : ℕ)
      → confirmar x r sku serie t p j b ≡ (ok n, b')
      → Guardado serie.candidato_id b' p
  unfolding confirmar
  confirmar-Guardado serie t p (err e) b b' n h = cc
  confirmar-Guardado serie t p (ok (fallo, vs)) b b' n h =
      elim (Bool-cases (tiene_sku x r sku b.skus)) [
        | inr e ↦ cc (rw e at h)
        | inl e ↦
            subst (λ (w : Base fl). Guardado serie.candidato_id w p) (ap (λ w. w.1) (rw e at h))
              (any-append_r (es_unidad r sku serie.candidato_id p.origen) b.unidades
                (unidad_de x r sku serie t p.origen fallo ∷ [])
                (rw (propia serie t p.origen fallo) refl))
      ]

  insertar_unidad-Guardado :
      (serie : SerieCandidato fl.F) (t : Traza) (fallos : Fallos) (p : PronosticoFechado fl.F)
      (b b' : Base fl) (n : ℕ)
      → insertar_unidad x r sku serie t fallos p b ≡ (ok n, b')
      → Guardado serie.candidato_id b' p
  unfolding insertar_unidad
  insertar_unidad-Guardado serie t fallos p b b' n h =
      elim (Bool-cases (any (es_unidad r sku serie.candidato_id p.origen) b.unidades)) [
        | inl ya ↦
            subst (λ (w : Base fl). Guardado serie.candidato_id w p) (ap (λ w. w.1) (rw ya at h)) ya
        | inr ya ↦
            elim (Bool-cases
              (es_vacia p.fechas || not (mismas p.fechas (rango (suc p.origen) p.fechas)))) [
                | inl mal ↦ cc (rw (ya, mal) at h)
                | inr mal ↦
                    confirmar-Guardado serie t p
                      (juzgar_fallo x sku serie p (fallo_en p.origen fallos)) b b' n
                      (rw (ya, mal) at h)
              ]
      ]

  -- A call that returned has a unit for each forecast.
  insertar_unidades-Guardado :
      (serie : SerieCandidato fl.F) (t : Traza) (fallos : Fallos)
      (ps : List (PronosticoFechado fl.F)) (b b' : Base fl) (n : ℕ)
      → Esta x r en_curso b
      → insertar_unidades x r sku serie t fallos ps b ≡ (ok n, b')
      → Todos (Guardado serie.candidato_id b') ps
  unfolding insertar_unidades
  insertar_unidades-Guardado serie t fallos [] b b' n g h = tt
  insertar_unidades-Guardado serie t fallos (p ∷ ps) b b' n g h =
      let q = es_unidad r sku serie.candidato_id p.origen in
      let (k, b1, e1, h1) = continue-inversa (insertar_unidad x r sku serie t fallos p b) _ h in
      let (m, b2, e2, h2) =
        continue-inversa (insertar_unidades x r sku serie t fallos ps b1) _ h1 in
      let g1 : Esta x r en_curso b1 =
        subst (λ w. Esta x r en_curso w) (ap (λ w. w.1) e1)
          (Esta-mismas x r en_curso b (insertar_unidad x r sku serie t fallos p b).1
            (insertar_unidad-Conserva x r sku serie t fallos p b g).1 g) in
      let ((us, eu), nada_mas) =
        Efecto-Prefijo x (insertar_unidades-Conserva x r sku serie t fallos ps b1 g1).0 in
      let queda : Guardado serie.candidato_id b2 p =
        subst (λ (w : List Unidad). any q w ≡ true) (sym eu ∙ ap (λ w. w.1.unidades) e2)
          (any-append_l q b1.unidades us (insertar_unidad-Guardado serie t fallos p b b1 k e1)) in
      subst (λ w. Todos (Guardado serie.candidato_id w) (p ∷ ps)) (ap (λ w. w.1) h2)
        (queda, insertar_unidades-Guardado serie t fallos ps b1 b2 m g1 e2)

  -- Forecasts that have their units write nothing.
  insertar_unidades-nada :
      (serie : SerieCandidato fl.F) (t : Traza) (fallos : Fallos)
      (ps : List (PronosticoFechado fl.F)) (b : Base fl)
      → Todos (Guardado serie.candidato_id b) ps
      → insertar_unidades x r sku serie t fallos ps b ≡ (ok 0, b)
  unfolding insertar_unidades insertar_unidad
  insertar_unidades-nada serie t fallos [] b h = refl
  insertar_unidades-nada serie t fallos (p ∷ ps) b (e, h) =
      rw (e, insertar_unidades-nada serie t fallos ps b h) refl

  con_origenes :
      (cid : String) (b : Base fl) (ps : List (PronosticoFechado fl.F))
      → Todos (Guardado cid b) ps
      → Todos
          (λ o. any (es_unidad r sku cid o) b.unidades ≡ true)
          (map (λ (p : PronosticoFechado fl.F). p.origen) ps)
  con_origenes cid b [] h = tt
  con_origenes cid b (p ∷ ps) (e, h) = (e, con_origenes cid b ps h)

  de_origenes :
      (cid : String) (b : Base fl) (ps : List (PronosticoFechado fl.F))
      → Todos
          (λ o. any (es_unidad r sku cid o) b.unidades ≡ true)
          (map (λ (p : PronosticoFechado fl.F). p.origen) ps)
      → Todos (Guardado cid b) ps
  de_origenes cid b [] h = tt
  de_origenes cid b (p ∷ ps) (e, h) = (e, de_origenes cid b ps h)

  -- After a call of `guardar_unidades` has returned, a second call for the same run, product and
  -- candidate and the same origins returns 0 and changes nothing, whatever its dates, values,
  -- failures, model, version or seed.
  pub guardar_unidades-repetida :
      (serie serie' : SerieCandidato fl.F) (t t' : Traza) (fallos fallos' : Fallos) (b b' : Base fl)
      (n : ℕ)
      → guardar_unidades x r sku serie t fallos b ≡ (ok n, b')
      → serie'.candidato_id ≡ serie.candidato_id
      → map (λ (p : PronosticoFechado fl.F). p.origen) serie'.pronosticos
        ≡ map (λ (p : PronosticoFechado fl.F). p.origen) serie.pronosticos
      → guardar_unidades x r sku serie' t' fallos' b' ≡ (ok 0, b')
  unfolding guardar_unidades
  guardar_unidades-repetida serie serie' t t' fallos fallos' b b' n h mismo origenes =
      let (g, lazo) = guardar_unidades-inversa x r sku serie t fallos b b' n h in
      let sigue : Esta x r en_curso b' =
        subst (λ w. Esta x r en_curso w) (ap (λ w. w.1) lazo)
          (Esta-mismas x r en_curso b
            (insertar_unidades x r sku serie t fallos serie.pronosticos b).1
            (insertar_unidades-Conserva x r sku serie t fallos serie.pronosticos b g).1 g) in
      let guardados =
        con_origenes serie.candidato_id b' serie.pronosticos
          (insertar_unidades-Guardado serie t fallos serie.pronosticos b b' n g lazo) in
      let suyos : Todos (λ o. any (es_unidad r sku serie'.candidato_id o) b'.unidades ≡ true)
          (map (λ (p : PronosticoFechado fl.F). p.origen) serie'.pronosticos) =
        subst
          (λ w.
            Todos (λ o. any (es_unidad r sku w o) b'.unidades ≡ true)
              (map (λ (p : PronosticoFechado fl.F). p.origen) serie'.pronosticos))
          (sym mismo)
          (subst (Todos (λ o. any (es_unidad r sku serie.candidato_id o) b'.unidades ≡ true))
            (sym origenes) guardados) in
      rw
        (
          sigue,
          insertar_unidades-nada serie' t' fallos' serie'.pronosticos b'
              (de_origenes serie'.candidato_id b' serie'.pronosticos suyos),
        )
        refl
