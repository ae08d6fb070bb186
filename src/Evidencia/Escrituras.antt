-- ===== src/Evidencia/Escrituras.antt =====
-- Each operation of persistencia_evidencia writes only what an effect allows.
use pred_engine.Prelude.{
  String, ◌≡◌, refl, ap, ◌∙◌, true, ℕ, suc, Option, some, List, [], ◌∷◌, string_eq, nat_eq,
  Bool-cases, inl, inr, Todos,
}
use pred_engine.Prelude.Sorted.{any}
use pred_engine.Prelude.Result.{Result, ok, err}
use pred_engine.Evidencia.Contratos.{
  EstadoCorrida, en_curso, evaluada, seleccionada, publicada, rechazada, EvidenciaError, Externo,
  Pronostico, FalloPronostico, PronosticoFechado, SerieCandidato,
}
use pred_engine.Evidencia.Unidades.{
  Traza, Fallos, UnidadPronostico, Valores, es_en_curso, es_unidad, es_vacia, mismas, rango,
  filas_desde, tiene_sku, juzgar_fallo, fallo_en, confirmar, insertar_unidad, insertar_unidades,
  guardar_unidades, serie_de, traza_de, fallos_de, insertar_generadas, guardar_unidades_generadas,
}
use pred_engine.Evidencia.Efectos.{nada, unidad, Conserva, Escribe, Conserva->>=, exigir-Efecto}

module _ (x : Externo) where
  open x use {fl}

  filas_desde-Todos :
      (h : ℕ) (r sku cid : String) (o : ℕ) (fs : List ℕ) (vs : Valores x)
      → Todos (λ (p : Pronostico fl.F). p.run_id ≡ r) (filas_desde x h r sku cid o fs vs)
  filas_desde-Todos h r sku cid o [] vs = tt
  filas_desde-Todos h r sku cid o (f ∷ fs) [] = tt
  filas_desde-Todos h r sku cid o (f ∷ fs) (v ∷ vs) =
      (refl, filas_desde-Todos (suc h) r sku cid o fs vs)

  pub es_en_curso-eq : (s : EstadoCorrida) → es_en_curso s ≡ true → s ≡ en_curso
  es_en_curso-eq en_curso h = refl
  es_en_curso-eq evaluada h = cc
  es_en_curso-eq seleccionada h = cc
  es_en_curso-eq publicada h = cc
  es_en_curso-eq rechazada h = cc

  confirmar-Conserva :
      (r sku : String) (serie : SerieCandidato fl.F) (t : Traza) (p : PronosticoFechado fl.F)
      (j : Result EvidenciaError (Option FalloPronostico × Valores x))
      → Conserva x r en_curso (confirmar x r sku serie t p j)
  unfolding confirmar
  confirmar-Conserva r sku serie t p (err e) b h = (nada, refl)
  confirmar-Conserva r sku serie t p (ok (fallo, vs)) b h =
      elim (Bool-cases (tiene_sku x r sku b.skus)) [
        | inl s ↦ rw s (
          unidad r _ _ h refl (filas_desde-Todos 1 r sku serie.candidato_id p.origen p.fechas vs),
          refl,
        )
        | inr s ↦ rw s (nada, refl)
      ]

  pub insertar_unidad-Conserva :
      (r sku : String) (serie : SerieCandidato fl.F) (t : Traza) (fallos : Fallos)
      (p : PronosticoFechado fl.F)
      → Conserva x r en_curso (insertar_unidad x r sku serie t fallos p)
  unfolding insertar_unidad
  insertar_unidad-Conserva r sku serie t fallos p b h =
      elim (Bool-cases (any (es_unidad r sku serie.candidato_id p.origen) b.unidades)) [
        | inl ya ↦ rw ya (nada, refl)
        | inr ya ↦ elim (Bool-cases (es_vacia p.fechas)) [
          | inl v ↦ rw (ya, v) (nada, refl)
          | inr v ↦ elim (Bool-cases (mismas p.fechas (rango (suc p.origen) p.fechas))) [
            | inl m ↦
                rw (ya, v, m)
                  (confirmar-Conserva r sku serie t p
                    (juzgar_fallo x sku serie p (fallo_en p.origen fallos)) b h)
            | inr m ↦ rw (ya, v, m) (nada, refl)
          ]
        ]
      ]

  pub insertar_unidades-Conserva :
      (r sku : String) (serie : SerieCandidato fl.F) (t : Traza) (fallos : Fallos)
      (ps : List (PronosticoFechado fl.F))
      → Conserva x r en_curso (insertar_unidades x r sku serie t fallos ps)
  unfolding insertar_unidades
  insertar_unidades-Conserva r sku serie t fallos [] b h = (nada, refl)
  insertar_unidades-Conserva r sku serie t fallos (p ∷ ps) b h =
      Conserva->>= x r en_curso (insertar_unidad x r sku serie t fallos p) _
        (insertar_unidad-Conserva r sku serie t fallos p)
        (λ una.
          Conserva->>= x r en_curso (insertar_unidades x r sku serie t fallos ps) _
            (insertar_unidades-Conserva r sku serie t fallos ps) (λ otras b' h'. (nada, refl)))
        b h

  insertar_generadas-Conserva :
      (r : String) (us : List (UnidadPronostico fl.F))
      → Conserva x r en_curso (insertar_generadas x r us)
  unfolding insertar_generadas
  insertar_generadas-Conserva r [] b h = (nada, refl)
  insertar_generadas-Conserva r (u ∷ us) b h =
      Conserva->>= x r en_curso
        (insertar_unidades x r u.sku (serie_de x u) (traza_de x u)
          (fallos_de x u.pronostico.origen u.fallo) (u.pronostico ∷ []))
        _
        (insertar_unidades-Conserva r u.sku (serie_de x u) (traza_de x u)
          (fallos_de x u.pronostico.origen u.fallo) (u.pronostico ∷ []))
        (λ una.
          Conserva->>= x r en_curso (insertar_generadas x r us) _ (insertar_generadas-Conserva r us)
            (λ otras b' h'. (nada, refl)))
        b h

  pub guardar_unidades-Escribe :
      (r sku : String) (serie : SerieCandidato fl.F) (t : Traza) (fallos : Fallos)
      → Escribe x (guardar_unidades x r sku serie t fallos)
  unfolding guardar_unidades
  guardar_unidades-Escribe r sku serie t fallos =
      exigir-Efecto x r "guardar_unidades" es_en_curso
        (λ s. insertar_unidades x r sku serie t fallos serie.pronosticos)
        (λ s b a h.
          (insertar_unidades-Conserva r sku serie t fallos serie.pronosticos b
            (h ∙ ap some (es_en_curso-eq s a))).0)

  pub guardar_unidades_generadas-Escribe :
      (r : String) (us : List (UnidadPronostico fl.F))
      → Escribe x (guardar_unidades_generadas x r us)
  unfolding guardar_unidades_generadas
  guardar_unidades_generadas-Escribe r [] b = nada
  guardar_unidades_generadas-Escribe r (u ∷ us) b =
      exigir-Efecto x r "guardar_unidades_generadas" es_en_curso
        (λ s. insertar_generadas x r (u ∷ us))
        (λ s b a h. (insertar_generadas-Conserva r (u ∷ us) b (h ∙ ap some (es_en_curso-eq s a))).0)
        b
