-- ===== src/Evidencia/Relectura.antt =====
-- persistencia_evidencia: `guardar_unidades` returns, and `cargar_serie` gives back what it stored.
use pred_engine.Prelude.{
  String, ◌≡◌, refl, ap, ◌∙◌, true, ℕ, ◌+◌, Option, none, some, List, [], ◌∷◌, ◌++◌, map,
  Bool-cases, inl, inr, Todos,
}
use pred_engine.Prelude.Sorted.{any}
use pred_engine.Prelude.Result.{ok}
use pred_engine.Evidencia.Contratos.{en_curso, Base, Externo, PronosticoFechado, SerieCandidato}
use pred_engine.Evidencia.Unidades.{
  Traza, es_unidad, unidad_de, tiene_sku, juzgar_fallo, confirmar, insertar_unidad,
  insertar_unidades, guardar_unidades,
}
use pred_engine.Evidencia.Protocolo.{protocolo_guardado}
use pred_engine.Evidencia.Recuperacion.{horizonte, cargar_serie}
use pred_engine.Evidencia.Efectos.{Esta}
use pred_engine.Evidencia.Lecturas.{Sana, Diaria, Cuadra, filas_de}
use pred_engine.Evidencia.Nuevas.{Causales, juzgar_fallo-Sana}
use pred_engine.Evidencia.Vuelta.{Nuevo, guardada_se_lee}

module _ (x : Externo) (r sku : String) (serie : SerieCandidato x.fl.F) (t : Traza) where
  open x use {fl}

  confirmar-devuelve :
      (p : PronosticoFechado fl.F) (b : Base fl)
      → tiene_sku x r sku b.skus ≡ true
      → (b' : Base fl) × (confirmar x r sku serie t p (ok (none, map some p.valores)) b
          ≡ (ok 1, b'))
        × (b'.skus ≡ b.skus)
  unfolding confirmar
  confirmar-devuelve p b k = (
    record b {
      unidades = b.unidades ++ unidad_de x r sku serie t p.origen none ∷ [];
      pronosticos = b.pronosticos ++ filas_de x r sku serie.candidato_id p;
    },
    rw k refl,
    refl,
  )

  insertar_unidad-devuelve :
      (p : PronosticoFechado fl.F) (b : Base fl)
      → tiene_sku x r sku b.skus ≡ true
      → Diaria x p
      → Sana x p
      → (n : ℕ) × (b' : Base fl) × (insertar_unidad x r sku serie t [] p b ≡ (ok n, b'))
        × (b'.skus ≡ b.skus)
  unfolding insertar_unidad
  insertar_unidad-devuelve p b k d s =
      let (b', e, sk) = confirmar-devuelve p b k in
      let llega : confirmar x r sku serie t p (juzgar_fallo x sku serie p none) b ≡ (ok 1, b') =
        ap (λ j. confirmar x r sku serie t p j b) (juzgar_fallo-Sana x sku serie p s) ∙ e in
      elim (Bool-cases (any (es_unidad r sku serie.candidato_id p.origen) b.unidades)) [
        | inl ya ↦ (0, b, rw ya refl, refl)
        | inr ya ↦ (1, b', rw (ya, d.0, d.1) llega, sk)
      ]

  insertar_unidades-devuelve :
      (ps : List (PronosticoFechado fl.F)) (b : Base fl)
      → tiene_sku x r sku b.skus ≡ true
      → Todos (Diaria x) ps
      → Todos (Sana x) ps
      → (n : ℕ) × (b' : Base fl) × (insertar_unidades x r sku serie t [] ps b ≡ (ok n, b'))
  unfolding insertar_unidades
  insertar_unidades-devuelve [] b k d s = (0, b, refl)
  insertar_unidades-devuelve (p ∷ ps) b k d s =
      let (n, b1, e, sk) = insertar_unidad-devuelve p b k d.0 s.0 in
      let (m, b2, f) = insertar_unidades-devuelve ps b1 (ap (tiene_sku x r sku) sk ∙ k) d.1 s.1 in
      (n + m, b2, rw (e, f) refl)

  -- For a run EN_CURSO with the product, a candidate without units or forecasts in the tables, a
  -- protocol that is absent or gives a horizon, and forecasts in the order of their origins, of that
  -- horizon, for the days behind their origin, with as many values as dates and every value finite:
  -- `guardar_unidades` without failures returns, and from what it leaves `cargar_serie` gives the
  -- series back.
  pub cargar_serie-guardar_unidades :
      (b : Base fl) (h : Option ℕ)
      → Esta x r en_curso b
      → tiene_sku x r sku b.skus ≡ true
      → Nuevo x r sku serie.candidato_id b
      → horizonte x (protocolo_guardado r b.protocolos) ≡ ok h
      → Causales x serie.pronosticos
      → Todos (Diaria x) serie.pronosticos
      → Todos (Sana x) serie.pronosticos
      → Todos (Cuadra x h) serie.pronosticos
      → (n : ℕ) × (b' : Base fl) × (guardar_unidades x r sku serie t [] b ≡ (ok n, b'))
        × (cargar_serie x b' r sku serie.candidato_id serie.familia serie.modelo ≡ ok serie)
  unfolding guardar_unidades
  cargar_serie-guardar_unidades b h abierta conocido nuevo plazo causales diarias sanas cuadran =
      let (n, b', e) = insertar_unidades-devuelve serie.pronosticos b conocido diarias sanas in
      let devuelve : guardar_unidades x r sku serie t [] b ≡ (ok n, b') = rw (abierta, e) refl in
      (
        n,
        b',
        devuelve,
        guardada_se_lee x r sku serie t b b' n h nuevo plazo causales sanas cuadran devuelve,
      )
