-- ===== src/Evidencia/Retornos.antt =====
-- persistencia_evidencia/repositorio.py: what calls that returned say.
use pred_engine.Prelude.{String, ◌≡◌, refl, ap, ◌∙◌, ℕ, Option, none, some, Bool-cases, inl, inr}
use pred_engine.Prelude.Result.{Result, ok, err}
use pred_engine.Prelude.Exec.{continue}
use pred_engine.Evidencia.Contratos.{
  EstadoCorrida, en_curso, EvidenciaError, Base, Externo, SerieCandidato,
}
use pred_engine.Evidencia.Tablas.{estado_en, cerrar, exigir_en}
use pred_engine.Evidencia.Unidades.{Traza, Fallos, es_en_curso, insertar_unidades, guardar_unidades}
use pred_engine.Evidencia.Efectos.{Esta}
use pred_engine.Evidencia.Escrituras.{es_en_curso-eq}

pub continue-inversa :
    {S E A B : Type 0} (q : Result E A × S) (f : A → S → Result E B × S) {c : B} {s : S}
    → continue q f ≡ (ok c, s)
    → (a : A) × (s' : S) × (q ≡ (ok a, s')) × (f a s' ≡ (ok c, s))
continue-inversa (ok a, s') f h = (a, s', refl, h)
continue-inversa (err e, s') f h = cc

module _ (x : Externo) (r sku : String) where
  open x use {fl}

  -- What a call of `guardar_unidades` that returned says: the run is EN_CURSO, and the loop returned.
  pub guardar_unidades-inversa :
      (serie : SerieCandidato fl.F) (t : Traza) (fallos : Fallos) (b b' : Base fl) (n : ℕ)
      → guardar_unidades x r sku serie t fallos b ≡ (ok n, b')
      → Esta x r en_curso b
        × (insertar_unidades x r sku serie t fallos serie.pronosticos b ≡ (ok n, b'))
  unfolding guardar_unidades
  guardar_unidades-inversa serie t fallos b b' n h = segun (estado_en r b.corridas) refl h
    where
      abierto : (q : Result EvidenciaError ℕ × Base fl) → cerrar x b q ≡ (ok n, b') → q ≡ (ok n, b')
      abierto (ok m, b1) e = e
      abierto (err m, b1) e = cc

      segun :
          (o : Option EstadoCorrida)
          → estado_en r b.corridas ≡ o
          → cerrar x b (
              continue
                (exigir_en x r o es_en_curso "guardar_unidades" b)
                (λ s. insertar_unidades x r sku serie t fallos serie.pronosticos))
            ≡ (ok n, b')
          → Esta x r en_curso b
            × (insertar_unidades x r sku serie t fallos serie.pronosticos b ≡ (ok n, b'))
      segun none e k = cc
      segun (some s) e k = elim (Bool-cases (es_en_curso s)) [
        | inl a ↦ (
          e ∙ ap some (es_en_curso-eq x s a),
          abierto (insertar_unidades x r sku serie t fallos serie.pronosticos b) (rw a at k),
        )
        | inr a ↦ cc (rw a at k)
      ]
