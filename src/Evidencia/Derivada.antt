-- ===== src/Evidencia/Derivada.antt =====
-- persistencia_evidencia/repositorio.py: what `publicar` leaves in the database and in the directory.
use pred_engine.Prelude.{
  String, ◌≡◌, ◌⊎◌, refl, false, Option, none, some, string_eq, Bool-cases, inl, inr,
}
use pred_engine.Prelude.Result.{Result, ok, err}
use pred_engine.Evidencia.Contratos.{
  EstadoCorrida, en_curso, evaluada, seleccionada, publicada, rechazada, EvidenciaError, Base,
  Externo,
}
use pred_engine.Evidencia.Tablas.{estado_en, con_estado}
use pred_engine.Evidencia.Publicacion.{
  Carpeta, Sucesos, Exportador, Mundo, exportadas, tablas, hay_ajenos, sin_veredicto, revertir,
  exportar_corrida, publicar_en, publicar,
}
use pred_engine.Evidencia.Estados.{estado_en-con_estado}

module _ (x : Externo) (exportar : Exportador x) (r : String) (b : Base x.fl) (d : Carpeta) where
  -- By what `publicar` gives back: it raised, and the database is as it was; or the run is PUBLICADA now,
  -- and it was before, when nothing changes, or it was SELECCIONADA with all its verdicts, when only its
  -- state changes and the directory is the export of the database of after.
  abbrev pub Deriva : Result EvidenciaError (Unit {0}) × Mundo x exportar → Type 0
  Deriva (err e, (b', d')) = b' ≡ b
  Deriva (ok u, (b', d')) =
      (estado_en r b'.corridas ≡ some publicada)
      × (((estado_en r b.corridas ≡ some publicada) × (b' ≡ b) × (d' ≡ d))
          ⊎ ((estado_en r b.corridas ≡ some seleccionada)
              × (sin_veredicto x r b.veredictos b.skus ≡ false)
              × (b' ≡ record b { corridas = con_estado r publicada b.corridas })
              × (d' ≡ some (exportadas x exportar tablas b' r))))

  exportar_corrida-Deriva :
      (s : Sucesos)
      → estado_en r b.corridas ≡ some seleccionada
      → sin_veredicto x r b.veredictos b.skus ≡ false
      → Deriva (revertir x exportar b (exportar_corrida x exportar r s b d))
  unfolding exportar_corrida
  exportar_corrida-Deriva s h v = elim (Bool-cases s.exporta) [
    | inr e ↦ simp e refl
    | inl e ↦ elim (Bool-cases (hay_ajenos d)) [
      | inl a ↦ simp (e, a) refl
      | inr a ↦ elim (Bool-cases s.reemplaza) [
        | inr m ↦ simp (e, a, m) refl
        | inl m ↦
            simp (e, a, m)
              (estado_en-con_estado r seleccionada publicada b.corridas h, inr (h, v, refl, refl))
      ]
    ]
  ]

  -- `publicar` raises and leaves the database as it was; or it returns, and then the run is PUBLICADA, and
  -- either it was before and nothing changes, or it was SELECCIONADA, each of its products has a
  -- verdict, only its state changes, and the directory is the export of the database of after.
  pub publicar-Deriva : (s : Sucesos) → Deriva (publicar x exportar r s (b, d))
  unfolding publicar publicar_en
  publicar-Deriva s = segun (estado_en r b.corridas) refl
    where
      segun :
          (o : Option EstadoCorrida)
          → estado_en r b.corridas ≡ o
          → Deriva (revertir x exportar b (publicar_en x exportar r o s b d))
      segun none h = refl
      segun (some en_curso) h = refl
      segun (some evaluada) h = refl
      segun (some rechazada) h = refl
      segun (some publicada) h = (h, inl (h, refl, refl))
      segun (some seleccionada) h = elim (Bool-cases (sin_veredicto x r b.veredictos b.skus)) [
        | inl v ↦ rw v refl
        | inr v ↦ rw v (exportar_corrida-Deriva s h v)
      ]
