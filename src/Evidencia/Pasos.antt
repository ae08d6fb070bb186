-- ===== src/Evidencia/Pasos.antt =====
-- The operations of persistencia_evidencia that move the state of a run write only what an effect allows.
use pred_engine.Prelude.{
  String, ◌≡◌, refl, true, false, Option, none, some, string_eq, nat_eq, Bool-cases, inl, inr,
}
use pred_engine.Evidencia.Contratos.{
  EstadoCorrida, en_curso, evaluada, seleccionada, publicada, rechazada, Base, Externo,
}
use pred_engine.Evidencia.Tablas.{estado_en}
use pred_engine.Evidencia.Protocolo.{protocolo_guardado}
use pred_engine.Evidencia.Marca.{admite_marcar, confirmadas, incompleta, marcar_en, marcar_evaluada}
use pred_engine.Evidencia.Publicacion.{
  Carpeta, Sucesos, Exportador, sin_veredicto, hay_ajenos, revertir, exportar_corrida, publicar_en,
  publicar,
}
use pred_engine.Evidencia.Efectos.{Efecto, nada, evalua, publica, Esta, Escribe, exigir-Efecto}

module _ (x : Externo) where
  open x use {fl}

  marcar_en-Efecto :
      (r : String) (s : EstadoCorrida) (b : Base fl)
      → admite_marcar s ≡ true
      → Esta x r s b
      → Efecto x b (marcar_en x r s b).1
  unfolding marcar_en
  marcar_en-Efecto r en_curso b a h =
      elim (Bool-cases
        (incompleta (protocolo_guardado r b.protocolos) (confirmadas r b.unidades))) [
          | inl i ↦ rw i nada
          | inr i ↦ rw i (evalua r h i)
        ]
  marcar_en-Efecto r evaluada b a h = nada
  marcar_en-Efecto r seleccionada b a h = nada
  marcar_en-Efecto r publicada b a h = nada
  marcar_en-Efecto r rechazada b a h = nada

  pub marcar_evaluada-Escribe : (r : String) → Escribe x (marcar_evaluada x r)
  unfolding marcar_evaluada
  marcar_evaluada-Escribe r =
      exigir-Efecto x r "marcar_evaluada" admite_marcar (marcar_en x r) (marcar_en-Efecto r)

  exportar_corrida-Efecto :
      (exportar : Exportador x) (r : String) (s : Sucesos) (b : Base fl) (d : Carpeta)
      → Esta x r seleccionada b
      → sin_veredicto x r b.veredictos b.skus ≡ false
      → Efecto x b (revertir x exportar b (exportar_corrida x exportar r s b d)).1.0
  unfolding exportar_corrida
  exportar_corrida-Efecto exportar r s b d h v = elim (Bool-cases s.exporta) [
    | inr e ↦ simp e nada
    | inl e ↦ elim (Bool-cases (hay_ajenos d)) [
      | inl a ↦ simp (e, a) nada
      | inr a ↦ elim (Bool-cases s.reemplaza) [
        | inl m ↦ simp (e, a, m) (publica r h v)
        | inr m ↦ simp (e, a, m) nada
      ]
    ]
  ]

  pub publicar-Escribe :
      (exportar : Exportador x) (r : String) (s : Sucesos) (b : Base fl) (d : Carpeta)
      → Efecto x b (publicar x exportar r s (b, d)).1.0
  unfolding publicar publicar_en
  publicar-Escribe exportar r s b d = segun (estado_en r b.corridas) refl
    where
      segun :
          (o : Option EstadoCorrida)
          → estado_en r b.corridas ≡ o
          → Efecto x b (revertir x exportar b (publicar_en x exportar r o s b d)).1.0
      segun none h = nada
      segun (some en_curso) h = nada
      segun (some evaluada) h = nada
      segun (some rechazada) h = nada
      segun (some publicada) h = nada
      segun (some seleccionada) h = elim (Bool-cases (sin_veredicto x r b.veredictos b.skus)) [
        | inl v ↦ rw v nada
        | inr v ↦ rw v (exportar_corrida-Efecto exportar r s b d h v)
      ]
