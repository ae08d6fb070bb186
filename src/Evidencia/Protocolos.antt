-- ===== src/Evidencia/Protocolos.antt =====
-- persistencia_evidencia: a protocol that is fixed stays as it is, whatever is called.
use pred_engine.Prelude.{
  String, ◌≡◌, refl, sym, ◌∙◌, some, List, [], ◌∷◌, ◌++◌, ◌==◌, string_eq, Bool-cases, inl, inr,
}
use pred_engine.Evidencia.Contratos.{Base, Externo, Protocolo}
use pred_engine.Evidencia.Protocolo.{protocolo_guardado}
use pred_engine.Evidencia.Publicacion.{Exportador}
use pred_engine.Evidencia.Efectos.{
  Efecto, nada, seguido, ingesta, alta, rechazo, unidad, evalua, evidencia, demanda, selecciona,
  publica, protocolo, corte,
}
use pred_engine.Evidencia.Ordenes.{Orden, correr, correr_conserva}

protocolo_guardado-append :
    (r : String) (ps : List Protocolo) (p q : Protocolo)
    → protocolo_guardado r ps ≡ some p
    → protocolo_guardado r (ps ++ q ∷ []) ≡ some p
protocolo_guardado-append r [] p q h = cc
protocolo_guardado-append r (a ∷ ps) p q h = elim (Bool-cases (a.run_id == r)) [
  | inl e ↦ rw e (sym (rw e refl) ∙ h)
  | inr e ↦ rw e (protocolo_guardado-append r ps p q (sym (rw e refl) ∙ h))
]

module _ (x : Externo) where
  open x use {fl}

  Efecto-protocolo :
      {b b' : Base fl} (e : Efecto x b b') (r : String) (p : Protocolo)
      → protocolo_guardado r b.protocolos ≡ some p
      → protocolo_guardado r b'.protocolos ≡ some p
  Efecto-protocolo nada r p h = h
  Efecto-protocolo (seguido e f k) r p h = Efecto-protocolo f r p (Efecto-protocolo e r p h)
  Efecto-protocolo (ingesta is) r p h = h
  Efecto-protocolo (alta c ss fs n i) r p h = h
  Efecto-protocolo (rechazo q causa) r p h = h
  Efecto-protocolo (unidad q u ps g e t) r p h = h
  Efecto-protocolo (evalua q g i) r p h = h
  Efecto-protocolo (evidencia q ms cs vs g) r p h = h
  Efecto-protocolo (demanda q os g) r p h = h
  Efecto-protocolo (selecciona q g) r p h = h
  Efecto-protocolo (publica q g v) r p h = h
  Efecto-protocolo (protocolo {b = b} q g) r p h = protocolo_guardado-append r b.protocolos p q h
  Efecto-protocolo (corte q s t ts es g a) r p h = h

  -- Whatever functions are called, and in whatever order, the protocol of a run, once it is fixed, is
  -- not replaced.
  pub correr-protocolo_guardado :
      (exportar : Exportador x) (os : List (Orden x exportar)) (b : Base fl) (r : String)
      (p : Protocolo)
      → protocolo_guardado r b.protocolos ≡ some p
      → protocolo_guardado r (correr x exportar os b).protocolos ≡ some p
  correr-protocolo_guardado exportar os b r p =
      correr_conserva x exportar (λ c. protocolo_guardado r c.protocolos ≡ some p)
        (λ c c' e. Efecto-protocolo e r p) os b
