-- ===== src/Evidencia/Intactas.antt =====
-- persistencia_evidencia: a unit that is confirmed is not rewritten, whatever is called.
use mathlib.Core.List.{append-nil, append_assoc}
use pred_engine.Prelude.{◌≡◌, refl, sym, ap, ◌∙◌, List, [], ◌∷◌, ◌++◌}
use pred_engine.Evidencia.Contratos.{Base, Externo, Unidad, Pronostico}
use pred_engine.Evidencia.Publicacion.{Exportador}
use pred_engine.Evidencia.Efectos.{
  Efecto, nada, seguido, ingesta, alta, rechazo, unidad, evalua, evidencia, demanda, selecciona,
  publica, protocolo, corte,
}
use pred_engine.Evidencia.Ordenes.{Orden, correr, correr_conserva}

module _ (x : Externo) where
  open x use {fl}

  -- The units and the forecasts that were there are there, in their order, before the new ones.
  abbrev pub Prefijo : Base fl → Base fl → Type 0
  Prefijo b b' =
      ((us : List Unidad) × (b'.unidades ≡ b.unidades ++ us))
      × ((ps : List (Pronostico fl.F)) × (b'.pronosticos ≡ b.pronosticos ++ ps))

  iguales : (b : Base fl) → Prefijo b b
  iguales b = (([], sym (append-nil b.unidades)), ([], sym (append-nil b.pronosticos)))

  Prefijo_trans : (b c d : Base fl) → Prefijo b c → Prefijo c d → Prefijo b d
  Prefijo_trans b c d ((us, eu), (ps, ep)) ((vs, ev), (qs, eq)) = (
    (us ++ vs, ev ∙ (ap (λ t. t ++ vs) eu ∙ append_assoc b.unidades us vs)),
    (ps ++ qs, eq ∙ (ap (λ t. t ++ qs) ep ∙ append_assoc b.pronosticos ps qs)),
  )

  pub Efecto-Prefijo : {b b' : Base fl} → Efecto x b b' → Prefijo b b'
  Efecto-Prefijo (nada {b = b}) = iguales b
  Efecto-Prefijo (seguido {b = b} {c = c} {d = d} e f k) =
      Prefijo_trans b c d (Efecto-Prefijo e) (Efecto-Prefijo f)
  Efecto-Prefijo (ingesta {b = b} is) = iguales b
  Efecto-Prefijo (alta {b = b} c ss fs n i) = iguales b
  Efecto-Prefijo (rechazo {b = b} q causa) = iguales b
  Efecto-Prefijo (unidad q u ps g e t) = ((u ∷ [], refl), (ps, refl))
  Efecto-Prefijo (evalua {b = b} q g i) = iguales b
  Efecto-Prefijo (evidencia {b = b} q ms cs vs g) = iguales b
  Efecto-Prefijo (demanda {b = b} q os g) = iguales b
  Efecto-Prefijo (selecciona {b = b} q g) = iguales b
  Efecto-Prefijo (publica {b = b} q g v) = iguales b
  Efecto-Prefijo (protocolo {b = b} p g) = iguales b
  Efecto-Prefijo (corte {b = b} q s t ts es g a) = iguales b

  -- Whatever functions are called, and in whatever order, every unit and every forecast of the tables
  -- stays as it is and where it is: new rows come after them.
  pub correr-Prefijo :
      (exportar : Exportador x) (os : List (Orden x exportar)) (b : Base fl)
      → Prefijo b (correr x exportar os b)
  correr-Prefijo exportar os b =
      correr_conserva x exportar (Prefijo b) (λ c d e h. Prefijo_trans b c d h (Efecto-Prefijo e))
        os b (iguales b)
