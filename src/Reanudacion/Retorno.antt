-- ===== src/Reanudacion/Retorno.antt =====
-- controlador.py: when opening a run again does return.
use pred_engine.Prelude.{String, ◌≡◌, ◌≢◌, refl, true, false, List, [], arith, ◌∙◌}
use pred_engine.Prelude.Result.{Result, ok, err}
use pred_engine.Reanudacion.Contratos.{
  EstadoCorrida, nueva, en_progreso, interrumpida, completada, fallida, SolicitudCorrida,
  ManifiestoCorrida, ReanudacionError,
}
use pred_engine.Reanudacion.Transiciones.{transicionar}
use pred_engine.Reanudacion.Almacen.{existe, guardar, es_ok, escribir_atomico}
use pred_engine.Reanudacion.Controlador.{
  Externo, Mundo, SesionCorrida, reabrir_en, retomar, abrir, referencia,
}
use pred_engine.Reanudacion.Apertura.{LeyesCodec, abrir-EsCoherente}
use pred_engine.Reanudacion.Ciclo.{Orden, correr, ciclo}

devuelto :
    {A W : Type 0} (r : Result ReanudacionError A × W)
    → es_ok r.0 ≡ true
    → (a : A) × (w : W) × (r ≡ (ok a, w))
devuelto (ok a, w) h = (a, w, refl)
devuelto (err e, w) h = cc h

module _ (x : Externo) where
  -- The backend restores whatever it is asked for.
  abbrev pub Restaura : Type 0
  Restaura = (ref : String) (motor : x.Motor) → es_ok (x.restaurar ref motor).0 ≡ true

  reabrir_en-es_ok :
      (e : EstadoCorrida) (m : ManifiestoCorrida) (w : Mundo x)
      → Restaura
      → m.estado ≡ e
      → e ≢ fallida
      → w.disco.sucesos ≡ []
      → es_ok (reabrir_en x e m w).0 ≡ true
  unfolding reabrir_en retomar guardar escribir_atomico transicionar
  reabrir_en-es_ok nueva m w r p ne d =
      ground (arith, r (referencia x m.backend_checkpoint) w.motor)
  reabrir_en-es_ok en_progreso m w r p ne d =
      ground (arith, r (referencia x m.backend_checkpoint) w.motor)
  reabrir_en-es_ok interrumpida m w r p ne d =
      ground (arith, r (referencia x m.backend_checkpoint) w.motor)
  reabrir_en-es_ok completada m w r p ne d =
      ground (arith, r (referencia x m.backend_checkpoint) w.motor)
  reabrir_en-es_ok fallida m w r p ne d = absurd (ne refl)

  module _ (s : SolicitudCorrida x.Flotante x.Espacio) (leyes : LeyesCodec x s) where
    -- With a codec that reads back what it prints: after a first opening and any orders, of which any may raise, a run that is not FALLIDA opens
    -- again: with a disk that does its work from then on, and a backend that restores what it is asked
    -- for, `abrir` returns a session.
    pub abrir_devuelve :
        (w w' : Mundo x) (ses : SesionCorrida x) (os : List Orden)
        → Restaura
        → existe x.codec s.run_id w.disco ≡ false
        → abrir x s w ≡ (ok ses, w')
        → (correr x os (ses, w')).0.manifiesto.estado ≢ fallida
        → (correr x os (ses, w')).1.disco.sucesos ≡ []
        → (ses'' : SesionCorrida x) × (w'' : Mundo x) × (abrir x s (correr x os (ses, w')).1
            ≡ (ok ses'', w''))
    abrir_devuelve w w' ses os r no_hay h ne d =
        let c = ciclo x s w w' ses os no_hay h in
        let p = correr x os (ses, w') in
        let (a, v, e) =
          devuelto (reabrir_en x p.0.manifiesto.estado p.0.manifiesto p.1)
            (reabrir_en-es_ok p.0.manifiesto.estado p.0.manifiesto p.1 r refl ne d) in
        (a, v, abrir-EsCoherente x s leyes p.1 p.0.manifiesto c.de c.coherente ∙ e)
