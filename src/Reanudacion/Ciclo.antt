-- ===== src/Reanudacion/Ciclo.antt =====
-- controlador.py: a run from its first opening to a crash at any point, and its recovery.

use pred_engine.Prelude.{ℕ, ◌≡◌, refl, false, List, [], ◌∷◌, arith, ap, sym, ◌∙◌}
use pred_engine.Prelude.Result.{Result, ok, err}
use pred_engine.Reanudacion.Contratos.{
  EstadoCorrida, en_progreso, interrumpida, completada, fallida, SolicitudCorrida,
  ManifiestoCorrida, ReanudacionError, corrida_fallida,
}
use pred_engine.Reanudacion.Transiciones.{Alcanza, aqui, luego}
use pred_engine.Reanudacion.Almacen.{existe}
use pred_engine.Reanudacion.Controlador.{
  Externo, Mundo, SesionCorrida, reabrir_en, abrir, avanzar, checkpoint, interrumpir, completar,
  fallar, Accion,
}
use pred_engine.Reanudacion.Avance.{Avance, EsCoherente, avanzar-Avance, avanzar_raises}
use pred_engine.Reanudacion.Apertura.{
  LeyesCodec, EsDe, estado_reabierto, abrir-EsCoherente, reabrir_en_lem, crear_corrida_lem,
  manifiesto_nuevo-Coincide,
}

-- What the caller of a session asks for, with the trials finished so far.
pub data Orden : Type 0 where
  punto interrupcion cierre fallo : ℕ → Orden

module _ (x : Externo) where
  abbrev pub objetivo_de : Orden → EstadoCorrida
  objetivo_de (punto n) = en_progreso
  objetivo_de (interrupcion n) = interrumpida
  objetivo_de (cierre n) = completada
  objetivo_de (fallo n) = fallida

  abbrev pub trials_de : Orden → ℕ
  trials_de (punto n) = n
  trials_de (interrupcion n) = n
  trials_de (cierre n) = n
  trials_de (fallo n) = n

  unfoldable pub ordenar : Orden → SesionCorrida x → Accion x (SesionCorrida x)
  unfolding checkpoint interrumpir completar fallar
  ordenar (punto n) ses = checkpoint x ses n
  ordenar (interrupcion n) ses = interrumpir x ses n
  ordenar (cierre n) ses = completar x ses n
  ordenar (fallo n) ses = fallar x ses n

  ordenar-avanzar :
      (o : Orden) (ses : SesionCorrida x)
      → ordenar o ses ≡ avanzar x (objetivo_de o) ses (trials_de o)
  unfolding ordenar
  ordenar-avanzar (punto n) ses = refl
  ordenar-avanzar (interrupcion n) ses = refl
  ordenar-avanzar (cierre n) ses = refl
  ordenar-avanzar (fallo n) ses = refl

  -- A call that raises leaves the caller with the session that it had.
  abbrev tras :
      SesionCorrida x
      → Result ReanudacionError (SesionCorrida x) × Mundo x
      → SesionCorrida x × Mundo x
  tras ses (ok ses', w) = (ses', w)
  tras ses (err e, w) = (ses, w)

  unfoldable pub correr : List Orden → SesionCorrida x × Mundo x → SesionCorrida x × Mundo x
  correr [] p = p
  correr (o ∷ os) p = correr os (tras p.0 (ordenar o p.0 p.1))

  module _ (s : SolicitudCorrida x.Flotante x.Espacio) where
    -- A session of the request whose manifest is the one on disk, in a state reached from `a`.
    pub record EnCurso (a : EstadoCorrida) (p : SesionCorrida x × Mundo x) : Type 0 where
      pub de : EsDe x s p.0.manifiesto
      pub coherente : EsCoherente x p.1 p.0.manifiesto
      pub alcanza : Alcanza a p.0.manifiesto.estado

    Avance-EsDe :
        (antes despues : SesionCorrida x) (n : ℕ) (w w' : Mundo x)
        → Avance x antes despues n w w'
        → EsDe x s antes.manifiesto
        → EsDe x s despues.manifiesto
    Avance-EsDe antes despues n w w' a d =
        let e = ap (λ (t : SesionCorrida x). t.manifiesto) a.solo_avance in
        record {
          run_id = ap (λ (t : ManifiestoCorrida). t.run_id) e ∙ d.run_id;
          version = ap (λ (t : ManifiestoCorrida). t.version_esquema) e ∙ d.version;
          coincide = record {
            familia = ap (λ (t : ManifiestoCorrida). t.familia) e ∙ d.coincide.familia;
            sku_id = ap (λ (t : ManifiestoCorrida). t.sku_id) e ∙ d.coincide.sku_id;
            seed = ap (λ (t : ManifiestoCorrida). t.seed) e ∙ d.coincide.seed;
            metrica_objetivo =
                ap (λ (t : ManifiestoCorrida). t.metrica_objetivo) e ∙ d.coincide.metrica_objetivo;
            validacion =
                ap (λ (t : ManifiestoCorrida). t.configuracion_validacion) e
                ∙ d.coincide.validacion;
            n_trials_objetivo =
                ap (λ (t : ManifiestoCorrida). t.n_trials_objetivo) e
                ∙ d.coincide.n_trials_objetivo;
            huella =
                ap (λ (t : ManifiestoCorrida). t.fingerprint_configuracion) e ∙ d.coincide.huella;
          };
        }

    tras-EnCurso :
        (a : EstadoCorrida) (o : Orden) (ses : SesionCorrida x) (w : Mundo x)
        (r : Result ReanudacionError (SesionCorrida x) × Mundo x)
        → avanzar x (objetivo_de o) ses (trials_de o) w ≡ r
        → EnCurso a (ses, w)
        → EnCurso a (tras ses r)
    tras-EnCurso a o ses w (ok ses', w') h c =
        let v = avanzar-Avance x (objetivo_de o) ses (trials_de o) w w' ses' h in
        record {
          de = Avance-EsDe ses ses' (trials_de o) w w' v c.de;
          coherente = v.coherente;
          alcanza = luego c.alcanza v.paso;
        }
    tras-EnCurso a o ses w (err e, w') h c = record {
      de = c.de;
      coherente =
          avanzar_raises x (objetivo_de o) ses (trials_de o) w w' e ses.manifiesto.run_id h
          ∙ c.coherente;
      alcanza = c.alcanza;
    }

    correr-EnCurso :
        (a : EstadoCorrida) (os : List Orden) (p : SesionCorrida x × Mundo x)
        → EnCurso a p
        → EnCurso a (correr os p)
    unfolding correr
    correr-EnCurso a [] p c = c
    correr-EnCurso a (o ∷ os) p c = correr-EnCurso a os (tras p.0 (ordenar o p.0 p.1)) (
        tras-EnCurso a o p.0 p.1 (ordenar o p.0 p.1)
          (ap (λ (f : Accion x (SesionCorrida x)). f p.1) (sym (ordenar-avanzar o p.0))) c)

    -- The first opening of a run that has no manifest.
    abrir-EnCurso :
        (w w' : Mundo x) (ses : SesionCorrida x)
        → existe x.codec s.run_id w.disco ≡ false
        → abrir x s w ≡ (ok ses, w')
        → EnCurso en_progreso (ses, w')
    unfolding abrir
    abrir-EnCurso w w' ses no_hay h =
        let (e, c) = crear_corrida_lem x s w w' ses (ground arith) in
        record {
          de = record {
            run_id = ap (λ (t : ManifiestoCorrida). t.run_id) e;
            version = ap (λ (t : ManifiestoCorrida). t.version_esquema) e;
            coincide =
                rw e (manifiesto_nuevo-Coincide x s en_progreso ses.manifiesto.backend_checkpoint);
          };
          coherente = c;
          alcanza = rw e aqui;
        }

    -- A run is opened for the first time, then the caller gives any orders, any of which may raise
    -- (the disk may also fail halfway through a write), and then the process dies. The manifest in
    -- memory is the one on disk, it still matches the request, and its state is one that the state
    -- machine reaches from EN_PROGRESO.
    pub ciclo :
        (w w' : Mundo x) (ses : SesionCorrida x) (os : List Orden)
        → existe x.codec s.run_id w.disco ≡ false
        → abrir x s w ≡ (ok ses, w')
        → EnCurso en_progreso (correr os (ses, w'))
    ciclo w w' ses os no_hay h =
        correr-EnCurso en_progreso os (ses, w') (abrir-EnCurso w w' ses no_hay h)

    module _ (leyes : LeyesCodec x s) where
      -- With a codec that reads back what it prints: a run is opened for the first time, then the
      -- caller gives any orders, any of which may raise, and the process dies. Opening the run again
      -- with the same request, if it returns, gives
      -- the manifest of the last order that returned (so no finished trial is lost or invented),
      -- in state COMPLETADA if the run was complete and EN_PROGRESO otherwise, and the disk holds it.
      pub recuperacion :
          (w w' : Mundo x) (ses : SesionCorrida x) (os : List Orden) (w'' : Mundo x)
          (ses'' : SesionCorrida x)
          → existe x.codec s.run_id w.disco ≡ false
          → abrir x s w ≡ (ok ses, w')
          → abrir x s (correr os (ses, w')).1 ≡ (ok ses'', w'')
          → (ses''.manifiesto ≡ record ((correr os (ses, w')).0.manifiesto) {
            estado = estado_reabierto x s (correr os (ses, w')).0.manifiesto.estado;
          })
            × EsCoherente x w'' ses''.manifiesto
      recuperacion w w' ses os w'' ses'' no_hay h otra =
          let c = ciclo w w' ses os no_hay h in
          let p = correr os (ses, w') in
          let (e, k) =
            reabrir_en_lem x s p.1 w'' ses'' p.0.manifiesto.estado p.0.manifiesto refl
              (sym (abrir-EsCoherente x s leyes p.1 p.0.manifiesto c.de c.coherente) ∙ otra) in
          (e, k c.coherente)

      -- With a codec that reads back what it prints: after a first opening and any orders that leave
      -- the run in state FALLIDA, opening it again is refused, and the refusal changes nothing.
      pub fallida_no_reabre :
          (w w' : Mundo x) (ses : SesionCorrida x) (os : List Orden)
          → existe x.codec s.run_id w.disco ≡ false
          → abrir x s w ≡ (ok ses, w')
          → (correr os (ses, w')).0.manifiesto.estado ≡ fallida
          → abrir x s (correr os (ses, w')).1 ≡ (err corrida_fallida, (correr os (ses, w')).1)
      unfolding reabrir_en
      fallida_no_reabre w w' ses os no_hay h f =
          let c = ciclo w w' ses os no_hay h in
          let p = correr os (ses, w') in
          abrir-EsCoherente x s leyes p.1 p.0.manifiesto c.de c.coherente
          ∙ ap (λ (e : EstadoCorrida). reabrir_en x e p.0.manifiesto p.1) f
