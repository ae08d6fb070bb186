-- ===== src/Paralelo/Anuncio.antt =====
-- comun/ejecucion_paralela.py: what a unit with a label leaves in the file of progress.
use pred_engine.Prelude.{
  ℕ, String, ◌≡◌, refl, true, Option, none, some, inl, inr, List, [], map, take, drop, drop-suc,
  get_elem?-drop, length, enumerar, nat_beq, suc, arith, Bool-cases, ◌∷◌, ◌++◌,
}
use pred_engine.Prelude.Result.{Result, ok, err, Pares, nil, cons}
use pred_engine.Paralelo.Codigos.{Excepcion}
use pred_engine.Paralelo.Unidades.{
  Evento, unit_started, unit_finished, durable, linea, EtiquetaUnidad, Proceso, Trabajo, Resultado,
  Rastro, correr_aislada, completar_con, tras_completar, emitir_evento, evento_inicio, evento_fin,
  ejecutar_aislada,
}
use pred_engine.Prelude.Int.{pos}
use pred_engine.Paralelo.Orden.{etiqueta_o}
use pred_engine.Paralelo.Resultados.{de_unidad, ejecutar_unidades-entrega}
use pred_engine.Paralelo.Pool.{
  al_menos_uno, min_ℤ, ejecutar_unidades, Destino, vive, muere, rechazada, Maquina, Entrega,
  futuro_de, enviar_unidad, resultado_de,
}

module _ (x : Trabajo) where
  -- A unit with a value was stored, and announced only then; one without a value is announced last.
  pub data Anuncio (e : EtiquetaUnidad) : Resultado x → Rastro x → Type 0 where
    guardada :
        {r : Resultado x} (p : Proceso x.Tiempo)
        → Anuncio e r (
            linea (unit_started e p.pid p.started_at)
            ∷ durable r
            ∷ linea (unit_finished e r.registro)
            ∷ [])
    sin_valor :
        {r : Resultado x} (antes : Rastro x)
        → r.valor ≡ none
        → Anuncio e r (antes ++ linea (unit_finished e r.registro) ∷ [])

  emitir_evento-linea :
      (ev : Evento x.Tiempo) → x.escribe ev ≡ true → emitir_evento x ev ≡ linea ev ∷ []
  unfolding emitir_evento
  emitir_evento-linea ev h = rw h refl

  completar_con-Anuncio :
      (f : x.Tarea → Resultado x → Result Excepcion (Unit {0})) (v : Option x.R) (t : x.Tarea)
      (r : Resultado x) (etapa : Option String) (e : EtiquetaUnidad) (p : Proceso x.Tiempo)
      → r.valor ≡ v
      → Anuncio e (completar_con x (some f) v t r etapa).0 (
          linea (unit_started e p.pid p.started_at) ∷ (completar_con x (some f) v t r etapa).1
          ++ linea (unit_finished e (completar_con x (some f) v t r etapa).0.registro) ∷ [])
  completar_con-Anuncio f none t r etapa e p h =
      sin_valor (linea (unit_started e p.pid p.started_at) ∷ []) h
  completar_con-Anuncio f (some v) t r etapa e p h = segun (f t r)
    where
      segun :
          (c : Result Excepcion (Unit {0}))
          → Anuncio e (tras_completar x c r etapa).0 (
              linea (unit_started e p.pid p.started_at) ∷ (tras_completar x c r etapa).1
              ++ linea (unit_finished e (tras_completar x c r etapa).0.registro) ∷ [])
      segun (ok u) = guardada p
      segun (err exc) = sin_valor (linea (unit_started e p.pid p.started_at) ∷ []) refl

  -- Every write is accepted, there is a file, and results are stored.
  pub record Vigilado : Type 0 where
    pub guardar : x.Tarea → Resultado x → Result Excepcion (Unit {0})
    pub guarda : x.al_completar ≡ some guardar
    pub ruta : String
    pub anuncia : x.progreso ≡ some ruta
    pub escribe : (ev : Evento x.Tiempo) → x.escribe ev ≡ true

  ejecutar_aislada-Anuncio :
      (v : Vigilado) (t : x.Tarea) (e : EtiquetaUnidad) (etapa : Option String)
      (p : Proceso x.Tiempo)
      → Anuncio e
          (ejecutar_aislada x t (some e) etapa p).0
          (ejecutar_aislada x t (some e) etapa p).1
  unfolding ejecutar_aislada evento_inicio evento_fin emitir_evento
  ejecutar_aislada-Anuncio v t e etapa p =
      simp (v.guarda, v.anuncia, v.escribe)
        (completar_con-Anuncio v.guardar (correr_aislada x t etapa p).valor t
          (correr_aislada x t etapa p) etapa e p refl)

module _ (x : Trabajo) (q : Maquina x.Tiempo) (etiquetas : Option (List EtiquetaUnidad)) where
  entrega-Anuncio :
      (v : Vigilado x) (i : ℕ) (t : x.Tarea) (e : EtiquetaUnidad) (d : Destino x.Tiempo)
      → Anuncio x e
          (resultado_de x q etiquetas i (futuro_de x q etiquetas d t (some e)) (some e)).0
          (resultado_de x q etiquetas i (futuro_de x q etiquetas d t (some e)) (some e)).1
  unfolding resultado_de evento_fin emitir_evento
  entrega-Anuncio v i t e (vive p) = ejecutar_aislada-Anuncio x v t e (some e.etapa) p
  entrega-Anuncio v i t e (muere p n exc) =
      simp (v.anuncia, v.escribe)
        (sin_valor (take n (ejecutar_aislada x t (some e) (some e.etapa) p).1) refl)
  entrega-Anuncio v i t e (rechazada exc) = simp (v.anuncia, v.escribe) (sin_valor [] refl)

  de_unidad-Anuncio :
      (v : Vigilado x) (k n i : ℕ) (t : x.Tarea) (e : EtiquetaUnidad)
      → etiqueta_o x q etiquetas etiquetas i ≡ some e
      → Anuncio x e (de_unidad x q etiquetas k n (i, t)).0 (de_unidad x q etiquetas k n (i, t)).1
  unfolding enviar_unidad
  de_unidad-Anuncio v k n i t e da =
      elim (Bool-cases (nat_beq (al_menos_uno (min_ℤ (pos k) n)) 1)) [
        | inl b ↦ rw (b, da) (ejecutar_aislada-Anuncio x v t e (some e.etapa) (q.proceso i))
        | inr b ↦ rw (b, da) (entrega-Anuncio v i t e (q.destino i))
      ]

module _ (x : Trabajo) (q : Maquina x.Tiempo) where
  entregas-Anuncio :
      (v : Vigilado x) (es : List EtiquetaUnidad) (k n i : ℕ) (ts : List x.Tarea)
      (quedan : List EtiquetaUnidad)
      → drop i es ≡ quedan
      → length quedan ≡ length ts
      → Pares
          (λ e d. Anuncio x e d.0 d.1)
          quedan
          (map (de_unidad x q (some es) k n) (enumerar i ts))
  entregas-Anuncio v es k n i [] [] da largo = nil
  entregas-Anuncio v es k n i (t ∷ ts) [] da largo = absurd (omega arith)
  entregas-Anuncio v es k n i [] (e ∷ quedan) da largo = absurd (omega arith)
  entregas-Anuncio v es k n i (t ∷ ts) (e ∷ quedan) da largo =
      cons (de_unidad-Anuncio x q (some es) v k n i t e (get_elem?-drop i es da))
        (entregas-Anuncio v es k n (suc i) ts quedan (drop-suc i es da) (omega arith))

  -- With a label for each task, `al_completar`, a file of progress and a disk that takes its lines,
  -- and whatever processes die: each delivery that carries a value has left, in this order, the line
  -- of its start, the call of `al_completar` that stored it, and the line of its end; one without a
  -- value has left the line of its end last; and the line of the end has the record that is
  -- delivered.
  pub ejecutar_unidades-Anuncio :
      (v : Vigilado x) (es : List EtiquetaUnidad) (n : ℕ) (tareas : List x.Tarea)
      → length es ≡ length tareas
      → (ds : List (Entrega x q (some es))) × (ejecutar_unidades x q (some es) (pos (suc n)) tareas
          ≡ ok ds)
        × Pares (λ e d. Anuncio x e d.0 d.1) es ds
  ejecutar_unidades-Anuncio v es n tareas largo = (
    _,
    ejecutar_unidades-entrega x q (some es) n tareas largo,
    entregas-Anuncio v es (suc n) (length tareas) 0 tareas es refl largo,
  )
