-- ===== src/Paralelo/EnVuelo.antt =====
-- comun/ejecucion_paralela.py: the generator while it is consumed: what is sent, what is cancelled
-- when the consumer leaves, and what was never read.
use mathlib.Core.List.{append_assoc}
use pred_engine.Prelude.{
  ℕ, suc, ◌≤◌, ◌<◌, ◌≡◌, refl, ap, sym, subst, ◌∙◌, Option, some, List, [], ◌∷◌, ◌++◌, map, length,
  length-map, drop, Todos, enumerar, Todos-append_r, drop-Todos, drop-suc,
}
use pred_engine.Prelude.Result.{ok, ok_injective}
use pred_engine.Paralelo.Unidades.{EtiquetaUnidad, Trabajo}
use pred_engine.Paralelo.Orden.{
  TieneEtiqueta, iterador, fin, entrega, proximo-Turno, envio, enviar-Envio, enviada,
}
use pred_engine.Paralelo.Pool.{cancelar, Maquina, Entrega, Iterador, enviar, proximo}

module _ (x : Trabajo) (q : Maquina x.Tiempo) (etiquetas : Option (List EtiquetaUnidad)) where
  -- The generator after `k` of its results were taken.
  pub data Alcanza (limite : ℕ) (tareas : List x.Tarea) : ℕ → Iterador x q etiquetas → Type 0 where
    inicio : Alcanza limite tareas 0 (iterador x q etiquetas [] (enumerar 0 tareas))
    toma :
        {k : ℕ} {g h : Iterador x q etiquetas} {r : Entrega x q etiquetas}
        → Alcanza limite tareas k g
        → proximo x q etiquetas limite g ≡ ok (some (r, h))
        → Alcanza limite tareas (suc k) h

  data Representa (limite k : ℕ) (tareas : List x.Tarea) (g : Iterador x q etiquetas) : Type 0 where
    representa :
        (env ps : List (ℕ × x.Tarea))
        → g ≡ iterador x q etiquetas env ps
        → drop k (enumerar 0 tareas) ≡ env ++ ps
        → length env < limite
        → Representa limite k tareas g

  Alcanza-Representa :
      (limite : ℕ) (tareas : List x.Tarea)
      → 0 < limite
      → Todos (TieneEtiqueta x q etiquetas) (enumerar 0 tareas)
      → {k : ℕ} {g : Iterador x q etiquetas} → Alcanza limite tareas k g
      → Representa limite k tareas g
  Alcanza-Representa limite tareas pos h inicio = representa [] (enumerar 0 tareas) refl refl pos
  Alcanza-Representa limite tareas pos h (toma {k = k} {g = g} {h = g'} {r = r} antes da) =
      tras (Alcanza-Representa limite tareas pos h antes)
    where
      tras : Representa limite k tareas g → Representa limite (suc k) tareas g'
      tras (representa env ps es quedan cota) =
          let tiene : Todos (TieneEtiqueta x q etiquetas) (env ++ ps) =
            subst (Todos (TieneEtiqueta x q etiquetas)) quedan
              (drop-Todos (TieneEtiqueta x q etiquetas) k (enumerar 0 tareas) h) in
          let da' : proximo x q etiquetas limite (iterador x q etiquetas env ps)
              ≡ ok (some (r, g')) =
            subst (λ i. proximo x q etiquetas limite i ≡ ok (some (r, g'))) es da in
          elim (proximo-Turno x q etiquetas limite env ps tiene) [
            | fin vacia nada ↦ cc (nada, da')
            | entrega p env' ps' parte sale menos ↦
                representa env' ps' (cc (sale, da'))
                  (drop-suc k (enumerar 0 tareas) (quedan ∙ parte)) (menos cota)
          ]

  cancelar-iterador :
      (env ps : List (ℕ × x.Tarea))
      → cancelar x q etiquetas (iterador x q etiquetas env ps) ++ map (λ p. p.0) ps
        ≡ map (λ p. p.0) (env ++ ps)
  unfolding cancelar
  cancelar-iterador [] ps = refl
  cancelar-iterador (p ∷ env) ps = ap (λ l. p.0 ∷ l) (cancelar-iterador env ps)

  -- What is in flight or not read are the tasks from `k` on, in order.
  abbrev pub Restan : ℕ → List x.Tarea → Iterador x q etiquetas → Type 0
  Restan k tareas g =
      cancelar x q etiquetas g ++ map (λ p. p.0) g.pendientes
      ≡ map (λ p. p.0) (drop k (enumerar 0 tareas))

  Restan-iterador :
      (k : ℕ) (tareas : List x.Tarea) (env ps : List (ℕ × x.Tarea)) {g : Iterador x q etiquetas}
      → g ≡ iterador x q etiquetas env ps
      → drop k (enumerar 0 tareas) ≡ env ++ ps
      → Restan k tareas g
  Restan-iterador k tareas env ps es quedan = rw (es, quedan) (cancelar-iterador env ps)

  length-cancelar :
      (env ps : List (ℕ × x.Tarea)) {g : Iterador x q etiquetas}
      → g ≡ iterador x q etiquetas env ps
      → length (cancelar x q etiquetas g) ≡ length env
  unfolding cancelar
  length-cancelar env ps es = rw es (
      length-map (map (enviada x q etiquetas) env) (λ p. p.0)
      ∙ length-map env (enviada x q etiquetas))

  -- With a limit that is not zero and a label for each task: when the consumer has taken `k` results
  -- and asks for the next, the tasks in flight are no more than the limit, and those that would be
  -- cancelled if it left are fewer; before and after sending, the tasks in flight followed by those
  -- not read are the tasks from `k` on, in order.
  pub enviadas_acotadas :
      (limite : ℕ) (tareas : List x.Tarea)
      → 0 < limite
      → Todos (TieneEtiqueta x q etiquetas) (enumerar 0 tareas)
      → {k : ℕ} {g h : Iterador x q etiquetas} → Alcanza limite tareas k g
      → enviar x q etiquetas limite g.pendientes g.enviadas ≡ ok h
      → (length (cancelar x q etiquetas h) ≤ limite)
        × (length (cancelar x q etiquetas g) < limite)
        × Restan k tareas g
        × Restan k tareas h
  enviadas_acotadas limite tareas pos e {k} {g} {h} llega envia =
      elim (Alcanza-Representa limite tareas pos e llega) [
        | representa env ps es quedan cota ↦
            let tiene : Todos (TieneEtiqueta x q etiquetas) (env ++ ps) =
              subst (Todos (TieneEtiqueta x q etiquetas)) quedan
                (drop-Todos (TieneEtiqueta x q etiquetas) k (enumerar 0 tareas) e) in
            elim (enviar-Envio x q etiquetas limite env ps
              (Todos-append_r (TieneEtiqueta x q etiquetas) env ps tiene)) [
                | envio ya resto parte sigue nada llena ↦
                    let da : h ≡ iterador x q etiquetas (env ++ ya) resto =
                      ok_injective (sym envia ∙ rw es refl ∙ sigue) in
                    (
                      subst (λ n. n ≤ limite) (sym (length-cancelar (env ++ ya) resto da))
                          (llena cota),
                      subst (λ n. n < limite) (sym (length-cancelar env ps es)) cota,
                      Restan-iterador k tareas env ps es quedan,
                      Restan-iterador k tareas (env ++ ya) resto da
                          (quedan ∙ rw parte refl ∙ sym (append_assoc env ya resto)),
                    )
              ]
      ]
