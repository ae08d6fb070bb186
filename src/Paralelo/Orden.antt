-- ===== src/Paralelo/Orden.antt =====
-- comun/ejecucion_paralela.py: what the consumer of a pool is given, and when.
use mathlib.Core.List.{append-nil, append_assoc, map-append}
use pred_engine.Prelude.{
  ℕ, zero, suc, ◌≤◌, ◌<◌, ◌≡◌, refl, ap, sym, subst, ◌∙◌, Option, none, some, inl, inr, List, [],
  ◌∷◌, ◌++◌, map, arith, leb, if◌then◌else◌, Bool-cases, length, length-append, get_elem?, Todos,
  Todos-append_r, nada_queda,
}
use pred_engine.Prelude.Result.{ok}
use pred_engine.Paralelo.Unidades.{EtiquetaUnidad, Trabajo}
use pred_engine.Paralelo.Pool.{
  Maquina, Futuro, Entrega, Iterador, etiqueta_de, enviar_unidad, resultado_de, enviar, entregar,
  proximo, agotar,
}

module _ (x : Trabajo) (q : Maquina x.Tiempo) (etiquetas : Option (List EtiquetaUnidad)) where
  abbrev pub etiqueta_o : Option (List EtiquetaUnidad) → ℕ → Option EtiquetaUnidad
  etiqueta_o none i = none
  etiqueta_o (some es) i = get_elem? es i

  abbrev pub TieneEtiqueta : ℕ × x.Tarea → Type 0
  TieneEtiqueta (i, t) = etiqueta_de x q etiquetas i ≡ ok (etiqueta_o etiquetas i)

  -- What the pool makes of a task, and what the consumer is given for it.
  abbrev pub enviada : ℕ × x.Tarea → ℕ × Futuro x q etiquetas
  enviada (i, t) = (i, enviar_unidad x q etiquetas i t (etiqueta_o etiquetas i))

  abbrev pub entregada : ℕ × x.Tarea → Entrega x q etiquetas
  entregada (i, t) =
      resultado_de x q etiquetas i (enviar_unidad x q etiquetas i t (etiqueta_o etiquetas i))
        (etiqueta_o etiquetas i)

  abbrev pub iterador : List (ℕ × x.Tarea) → List (ℕ × x.Tarea) → Iterador x q etiquetas
  iterador env ps = record { pendientes = ps; enviadas = map enviada env }

  -- A turn of sending takes tasks from the front, at least one when there is one.
  pub data Envio (limite : ℕ) (env ps : List (ℕ × x.Tarea)) : Type 0 where
    envio :
        (ya resto : List (ℕ × x.Tarea))
        → ps ≡ ya ++ resto
        → enviar x q etiquetas limite ps (map enviada env) ≡ ok (iterador (env ++ ya) resto)
        → (length ya ≡ 0 → ps ≡ [])
        → (length env < limite → length (env ++ ya) ≤ limite)
        → Envio limite env ps

  length-enviada :
      (env : List (ℕ × x.Tarea)) (p : ℕ × x.Tarea)
      → length (map enviada env ++ enviada p ∷ []) ≡ length (env ++ p ∷ [])
  length-enviada [] p = refl
  length-enviada (e ∷ env) p = ap suc (length-enviada env p)

  enviar_turno :
      (limite : ℕ) (env ps : List (ℕ × x.Tarea)) (p : ℕ × x.Tarea)
      → TieneEtiqueta p
      → enviar x q etiquetas limite (p ∷ ps) (map enviada env) ≡ (
          if leb limite (length (env ++ p ∷ []))
          then ok (iterador (env ++ p ∷ []) ps)
          else enviar x q etiquetas limite ps (map enviada (env ++ p ∷ [])))
  unfolding enviar
  enviar_turno limite env ps (i, t) h =
      rw (map-append enviada env ((i, t) ∷ []), h) (rw (length-enviada env (i, t)) refl)

  pub enviar-Envio :
      (limite : ℕ) (env ps : List (ℕ × x.Tarea)) → Todos TieneEtiqueta ps → Envio limite env ps
  unfolding enviar
  enviar-Envio limite env [] h =
      envio [] [] refl (rw (append-nil env) refl) (λ _. refl)
        (λ c. rw (append-nil env) (omega arith))
  enviar-Envio limite env (p ∷ ps) h = elim (Bool-cases (leb limite (length (env ++ p ∷ [])))) [
    | inl b ↦
        envio (p ∷ []) ps refl (enviar_turno limite env ps p h.0 ∙ rw b refl)
          (λ e. absurd (omega arith)) (λ c. omega (arith, length-append env (p ∷ [])))
    | inr b ↦
        con_mas p (enviar_turno limite env ps p h.0 ∙ rw b refl) (λ c. ground arith)
          (enviar-Envio limite (env ++ p ∷ []) ps h.1)
  ]
    where
      con_mas :
          (p : ℕ × x.Tarea)
          → enviar x q etiquetas limite (p ∷ ps) (map enviada env)
            ≡ enviar x q etiquetas limite ps (map enviada (env ++ p ∷ []))
          → (length env < limite → length (env ++ p ∷ []) < limite)
          → Envio limite (env ++ p ∷ []) ps
          → Envio limite env (p ∷ ps)
      con_mas p turno cabe (envio ya resto parte sigue nada cota) =
          envio (p ∷ ya) resto (rw parte refl)
            (turno ∙ sigue ∙ ap (λ l. ok (iterador l resto)) (append_assoc env (p ∷ []) ya))
            (λ e. absurd (omega arith))
            (λ c. subst (λ l. length l ≤ limite) (append_assoc env (p ∷ []) ya) (cota (cabe c)))

  -- A turn of the generator ends it, or delivers the first of the tasks that are left.
  pub data Turno (limite : ℕ) (env ps : List (ℕ × x.Tarea)) : Type 0 where
    fin :
        env ++ ps ≡ []
        → proximo x q etiquetas limite (iterador env ps) ≡ ok none
        → Turno limite env ps
    entrega :
        (p : ℕ × x.Tarea) (env' ps' : List (ℕ × x.Tarea))
        → env ++ ps ≡ p ∷ (env' ++ ps')
        → proximo x q etiquetas limite (iterador env ps)
          ≡ ok (some (entregada p, iterador env' ps'))
        → (length env < limite → length env' < limite)
        → Turno limite env ps

  pub proximo-Turno :
      (limite : ℕ) (env ps : List (ℕ × x.Tarea))
      → Todos TieneEtiqueta (env ++ ps)
      → Turno limite env ps
  unfolding proximo
  proximo-Turno limite env ps h =
      con_cola (enviar-Envio limite env ps (Todos-append_r TieneEtiqueta env ps h))
    where
      de_cola :
          (cola resto : List (ℕ × x.Tarea))
          → env ++ ps ≡ cola ++ resto
          → (length cola ≡ 0 → env ++ ps ≡ [])
          → proximo x q etiquetas limite (iterador env ps)
            ≡ entregar x q etiquetas resto (map enviada cola)
          → (length env < limite → length cola ≤ limite)
          → Turno limite env ps
      de_cola [] resto parte nada da cota = fin (nada refl) da
      de_cola ((i, t) ∷ cola) resto parte nada da cota =
          let tiene : Todos TieneEtiqueta ((i, t) ∷ (cola ++ resto)) =
            subst (Todos TieneEtiqueta) parte h in
          entrega (i, t) cola resto parte (da ∙ rw (tiene.0) refl) (λ c. omega (arith, cota c))

      con_cola : Envio limite env ps → Turno limite env ps
      con_cola (envio ya resto parte sigue nada cota) =
          de_cola (env ++ ya) resto (rw parte (sym (append_assoc env ya resto)))
            (nada_queda env ya ps nada) (rw sigue refl) cota

  pub agotar_estado :
      (limite fuel : ℕ) (env ps : List (ℕ × x.Tarea))
      → Todos TieneEtiqueta (env ++ ps)
      → length (env ++ ps) < fuel
      → agotar x q etiquetas fuel limite (iterador env ps) ≡ ok (map entregada (env ++ ps))
  unfolding agotar
  agotar_estado limite zero env ps h cota = absurd (omega arith)
  agotar_estado limite (suc fuel) env ps h cota = elim (proximo-Turno limite env ps h) [
    | fin vacia da ↦ rw (da, vacia) refl
    | entrega p env' ps' parte da menos ↦
        let quedan : Todos TieneEtiqueta (p ∷ (env' ++ ps')) =
          subst (Todos TieneEtiqueta) parte h in
        let corta : length (p ∷ (env' ++ ps')) < suc fuel =
          subst (λ l. length l < suc fuel) parte cota in
        rw (da, agotar_estado limite fuel env' ps' quedan.1 (omega arith), parte) refl
  ]
