-- ===== src/Paralelo/Resultados.antt =====
-- comun/ejecucion_paralela.py: what a call of `ejecutar_unidades` returns.
use pred_engine.Prelude.{
  ℕ, zero, suc, ◌+◌, ◌<◌, ◌≡◌, refl, ap, subst, ◌∙◌, Option, none, some, inl, inr, List, [], ◌∷◌,
  map, arith, nat_beq, if◌then◌else◌, Bool-cases, length, get_elem?, Todos, enumerar,
}
use pred_engine.Prelude.Int.{ℤ, pos, negsuc}
use pred_engine.Prelude.Result.{ok}
use pred_engine.Paralelo.Unidades.{EtiquetaUnidad, Trabajo, ejecutar_aislada}
use pred_engine.Paralelo.Pool.{
  Maquina, Entrega, etiqueta_de, etapa_de, min_ℤ, al_menos_uno, secuencial, exigir_etiquetas,
  iterar, iterar_unidades, exigir_procesos, ejecutar_unidades,
}
use pred_engine.Paralelo.Orden.{etiqueta_o, TieneEtiqueta, entregada, agotar_estado}

abbrev pub TieneTodas : Option (List EtiquetaUnidad) → ℕ → Type 0
TieneTodas none n = Unit
TieneTodas (some es) n = length es ≡ n

module _ (x : Trabajo) (q : Maquina x.Tiempo) (etiquetas : Option (List EtiquetaUnidad)) where
  -- A task run in the process of the caller.
  abbrev pub directa : ℕ × x.Tarea → Entrega x q etiquetas
  directa (i, t) =
      ejecutar_aislada x t (etiqueta_o x q etiquetas etiquetas i)
        (etapa_de x q etiquetas (etiqueta_o x q etiquetas etiquetas i)) (q.proceso i)

  etiqueta_dentro :
      (es : List EtiquetaUnidad) (i : ℕ)
      → i < length es
      → (e : EtiquetaUnidad) × (get_elem? es i ≡ some e)
  etiqueta_dentro [] i h = absurd (omega arith)
  etiqueta_dentro (e ∷ es) zero h = (e, refl)
  etiqueta_dentro (e ∷ es) (suc i) h = etiqueta_dentro es i (omega arith)

module _ (x : Trabajo) (q : Maquina x.Tiempo) where
  TieneTodas-TieneEtiqueta :
      (etiquetas : Option (List EtiquetaUnidad)) (i : ℕ) (ts : List x.Tarea)
      → TieneTodas etiquetas (i + length ts)
      → Todos (TieneEtiqueta x q etiquetas) (enumerar i ts)
  unfolding etiqueta_de
  TieneTodas-TieneEtiqueta etiquetas i [] h = tt
  TieneTodas-TieneEtiqueta none i (t ∷ ts) h = (refl, TieneTodas-TieneEtiqueta none (suc i) ts tt)
  TieneTodas-TieneEtiqueta (some es) i (t ∷ ts) h =
      let (e, da) = etiqueta_dentro x q none es i (omega arith) in
      (rw da refl, TieneTodas-TieneEtiqueta (some es) (suc i) ts (omega arith))

module _ (x : Trabajo) (q : Maquina x.Tiempo) (etiquetas : Option (List EtiquetaUnidad)) where
  secuencial-directa :
      (i : ℕ) (ts : List x.Tarea)
      → Todos (TieneEtiqueta x q etiquetas) (enumerar i ts)
      → secuencial x q etiquetas i ts ≡ ok (map (directa x q etiquetas) (enumerar i ts))
  unfolding secuencial
  secuencial-directa i [] h = refl
  secuencial-directa i (t ∷ ts) h = rw (h.0, secuencial-directa (suc i) ts h.1) refl

  length-enumerar : (i : ℕ) (ts : List x.Tarea) → length (enumerar i ts) ≡ length ts
  length-enumerar i [] = refl
  length-enumerar i (t ∷ ts) = ap suc (length-enumerar (suc i) ts)

  -- How the call runs the units, for its number of processes and of tasks.
  abbrev pub de_unidad : ℕ → ℕ → ℕ × x.Tarea → Entrega x q etiquetas
  de_unidad procesos n p =
      if nat_beq (al_menos_uno (min_ℤ (pos procesos) n)) 1
      then directa x q etiquetas p
      else entregada x q etiquetas p

  iterar-de_unidad :
      (procesos limite : ℕ) (tareas : List x.Tarea)
      → TieneTodas etiquetas (length tareas)
      → iterar x q etiquetas procesos limite tareas
        ≡ ok (
            map
              (λ p.
                if nat_beq procesos 1 then directa x q etiquetas p else entregada x q etiquetas p)
              (enumerar 0 tareas))
  unfolding iterar
  iterar-de_unidad procesos limite tareas h =
      let tiene =
        TieneTodas-TieneEtiqueta x q etiquetas 0 tareas
          (subst (TieneTodas etiquetas) (omega arith) h) in
      elim (Bool-cases (nat_beq procesos 1)) [
        | inl b ↦ rw b (secuencial-directa 0 tareas tiene)
        | inr b ↦ rw b (
            agotar_estado x q etiquetas limite (suc (length tareas)) [] (enumerar 0 tareas) tiene
              (rw (length-enumerar 0 tareas) (omega arith)))
      ]

  exigir_etiquetas-ok :
      (es : Option (List EtiquetaUnidad)) (n : ℕ)
      → TieneTodas es n
      → exigir_etiquetas x q etiquetas es n ≡ ok tt
  exigir_etiquetas-ok none n h = refl
  exigir_etiquetas-ok (some es) n h = ground arith

  al_menos_uno-suc : (z : ℤ) → (m : ℕ) × (al_menos_uno z ≡ suc m)
  al_menos_uno-suc (pos zero) = (0, refl)
  al_menos_uno-suc (pos (suc n)) = (n, refl)
  al_menos_uno-suc (negsuc n) = (0, refl)

  iterar_unidades-iterar :
      (a b : ℤ) (tareas : List x.Tarea)
      → iterar_unidades x q etiquetas (pos (al_menos_uno a)) (some (pos (al_menos_uno b))) tareas
        ≡ iterar x q etiquetas (al_menos_uno a) (al_menos_uno b) tareas
  unfolding iterar_unidades exigir_procesos
  iterar_unidades-iterar a b tareas =
      let (m, da) = al_menos_uno-suc a in let (k, db) = al_menos_uno-suc b in rw (da, db) refl

  -- With a label for each task, a call with at least one process returns, whatever processes die:
  -- one delivery for each task, in order, and each is that of its own task.
  pub ejecutar_unidades-entrega :
      (n : ℕ) (tareas : List x.Tarea)
      → TieneTodas etiquetas (length tareas)
      → ejecutar_unidades x q etiquetas (pos (suc n)) tareas
        ≡ ok (map (de_unidad (suc n) (length tareas)) (enumerar 0 tareas))
  unfolding ejecutar_unidades exigir_procesos
  ejecutar_unidades-entrega n tareas h = rw (exigir_etiquetas-ok etiquetas (length tareas) h) (
      iterar_unidades-iterar (min_ℤ (pos (suc n)) (length tareas)) (pos (length tareas)) tareas
      ∙ iterar-de_unidad _ _ tareas h)
