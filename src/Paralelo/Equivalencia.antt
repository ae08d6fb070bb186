-- ===== src/Paralelo/Equivalencia.antt =====
-- comun/ejecucion_paralela.py: with how many processes the units run does not change their results.
use pred_engine.Prelude.{
  ℕ, suc, String, ◌≡◌, refl, ap₂, sym, ◌∙◌, Bool, Option, none, some, inl, inr, List, [], ◌∷◌, map,
  nat_beq, Bool-cases, length, enumerar,
}
use pred_engine.Prelude.Int.{pos}
use pred_engine.Prelude.Result.{Result, ok, err}
use pred_engine.Paralelo.Codigos.{Excepcion}
use pred_engine.Paralelo.Unidades.{
  EstadoUnidad, EtiquetaUnidad, Proceso, Trabajo, Resultado, correr, correr_aislada, completar_con,
  tras_completar, ejecutar_aislada,
}
use pred_engine.Paralelo.Pool.{
  vive, Maquina, Entrega, enviar_unidad, resultado_de, min_ℤ, al_menos_uno, ejecutar_unidades,
}
use pred_engine.Paralelo.Resultados.{TieneTodas, directa, de_unidad, ejecutar_unidades-entrega}

-- The result of a unit, less the process that ran it and its clock.
pub record Vista (R : Type 0) : Type 0 where
  pub estado : EstadoUnidad
  pub error : Option String
  pub codigo : Option String
  pub valor : Option R
  pub reutilizado : Bool

module _ (x : Trabajo) where
  abbrev pub vista : Resultado x → Vista x.R
  vista r = record {
    estado = r.registro.estado;
    error = r.registro.error;
    codigo = r.registro.codigo;
    valor = r.valor;
    reutilizado = r.reutilizado;
  }

  -- `al_completar` answers the same whatever process has run the unit.
  abbrev pub SinReloj : Option (x.Tarea → Resultado x → Result Excepcion (Unit {0})) → Type 0
  SinReloj none = Unit
  SinReloj (some f) = (t : x.Tarea) (r s : Resultado x) → vista r ≡ vista s → f t r ≡ f t s

  abbrev pub Viven : Maquina x.Tiempo → Type 0
  Viven q = (i : ℕ) → (p : Proceso x.Tiempo) × (q.destino i ≡ vive p)

  correr-vista :
      (r : Result Excepcion (Option x.R)) (etapa : Option String) (p p' : Proceso x.Tiempo)
      → vista (correr x r etapa p) ≡ vista (correr x r etapa p')
  correr-vista (ok v) etapa p p' = refl
  correr-vista (err e) etapa p p' = refl

  correr-valor :
      (r : Result Excepcion (Option x.R)) (etapa : Option String) (p p' : Proceso x.Tiempo)
      → (correr x r etapa p).valor ≡ (correr x r etapa p').valor
  correr-valor (ok v) etapa p p' = refl
  correr-valor (err e) etapa p p' = refl

  tras_completar-vista :
      (c : Result Excepcion (Unit {0})) (r s : Resultado x) (etapa : Option String)
      → vista r ≡ vista s
      → vista (tras_completar x c r etapa).0 ≡ vista (tras_completar x c s etapa).0
  tras_completar-vista (ok u) r s etapa iguales = iguales
  tras_completar-vista (err e) r s etapa iguales = refl

  completar_con-vista :
      (f : Option (x.Tarea → Resultado x → Result Excepcion (Unit {0}))) (v : Option x.R)
      (t : x.Tarea) (r s : Resultado x) (etapa : Option String)
      → SinReloj f
      → vista r ≡ vista s
      → vista (completar_con x f v t r etapa).0 ≡ vista (completar_con x f v t s etapa).0
  completar_con-vista none v t r s etapa libre iguales = iguales
  completar_con-vista (some f) none t r s etapa libre iguales = iguales
  completar_con-vista (some f) (some v) t r s etapa libre iguales =
      rw (libre t r s iguales) (tras_completar-vista (f t s) r s etapa iguales)

  ejecutar_aislada-vista :
      (t : x.Tarea) (e : Option EtiquetaUnidad) (etapa : Option String) (p p' : Proceso x.Tiempo)
      → SinReloj x.al_completar
      → vista (ejecutar_aislada x t e etapa p).0 ≡ vista (ejecutar_aislada x t e etapa p').0
  unfolding ejecutar_aislada correr_aislada
  ejecutar_aislada-vista t e etapa p p' libre = rw (correr-valor (x.funcion t) etapa p p') (
      completar_con-vista x.al_completar (correr x (x.funcion t) etapa p').valor t
        (correr x (x.funcion t) etapa p) (correr x (x.funcion t) etapa p') etapa libre
        (correr-vista (x.funcion t) etapa p p'))

module _ (x : Trabajo) (etiquetas : Option (List EtiquetaUnidad)) where
  de_unidad-vista :
      (q : Maquina x.Tiempo) (k n : ℕ) (p : ℕ × x.Tarea)
      → SinReloj x x.al_completar
      → Viven x q
      → vista x (de_unidad x q etiquetas k n p).0 ≡ vista x (directa x q etiquetas p).0
  unfolding enviar_unidad resultado_de
  de_unidad-vista q k n (i, t) libre vivos =
      elim (Bool-cases (nat_beq (al_menos_uno (min_ℤ (pos k) n)) 1)) [
        | inl b ↦ rw b refl
        | inr b ↦
            let (p, da) = vivos i in
            rw (b, da) (ejecutar_aislada-vista x t _ _ p (q.proceso i) libre)
      ]

  vistas_iguales :
      (q r : Maquina x.Tiempo) (k j n : ℕ) (ps : List (ℕ × x.Tarea))
      → SinReloj x x.al_completar
      → Viven x q
      → Viven x r
      → map (λ d. vista x d.0) (map (de_unidad x q etiquetas k n) ps)
        ≡ map (λ d. vista x d.0) (map (de_unidad x r etiquetas j n) ps)
  vistas_iguales q r k j n [] libre vivos vivos' = refl
  vistas_iguales q r k j n ((i, t) ∷ ps) libre vivos vivos' =
      ap₂ ◌∷◌
        (de_unidad-vista q k n (i, t) libre vivos
          ∙ ejecutar_aislada-vista x t _ _ (q.proceso i) (r.proceso i) libre
          ∙ sym (de_unidad-vista r j n (i, t) libre vivos'))
        (vistas_iguales q r k j n ps libre vivos vivos')

  -- With a label for each task, and an `al_completar` that does not read processes and clocks: two
  -- calls on the same tasks, with any two numbers of processes from 1 on and any machines on which
  -- no process dies, both return, and their results agree in all but the process and the clock.
  pub paralelo-eq-secuencial :
      (q r : Maquina x.Tiempo) (k j : ℕ) (tareas : List x.Tarea)
      → TieneTodas etiquetas (length tareas)
      → SinReloj x x.al_completar
      → Viven x q
      → Viven x r
      → (ds : List (Entrega x q etiquetas)) × (es : List (Entrega x r etiquetas))
        × (ejecutar_unidades x q etiquetas (pos (suc k)) tareas ≡ ok ds)
        × (ejecutar_unidades x r etiquetas (pos (suc j)) tareas ≡ ok es)
        × (map (λ d. vista x d.0) ds ≡ map (λ e. vista x e.0) es)
  paralelo-eq-secuencial q r k j tareas h libre vivos vivos' = (
    _,
    _,
    ejecutar_unidades-entrega x q etiquetas k tareas h,
    ejecutar_unidades-entrega x r etiquetas j tareas h,
    vistas_iguales q r (suc k) (suc j) (length tareas) (enumerar 0 tareas) libre vivos vivos',
  )
