-- ===== src/WalkForward/Equivalencia.antt =====
-- walk_forward.py and walk_forward_greedy.py: both ways to run give one result (ADR-003).
use mathlib.Core.List.{append_assoc, append-nil}
use pred_engine.Prelude.{
  ℕ, zero, suc, ◌≡◌, ◌≢◌, refl, true, false, Option, none, some, List, [], ◌∷◌, ◌++◌, length,
  nat_beq_iff, arith, ap, sym, ◌∙◌,
}
use pred_engine.Prelude.Result.{Result, ok, err, ◌>>=◌, traverse, Pares, nil, cons, traverse-Pares}
use pred_engine.WalkForward.Ventanas.{VentanaTemporal, EvaluacionError}
use pred_engine.WalkForward.Numeros.{Numpy}
use pred_engine.WalkForward.Metricas.{ResultadoVentana, proporcion_valida, valor_agregado_total}
use pred_engine.WalkForward.Ejecucion.{Modelos, Ajustes}
use pred_engine.WalkForward.Recorridos.{
  ResultadoWalkForward, EstadoParcial, vivo, agotado, EjecutorGreedy, agregado, una_ventana,
  evaluar_ventanas, nuevo, avanzar, resultado,
}

length-Pares :
    {A B : Type 0} {R : A → B → Type 0} {xs : List A} {ys : List B}
    → Pares R xs ys
    → length ys ≡ length xs
length-Pares nil = refl
length-Pares (cons r p) = ap suc (length-Pares p)

err_injective : {E A : Type 0} {a b : E} → ◌≡◌ {A = Result E A} (err a) (err b) → a ≡ b
err_injective h = cc

append-ne-nil : {A : Type 0} (xs : List A) (x : A) → xs ++ x ∷ [] ≢ []
append-ne-nil [] x h = cc
append-ne-nil (y ∷ ys) x h = cc

module _ (np : Numpy) (modelos : Modelos np) (a : Ajustes np) (y : List np.F)
    (configuracion : modelos.Configuracion) where
  abbrev Paso : Type 0
  Paso = Result EvaluacionError (Option (EstadoParcial np)) × EjecutorGreedy np

  abbrev seguir :
      (EjecutorGreedy np → Result EvaluacionError (ResultadoWalkForward np))
      → Paso
      → Result EvaluacionError (ResultadoWalkForward np)
  seguir k (err x, e) = err x
  seguir k (ok none, e) = resultado np modelos a y configuracion e
  seguir k (ok (some estado), e) = k e

  -- A caller that advances until there is no window left and then asks for the result, with fuel.
  pub recorrer_greedy : ℕ → EjecutorGreedy np → Result EvaluacionError (ResultadoWalkForward np)
  recorrer_greedy zero e = resultado np modelos a y configuracion e
  recorrer_greedy (suc f) e = seguir (recorrer_greedy f) (avanzar np modelos a y configuracion e)

  -- The executor after some windows.
  abbrev en_curso :
      List VentanaTemporal → List (ResultadoVentana np) → List VentanaTemporal → EjecutorGreedy np
  en_curso vs hist pend = record {
    ventanas = vs;
    generador = vivo hist pend;
    historial = hist;
    cerrado = false;
    motivo_cierre = none;
  }

  abbrev terminado : List VentanaTemporal → List (ResultadoVentana np) → EjecutorGreedy np
  terminado vs hist = record {
    ventanas = vs;
    generador = agotado;
    historial = hist;
    cerrado = true;
    motivo_cierre = none;
  }

  abbrev final :
      List VentanaTemporal
      → List (ResultadoVentana np)
      → Result EvaluacionError (ResultadoWalkForward np)
  final vs hist = resultado np modelos a y configuracion (terminado vs hist)

  avanzar_fin :
      (vs : List VentanaTemporal) (r : ResultadoVentana np) (rs : List (ResultadoVentana np))
      → avanzar np modelos a y configuracion (en_curso vs (r ∷ rs) [])
        ≡ (ok none, terminado vs (r ∷ rs))
  unfolding avanzar
  avanzar_fin vs r rs = refl

  avanzar_fallo :
      (vs : List VentanaTemporal) (hist : List (ResultadoVentana np)) (v : VentanaTemporal)
      (pend : List VentanaTemporal) (x : EvaluacionError)
      → una_ventana np modelos a y configuracion v ≡ err x
      → (avanzar np modelos a y configuracion (en_curso vs hist (v ∷ pend))).0 ≡ err x
  unfolding avanzar
  avanzar_fallo vs [] v pend x e = ground arith
  avanzar_fallo vs (h ∷ hs) v pend x e = ground arith

  module _ (valida : proporcion_valida np a.proporcion_recorte ≡ true) where
    avanzar_ok :
        (vs : List VentanaTemporal) (hist : List (ResultadoVentana np)) (v : VentanaTemporal)
        (pend : List VentanaTemporal) (r : ResultadoVentana np)
        → una_ventana np modelos a y configuracion v ≡ ok r
        → (s : EstadoParcial np) × (avanzar np modelos a y configuracion
              (en_curso vs hist (v ∷ pend))
            ≡ (ok (some s), en_curso vs (hist ++ r ∷ []) pend))
    unfolding avanzar
    avanzar_ok vs hist v pend r e =
        let (x, ex) =
          valor_agregado_total np (hist ++ r ∷ []) a.metrica_objetivo a.agregacion
            a.proporcion_recorte valida in
        (
          record {
            ultima = r;
            n_evaluadas = length (hist ++ r ∷ []);
            n_totales = length vs;
            valor_parcial = x;
          },
          ground arith,
        )

    -- The results of the windows left, behind those that were evaluated.
    abbrev resto :
        List (ResultadoVentana np)
        → List VentanaTemporal
        → Result EvaluacionError (List (ResultadoVentana np))
    resto hist pend =
        traverse (una_ventana np modelos a y configuracion) pend >>= λ rs. ok (hist ++ rs)

    resto_cons :
        (hist : List (ResultadoVentana np)) (v : VentanaTemporal) (pend : List VentanaTemporal)
        (r : ResultadoVentana np)
        → una_ventana np modelos a y configuracion v ≡ ok r
        → resto (hist ++ r ∷ []) pend ≡ resto hist (v ∷ pend)
    resto_cons hist v pend r e =
        rw e (juntar (traverse (una_ventana np modelos a y configuracion) pend))
      where
        juntar :
            (t : Result EvaluacionError (List (ResultadoVentana np)))
            → (t >>= λ rs. ok ((hist ++ r ∷ []) ++ rs))
              ≡ ((t >>= λ rs. ok (r ∷ rs)) >>= λ rs. ok (hist ++ rs))
        juntar (ok rs) = ap ok (append_assoc hist (r ∷ []) rs)
        juntar (err x) = refl

    seguir-err :
        (k : EjecutorGreedy np → Result EvaluacionError (ResultadoWalkForward np)) (p : Paso)
        (x : EvaluacionError)
        → p.0 ≡ err x
        → seguir k p ≡ err x
    seguir-err k (err z, e) x h = ap err (err_injective h)
    seguir-err k (ok none, e) x h = cc
    seguir-err k (ok (some s), e) x h = cc

    resto-err :
        (vs : List VentanaTemporal) (hist : List (ResultadoVentana np)) (v : VentanaTemporal)
        (pend : List VentanaTemporal) (x : EvaluacionError)
        → una_ventana np modelos a y configuracion v ≡ err x
        → (resto hist (v ∷ pend) >>= λ rs. final vs rs) ≡ err x
    resto-err vs hist v pend x e = rw e

    recorrer_paso :
        (vs : List VentanaTemporal) (hist : List (ResultadoVentana np)) (v : VentanaTemporal)
        (pend : List VentanaTemporal) (t : Result EvaluacionError (ResultadoVentana np))
        → una_ventana np modelos a y configuracion v ≡ t
        → ((r : ResultadoVentana np)
            → recorrer_greedy (suc (length pend)) (en_curso vs (hist ++ r ∷ []) pend)
              ≡ (resto (hist ++ r ∷ []) pend >>= λ rs. final vs rs))
        → recorrer_greedy (suc (suc (length pend))) (en_curso vs hist (v ∷ pend))
          ≡ (resto hist (v ∷ pend) >>= λ rs. final vs rs)
    unfolding recorrer_greedy
    recorrer_paso vs hist v pend (err x) e ih =
        seguir-err (recorrer_greedy (suc (length pend))) _ x (avanzar_fallo vs hist v pend x e)
        ∙ sym (resto-err vs hist v pend x e)
    recorrer_paso vs hist v pend (ok r) e ih =
        let (s, ea) = avanzar_ok vs hist v pend r e in
        ap (seguir (recorrer_greedy (suc (length pend)))) ea
        ∙ ih r
        ∙ ap (λ (t : Result EvaluacionError (List (ResultadoVentana np))). t >>= λ rs. final vs rs)
            (resto_cons hist v pend r e)

    recorrer_lem :
        (vs : List VentanaTemporal) (hist : List (ResultadoVentana np))
        (pend : List VentanaTemporal)
        → (hist ≡ [] → pend ≢ [])
        → recorrer_greedy (suc (length pend)) (en_curso vs hist pend)
          ≡ (resto hist pend >>= λ rs. final vs rs)
    unfolding recorrer_greedy
    recorrer_lem vs [] [] h = absurd (h refl refl)
    recorrer_lem vs (r ∷ rs) [] h =
        ap (seguir (recorrer_greedy 0)) (avanzar_fin vs r rs)
        ∙ ap (final vs) (sym (append-nil (r ∷ rs)))
    recorrer_lem vs hist (v ∷ pend) h =
        recorrer_paso vs hist v pend (una_ventana np modelos a y configuracion v) refl
          (λ r. recorrer_lem vs (hist ++ r ∷ []) pend (λ e. absurd (append-ne-nil hist r e)))

    final_integro :
        (vs : List VentanaTemporal) (t : Result EvaluacionError (List (ResultadoVentana np)))
        → ((rs : List (ResultadoVentana np)) → t ≡ ok rs → length rs ≡ length vs)
        → ((t >>= λ rs. ok ([] ++ rs)) >>= λ rs. final vs rs) ≡ (
            t >>= λ rs. agregado np modelos a y configuracion rs >>= λ x. ok (record {
              ventanas = rs;
              metrica_objetivo = a.metrica_objetivo;
              valor_agregado = x;
              completo = true;
              n_ventanas_evaluadas = length rs;
              n_ventanas_totales = length vs;
            }))
    unfolding resultado
    final_integro vs (err x) h = refl
    final_integro vs (ok rs) h = rw ((nat_beq_iff (length rs) (length vs)).1 (h rs refl))

    -- Advancing window by window until none is left, and then asking for the result, gives the very
    -- result, or the very exception, of the run over all windows at once: the same windows, the same
    -- aggregate, complete. (The windows are not empty and the proportion is valid.)
    pub greedy-eq-integro :
        (vs : List VentanaTemporal)
        → vs ≢ []
        → recorrer_greedy (suc (length vs)) (nuevo np modelos a y configuracion vs)
          ≡ evaluar_ventanas np modelos a y configuracion vs
    unfolding evaluar_ventanas
    greedy-eq-integro vs ne =
        recorrer_lem vs [] vs (λ _. ne)
        ∙ final_integro vs (traverse (una_ventana np modelos a y configuracion) vs)
            (λ rs e. length-Pares (traverse-Pares (una_ventana np modelos a y configuracion) vs e))
