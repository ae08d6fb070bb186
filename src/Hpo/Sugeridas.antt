-- ===== src/Hpo/Sugeridas.antt =====
-- estudio.py: the configurations that are asked of a trial are legitimate.
use mathlib.Core.List.{Memᴰ}
use pred_engine.Prelude.{
  ℕ, zero, suc, ◌-◌, ◌*◌, ◌≤◌, String, ◌≡◌, sym, ap, subst, ◌∙◌, Bool, Option, none, some, List, [],
  length, arith,
}
use pred_engine.Prelude.Int.{ℤ, pos, diferencia, mas}
use pred_engine.Prelude.Result.{ok, >>=-eq-ok, ok_injective}
use pred_engine.Hpo.Espacio.{
  Plataforma, Parametro, entero, flotante, categorico, ordinal, Configuracion, EspacioBusqueda,
  espacio_busqueda, recorrer, restriccion_violada,
}
use pred_engine.Hpo.Sugerencia.{
  TrialHpo, ultimo_indice, sugerir_parametro, descartar, sugerir_configuracion,
}
use pred_engine.Hpo.Configuraciones.{Entre, EnDominio, EsLegitima, recorrer-EsLegitima}

module _ (x : Plataforma) where
  -- What Optuna documents of its suggestions.
  pub record LeyesTrial (h : TrialHpo x) : Type 0 where
    pub suggest_int :
        (n : String) (b a : ℤ) (p : ℕ) (t : h.Trial) (r : ℤ × h.Trial)
        → h.suggest_int n b a p t ≡ ok r
        → (k : ℕ) × (r.0 ≡ mas b (k * p)) × (k * p ≤ diferencia a b)
    pub suggest_float :
        (n : String) (b a : x.F) (l : Bool) (t : h.Trial) (r : x.F × h.Trial)
        → h.suggest_float n b a l t ≡ ok r
        → Entre x b a r.0
    pub suggest_categorical :
        (n : String) (os : List x.V) (t : h.Trial) (r : x.V × h.Trial)
        → h.suggest_categorical n os t ≡ ok r
        → Memᴰ r.0 os

  hasta_ultimo : (n k : ℕ) → k * 1 ≤ diferencia (ultimo_indice n) (pos 0) → k ≤ n - 1
  hasta_ultimo zero k h = omega arith
  hasta_ultimo (suc n) k h = omega arith

  sugerir_parametro-EnDominio :
      (h : TrialHpo x) (leyes : LeyesTrial h) (p : Parametro x) (t : h.Trial) (v : x.V × h.Trial)
      → sugerir_parametro x h p t ≡ ok v
      → EnDominio x (λ b a l f. Entre x b a f) p v.0
  unfolding sugerir_parametro
  sugerir_parametro-EnDominio h leyes (entero n b a p) t v e =
      let (r, er, e') = >>=-eq-ok (h.suggest_int n b a p t) _ e in
      let (k, es, cota) = leyes.suggest_int n b a p t r er in
      (k, sym (ap (λ u. u.0) (ok_injective e')) ∙ ap x.de_int es, cota)
  sugerir_parametro-EnDominio h leyes (flotante n b a l) t v e =
      let (r, er, e') = >>=-eq-ok (h.suggest_float n b a l t) _ e in
      (r.0, sym (ap (λ u. u.0) (ok_injective e')), leyes.suggest_float n b a l t r er)
  sugerir_parametro-EnDominio h leyes (categorico n os) t v e = leyes.suggest_categorical n os t v e
  sugerir_parametro-EnDominio h leyes (ordinal n ns) t v e =
      let (r, er, e') = >>=-eq-ok (h.suggest_int n (pos 0) (ultimo_indice (length ns)) 1 t) _ e in
      let (k, es, cota) = leyes.suggest_int n (pos 0) (ultimo_indice (length ns)) 1 t r er in
      (
        k,
        sym (ap (λ u. u.0) (ok_injective e')) ∙ ap x.de_int (es ∙ ap pos (omega arith)),
        hasta_ultimo (length ns) k cota,
      )

  -- For an accepted space and a backend that keeps to what it documents: a configuration that is
  -- asked of a trial and not discarded has exactly its active parameters, in order, each with a value
  -- of its domain, and violates no restriction.
  pub sugerir_configuracion-EsLegitima :
      (h : TrialHpo x) (leyes : LeyesTrial h) (e : EspacioBusqueda x) (t t' : h.Trial)
      (cfg : Configuracion x)
      → espacio_busqueda x e ≡ ok e
      → sugerir_configuracion x h e t ≡ ok (some cfg, t')
      → EsLegitima x (λ b a l f. Entre x b a f) e cfg
  unfolding sugerir_configuracion
  sugerir_configuracion-EsLegitima h leyes e t t' cfg valido sugiere =
      let (r, er, e') =
        >>=-eq-ok (recorrer x (sugerir_parametro x h) e.condiciones e.parametros [] t) _ sugiere in
      let (o, eo, e'') = >>=-eq-ok (restriccion_violada x e r.0) _ e' in
      segun r er o eo (ok_injective e'')
    where
      segun :
          (r : Configuracion x × h.Trial)
          → recorrer x (sugerir_parametro x h) e.condiciones e.parametros [] t ≡ ok r
          → (o : Option String) → restriccion_violada x e r.0 ≡ ok o
          → descartar x h o r.0 r.1 ≡ (some cfg, t')
          → EsLegitima x (λ b a l f. Entre x b a f) e cfg
      segun r er none eo es =
          let igual : r.0 ≡ cfg = cc es in
          subst (EsLegitima x (λ b a l f. Entre x b a f) e) igual (
            recorrer-EsLegitima x (λ b a l f. Entre x b a f) (sugerir_parametro x h)
              (sugerir_parametro-EnDominio h leyes) e t valido er eo)
      segun r er (some m) eo es = cc es
