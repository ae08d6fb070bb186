-- ===== src/Ejemplos/Espacios.antt =====
-- A space of three parameters, of which one depends on another, and a backend that answers with the
-- least value that it may.
use mathlib.Core.List.{Memᴰ}
use pred_engine.Prelude.{
  ℕ, zero, suc, ◌*◌, ◌≡◌, refl, ap, sym, subst, Bool, true, false, some, List, [], ◌∷◌, arith, ltb,
  nat_beq, Bool-cases, inl, inr, ◌<◌,
}
use pred_engine.Prelude.Int.{ℤ, pos, negsuc, ℤ_beq, mas}
use pred_engine.Prelude.Result.{Result, ok, err, ok_injective}
use pred_engine.Hpo.Espacio.{
  Plataforma, EspacioError, externo, entero, flotante, categorico, Configuracion, EspacioBusqueda,
  espacio_busqueda, comprobar_condicion, recorrer, activo, muestrear, muestrear_parametro,
  muestrear_flotante, es_valida, restriccion_violada,
}
use pred_engine.Hpo.Sugerencia.{TrialHpo, sugerir_configuracion, sugerir_parametro}
use pred_engine.Hpo.Configuraciones.{Entre, EsLegitima}
use pred_engine.Hpo.Sugeridas.{LeyesTrial, sugerir_configuracion-EsLegitima}
use pred_engine.Hpo.Muestras.{LeyesRng}

abbrev menor_flotante : Bool → ℕ → ℕ → Result EspacioError (ℕ × ℕ)
menor_flotante true b g = err (externo "rango vacio")
menor_flotante false b g = ok (b, suc g)

abbrev al_azar : ℕ → ℕ → Result EspacioError (ℕ × ℕ)
al_azar zero g = err (externo "rango vacio")
al_azar (suc n) g = ok (0, suc g)

abbrev pub plataforma : Plataforma
plataforma = record {
  V = ℤ;
  F = ℕ;
  Rng = ℕ;
  ninguno = negsuc 99;
  igual = ℤ_beq;
  de_int = λ z. z;
  de_float = λ f. pos f;
  gt = λ a b. ltb b a;
  no_positivo = λ a. nat_beq a 0;
  log = λ a. a;
  exp = λ a. a;
  integers = al_azar;
  uniform = λ b a g. menor_flotante (ltb a b) b g;
}

abbrev primera : List ℤ → ℕ → Result EspacioError (ℤ × ℕ)
primera [] t = err (externo "sin opciones")
primera (v ∷ vs) t = ok (v, suc t)

abbrev pub trials : TrialHpo plataforma
trials = record {
  Trial = ℕ;
  suggest_int = λ n b a p t. ok (mas b (0 * p), suc t);
  suggest_float = λ n b a l t. menor_flotante (ltb a b) b t;
  suggest_categorical = λ n os t. primera os t;
  anotar_motivo = λ r t. suc t;
}

abbrev pub espacio : EspacioBusqueda plataforma
espacio = record {
  parametros =
      entero "capas" (pos 1) (pos 5) 2
      ∷ categorico "regula" (pos 1 ∷ pos 0 ∷ [])
      ∷ flotante "tasa" 3 9 true
      ∷ [];
  condiciones = record { parametro = "tasa"; padre = "regula"; valores = pos 1 ∷ [] } ∷ [];
  restricciones = record { etiqueta = "siempre"; cumple = λ c. ok true } ∷ [];
}

abbrev elegida : Configuracion plataforma
elegida = ("capas", pos 1) ∷ ("regula", pos 1) ∷ ("tasa", pos 3) ∷ []

es_valido : espacio_busqueda plataforma espacio ≡ ok espacio
unfolding espacio_busqueda comprobar_condicion
es_valido = refl

se_sugiere : sugerir_configuracion plataforma trials espacio 0 ≡ ok (some elegida, 3)
unfolding sugerir_configuracion sugerir_parametro recorrer activo restriccion_violada
se_sugiere = refl

se_muestrea : muestrear plataforma espacio 5 0 ≡ ok (elegida, 3)
unfolding muestrear muestrear_parametro muestrear_flotante recorrer activo es_valida
    restriccion_violada
se_muestrea = refl

menor_dentro :
    (b a g : ℕ) (r : ℕ × ℕ) → menor_flotante (ltb a b) b g ≡ ok r → Entre plataforma b a r.0
menor_dentro b a g r h = elim (Bool-cases (ltb a b)) [
  | inl c ↦ cc (h, c)
  | inr c ↦ let es : b ≡ r.0 = cc (h, c) in subst (λ f. Entre plataforma b a f) es (ground arith, c)
]

primera-Mem : (os : List ℤ) (t : ℕ) (r : ℤ × ℕ) → primera os t ≡ ok r → Memᴰ r.0 os
primera-Mem [] t r h = cc h
primera-Mem (v ∷ vs) t r h = Memᴰ.head (cc h)

al_azar-lt : (n g : ℕ) (r : ℕ × ℕ) → al_azar n g ≡ ok r → r.0 < n
al_azar-lt zero g r h = cc h
al_azar-lt (suc n) g r h = let es : 0 ≡ r.0 = cc h in subst (λ k. k < suc n) es (omega arith)

abbrev leyes_trial : LeyesTrial plataforma trials
leyes_trial = record {
  suggest_int = λ n b a p t r h. (0, sym (ap (λ u. u.0) (ok_injective h)), omega arith);
  suggest_float = λ n b a l t r h. menor_dentro b a t r h;
  suggest_categorical = λ n os t r h. primera-Mem os t r h;
}

abbrev leyes_rng : LeyesRng plataforma
leyes_rng = record {
  integers = λ n g r h. al_azar-lt n g r h;
  uniform = λ b a g r h. menor_dentro b a g r h;
}

sugerir_configuracion-EsLegitima_example :
    EsLegitima plataforma (λ b a l f. Entre plataforma b a f) espacio elegida
sugerir_configuracion-EsLegitima_example =
    sugerir_configuracion-EsLegitima plataforma trials leyes_trial espacio 0 3 elegida es_valido
      se_sugiere
