-- ===== src/Hpo/Muestras.antt =====
-- espacio.py: the configurations that are sampled are legitimate.
use mathlib.Core.List.{Memᴰ}
use native.Mathlib.Nat.{le-div_iff_mul-le}
use pred_engine.Prelude.{
  ℕ, zero, suc, ◌+◌, ◌*◌, ◌/◌, ◌≤◌, ◌<◌, String, ◌≡◌, refl, sym, ap, subst, ◌∙◌, Bool, true, false,
  Option, none, some, inl, inr, List, [], ◌∷◌, Bool-cases, length, get_elem?, arith,
}
use pred_engine.Prelude.Int.{diferencia}
use pred_engine.Prelude.Result.{Result, ok, >>=-eq-ok, ok_injective}
use pred_engine.Hpo.Espacio.{
  Plataforma, EspacioError, Parametro, entero, flotante, categorico, ordinal, Configuracion,
  EspacioBusqueda, elemento, muestrear_flotante, muestrear_parametro, espacio_busqueda, recorrer,
  restriccion_violada, es_valida, intentar, muestrear,
}
use pred_engine.Hpo.Configuraciones.{Entre, EnDominio, EsLegitima, recorrer-EsLegitima}

module _ (x : Plataforma) where
  -- What NumPy documents of `integers` and `uniform`.
  pub record LeyesRng : Type 0 where
    pub integers : (n : ℕ) (g : x.Rng) (r : ℕ × x.Rng) → x.integers n g ≡ ok r → r.0 < n
    pub uniform :
        (b a : x.F) (g : x.Rng) (r : x.F × x.Rng) → x.uniform b a g ≡ ok r → Entre x b a r.0

  -- On the scale of the logarithm the bounds hold of the logarithm that was drawn.
  abbrev pub RangoMuestra : x.F → x.F → Bool → x.F → Type 0
  RangoMuestra b a true f = (u : x.F) × (f ≡ x.exp u) × Entre x (x.log b) (x.log a) u
  RangoMuestra b a false f = Entre x b a f

  get_elem?-Mem : {A : Type 0} (xs : List A) (i : ℕ) {v : A} → get_elem? xs i ≡ some v → Memᴰ v xs
  get_elem?-Mem [] i e = cc
  get_elem?-Mem (a ∷ xs) zero e = Memᴰ.head (cc e)
  get_elem?-Mem (a ∷ xs) (suc i) e = Memᴰ.tail (get_elem?-Mem xs i e)

  elemento-ok : (o : Option x.V) {v : x.V} → elemento x o ≡ ok v → o ≡ some v
  elemento-ok none e = cc
  elemento-ok (some w) e = cc

  paso_dentro : (d p k : ℕ) → k < d / p + 1 → k * p ≤ d
  paso_dentro d zero k h = omega arith
  paso_dentro d (suc p) k h =
      (le-div_iff_mul-le {k = suc p} {x = k} {y = d} (omega arith)).0 (omega arith)

  muestrear_flotante-RangoMuestra :
      (leyes : LeyesRng) (b a : x.F) (l : Bool) (g : x.Rng) (v : x.V × x.Rng)
      → muestrear_flotante x b a l g ≡ ok v
      → (f : x.F) × (v.0 ≡ x.de_float f) × RangoMuestra b a l f
  unfolding muestrear_flotante
  muestrear_flotante-RangoMuestra leyes b a true g v e =
      let (r, er, e') = >>=-eq-ok (x.uniform (x.log b) (x.log a) g) _ e in
      (
        x.exp r.0,
        sym (ap (λ u. u.0) (ok_injective e')),
        (r.0, refl, leyes.uniform (x.log b) (x.log a) g r er),
      )
  muestrear_flotante-RangoMuestra leyes b a false g v e =
      let (r, er, e') = >>=-eq-ok (x.uniform b a g) _ e in
      (r.0, sym (ap (λ u. u.0) (ok_injective e')), leyes.uniform b a g r er)

  muestrear_parametro-EnDominio :
      (leyes : LeyesRng) (p : Parametro x) (g : x.Rng) (v : x.V × x.Rng)
      → muestrear_parametro x p g ≡ ok v
      → EnDominio x RangoMuestra p v.0
  unfolding muestrear_parametro
  muestrear_parametro-EnDominio leyes (entero n b a p) g v e =
      let (r, er, e') = >>=-eq-ok (x.integers (diferencia a b / p + 1) g) _ e in
      (
        r.0,
        sym (ap (λ u. u.0) (ok_injective e')),
        paso_dentro (diferencia a b) p r.0 (leyes.integers _ g r er),
      )
  muestrear_parametro-EnDominio leyes (flotante n b a l) g v e =
      muestrear_flotante-RangoMuestra leyes b a l g v e
  muestrear_parametro-EnDominio leyes (categorico n os) g v e =
      let (r, er, e') = >>=-eq-ok (x.integers (length os) g) _ e in
      let (w, ew, e'') = >>=-eq-ok (elemento x (get_elem? os r.0)) _ e' in
      subst (λ u. Memᴰ u os) (ap (λ u. u.0) (ok_injective e''))
        (get_elem?-Mem os r.0 (elemento-ok (get_elem? os r.0) ew))
  muestrear_parametro-EnDominio leyes (ordinal n ns) g v e =
      let (r, er, e') = >>=-eq-ok (x.integers (length ns) g) _ e in
      let cota = leyes.integers (length ns) g r er in
      (r.0, sym (ap (λ u. u.0) (ok_injective e')), omega arith)

  es_valida-ninguna :
      (e : EspacioBusqueda x) (cfg : Configuracion x) {b : Bool}
      → es_valida x e cfg ≡ ok b
      → b ≡ true
      → restriccion_violada x e cfg ≡ ok none
  unfolding es_valida
  es_valida-ninguna e cfg {b} h t =
      let (o, eo, h') = >>=-eq-ok (restriccion_violada x e cfg) _ h in segun o eo (h' ∙ rw t refl)
    where
      segun :
          (o : Option String)
          → restriccion_violada x e cfg ≡ ok o
          → ◌≡◌ {A = Result EspacioError Bool}
              (ok (elim o [ none ↦ true | some m ↦ false ]))
              (ok true)
          → restriccion_violada x e cfg ≡ ok none
      segun none eo d = eo
      segun (some m) eo d = cc d

  intentar-EsLegitima :
      (leyes : LeyesRng) (e : EspacioBusqueda x) (intentos n : ℕ) (g : x.Rng)
      (r : Configuracion x × x.Rng)
      → espacio_busqueda x e ≡ ok e
      → intentar x e intentos n g ≡ ok r
      → EsLegitima x RangoMuestra e r.0
  intentar-EsLegitima leyes e intentos zero g r valido h = cc h
  intentar-EsLegitima leyes e intentos (suc n) g r valido h =
      let (c, ec, h') =
        >>=-eq-ok (recorrer x (muestrear_parametro x) e.condiciones e.parametros [] g) _ h in
      let (b, eb, h'') = >>=-eq-ok (es_valida x e c.0) _ h' in
      let sigue : (elim b [ true ↦ ok c | false ↦ intentar x e intentos n c.1 ]) ≡ ok r = h'' in
      elim (Bool-cases b) [
        | inl t ↦
            let igual : c ≡ r = ok_injective (sym (rw t refl) ∙ sigue) in
            subst (λ u. EsLegitima x RangoMuestra e u.0) igual
              (recorrer-EsLegitima x RangoMuestra (muestrear_parametro x)
                (muestrear_parametro-EnDominio leyes) e g valido ec (es_valida-ninguna e c.0 eb t))
        | inr t ↦ intentar-EsLegitima leyes e intentos n c.1 r valido (sym (rw t refl) ∙ sigue)
      ]

  -- For an accepted space and a generator that keeps to what it documents: a sampled configuration
  -- has exactly its active parameters, in order, each with a value of its domain, and violates no
  -- restriction.
  pub muestrear-EsLegitima :
      (leyes : LeyesRng) (e : EspacioBusqueda x) (intentos_max : ℕ) (g : x.Rng)
      (r : Configuracion x × x.Rng)
      → espacio_busqueda x e ≡ ok e
      → muestrear x e intentos_max g ≡ ok r
      → EsLegitima x RangoMuestra e r.0
  unfolding muestrear
  muestrear-EsLegitima leyes e n g r valido h = intentar-EsLegitima leyes e n n g r valido h
