-- ===== src/Hpo/Configuraciones.antt =====
-- espacio.py and estudio.py: the configurations that are sampled, or asked of a trial, are legitimate.
use mathlib.Core.List.{Memᴰ}
use pred_engine.Prelude.{
  ℕ, ◌-◌, ◌*◌, ◌≤◌, ◌≡◌, refl, sym, subst, ◌∙◌, Bool, true, false, none, some, inl, inr, List, [],
  ◌∷◌, map, Bool-cases, Todos, length,
}
use pred_engine.Prelude.Int.{pos, diferencia, mas}
use pred_engine.Prelude.Sorted.{filter}
use pred_engine.Prelude.Result.{Result, ok, >>=-eq-ok, Pares, Pares-eq_map}
use pred_engine.Hpo.Espacio.{
  Plataforma, EspacioError, Parametro, entero, flotante, categorico, ordinal, nombre, Configuracion,
  Restriccion, EspacioBusqueda, espacio_busqueda, activo, nombres_activos, recorrer,
  primera_violada, restriccion_violada,
}
use pred_engine.Hpo.Declaracion.{espacio_busqueda-EstaOrdenado}
use pred_engine.Hpo.Activos.{SonNuevos, recorrer-Pares}

module _ (x : Plataforma) where
  abbrev pub Entre : x.F → x.F → x.F → Type 0
  Entre bajo alto f = (x.gt bajo f ≡ false) × (x.gt f alto ≡ false)

  abbrev pub EnDominio : (x.F → x.F → Bool → x.F → Type 0) → Parametro x → x.V → Type 0
  EnDominio Rango (entero n b a p) v =
      (k : ℕ) × (v ≡ x.de_int (mas b (k * p))) × (k * p ≤ diferencia a b)
  EnDominio Rango (flotante n b a l) v = (f : x.F) × (v ≡ x.de_float f) × Rango b a l f
  EnDominio Rango (categorico n os) v = Memᴰ v os
  EnDominio Rango (ordinal n ns) v = (k : ℕ) × (v ≡ x.de_int (pos k)) × (k ≤ length ns - 1)

  -- The entries are those of the active parameters, in order, each with a value of its domain, and
  -- no restriction is violated.
  abbrev pub EsLegitima :
      (x.F → x.F → Bool → x.F → Type 0) → EspacioBusqueda x → Configuracion x → Type 0
  EsLegitima Rango e cfg =
      Pares (λ p d. (d.0 ≡ nombre x p) × EnDominio Rango p d.1)
        (filter (activo x e.condiciones cfg) e.parametros) cfg
      × (nombres_activos x e cfg ≡ map (λ d. d.0) cfg)
      × Todos (λ r. r.cumple cfg ≡ ok true) e.restricciones

  ninguna_violada :
      (rs : List (Restriccion x)) (cfg : Configuracion x)
      → primera_violada x rs cfg ≡ ok none
      → Todos (λ r. r.cumple cfg ≡ ok true) rs
  ninguna_violada [] cfg h = tt
  ninguna_violada (r ∷ rs) cfg h =
      let (b, eb, h') = >>=-eq-ok (r.cumple cfg) _ h in
      let sigue : (elim b [ true ↦ primera_violada x rs cfg | false ↦ ok (some r.etiqueta) ])
          ≡ ok none =
        h' in
      elim (Bool-cases b) [
        | inl t ↦ (eb ∙ rw t refl, ninguna_violada rs cfg (sym (rw t refl) ∙ sigue))
        | inr t ↦ cc (sigue, t)
      ]

  -- A walk from nothing over the parameters of an accepted space, after which no restriction is
  -- violated.
  pub recorrer-EsLegitima :
      {S : Type 0} (Rango : x.F → x.F → Bool → x.F → Type 0)
      (valor_de : Parametro x → S → Result EspacioError (x.V × S))
      → ((p : Parametro x) (s : S) (v : x.V × S) → valor_de p s ≡ ok v → EnDominio Rango p v.0)
      → (e : EspacioBusqueda x) (s : S) {r : Configuracion x × S} → espacio_busqueda x e ≡ ok e
      → recorrer x valor_de e.condiciones e.parametros [] s ≡ ok r
      → restriccion_violada x e r.0 ≡ ok none
      → EsLegitima Rango e r.0
  unfolding restriccion_violada nombres_activos
  recorrer-EsLegitima Rango valor_de ley e s {r} valido anda cumple =
      let (nuevos, son, pares) =
        recorrer-Pares x valor_de e.condiciones (EnDominio Rango) ley e.parametros [] s
          (espacio_busqueda-EstaOrdenado x e valido) (sin_nombres e.parametros) anda in
      let todos =
        subst
          (Pares (λ p d. (d.0 ≡ nombre x p) × EnDominio Rango p d.1)
            (filter (activo x e.condiciones r.0) e.parametros))
          (sym son) pares in
      (
        todos,
        Pares-eq_map (nombre x) (λ d. d.0) (λ p d h. sym h.0) todos,
        ninguna_violada e.restricciones r.0 cumple,
      )
    where
      sin_nombres : (ps : List (Parametro x)) → SonNuevos x [] ps
      sin_nombres [] = tt
      sin_nombres (p ∷ ps) = (refl, sin_nombres ps)
