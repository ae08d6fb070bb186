-- ===== src/Hpo/Activos.antt =====
-- espacio.py and estudio.py: which parameters a configuration that was put together has.
use mathlib.Core.List.{append-nil, append_assoc}
use pred_engine.Prelude.{
  String, ◌≡◌, refl, ap, sym, subst, ◌∙◌, true, false, Option, none, some, inl, inr, List, [], ◌∷◌,
  ◌++◌, map, ◌==◌, string_eq, Bool-cases, Todos,
}
use pred_engine.Prelude.Sorted.{filter}
use pred_engine.Prelude.Result.{Result, ok, ◌>>=◌, >>=-eq-ok, ok_injective, Pares, nil, cons}
use pred_engine.Hpo.Espacio.{
  Plataforma, EspacioError, Parametro, nombre, Condicion, Configuracion, get, poner, contiene,
  condicion_de, activo_por, activo, recorrer,
}
use pred_engine.Hpo.Declaracion.{EstaOrdenado, PadreAntes, eq_al_reves, or_false}

module _ (x : Plataforma) where
  get-poner_ne :
      (c : Configuracion x) (n m : String) (v : x.V)
      → (n == m) ≡ false
      → get x (poner x c n v) m ≡ get x c m
  get-poner_ne [] n m v h = rw h refl
  get-poner_ne (e ∷ c) n m v h = elim (Bool-cases (e.0 == n)) [
    | inl b ↦ rw (b, h, (string_eq.refleja e.0 n).0 b) (rw h refl)
    | inr b ↦ rw (b, get-poner_ne c n m v h) refl
  ]

  abbrev pub nombres : Configuracion x → List String
  nombres c = map (λ e. e.0) c

  poner_nuevo :
      (c : Configuracion x) (n : String) (v : x.V)
      → contiene x n (nombres c) ≡ false
      → poner x c n v ≡ c ++ (n, v) ∷ []
  poner_nuevo [] n v h = refl
  poner_nuevo (e ∷ c) n v h =
      let (b, hs) = or_false x (e.0 == n) (contiene x n (nombres c)) h in
      rw (b, poner_nuevo c n v hs) refl

  contiene-nuevo :
      (c : Configuracion x) (n m : String) (v : x.V)
      → contiene x m (nombres c) ≡ false
      → (n == m) ≡ false
      → contiene x m (nombres (c ++ (n, v) ∷ [])) ≡ false
  contiene-nuevo [] n m v h b = rw b refl
  contiene-nuevo (e ∷ c) n m v h b =
      let (d, hs) = or_false x (e.0 == m) (contiene x m (nombres c)) h in
      rw (d, contiene-nuevo c n m v hs b) refl

  abbrev pub SonNuevos : Configuracion x → List (Parametro x) → Type 0
  SonNuevos c ps = Todos (λ p. contiene x (nombre x p) (nombres c) ≡ false) ps

  siguen_nuevos :
      (c : Configuracion x) (n : String) (v : x.V) (ps : List (Parametro x))
      → contiene x n (map (nombre x) ps) ≡ false
      → SonNuevos c ps
      → SonNuevos (c ++ (n, v) ∷ []) ps
  siguen_nuevos c n v [] h nuevos = tt
  siguen_nuevos c n v (p ∷ ps) h nuevos =
      let (b, hs) = or_false x (nombre x p == n) (contiene x n (map (nombre x) ps)) h in
      (
        contiene-nuevo c n (nombre x p) v nuevos.0 (eq_al_reves x (nombre x p) n b),
        siguen_nuevos c n v ps hs nuevos.1,
      )

  activo_por-get :
      (o : Option (Condicion x)) (c d : Configuracion x) (ns : List String)
      → ((m : String) → contiene x m ns ≡ false → get x d m ≡ get x c m)
      → PadreAntes x o ns
      → activo_por x o d ≡ activo_por x o c
  activo_por-get none c d ns igual h = refl
  activo_por-get (some k) c d ns igual h = rw (igual k.padre h) refl

  module _ {S : Type 0} (valor_de : Parametro x → S → Result EspacioError (x.V × S))
      (cs : List (Condicion x)) where
    recorrer-activo :
        (p : Parametro x) (ps : List (Parametro x)) (c : Configuracion x) (s : S)
        → activo x cs c p ≡ true
        → recorrer x valor_de cs (p ∷ ps) c s
          ≡ (valor_de p s >>= λ r. recorrer x valor_de cs ps (poner x c (nombre x p) r.0) r.1)
    unfolding recorrer
    recorrer-activo p ps c s b = rw (b, recorrer) refl

    recorrer_inactivo :
        (p : Parametro x) (ps : List (Parametro x)) (c : Configuracion x) (s : S)
        → activo x cs c p ≡ false
        → recorrer x valor_de cs (p ∷ ps) c s ≡ recorrer x valor_de cs ps c s
    unfolding recorrer
    recorrer_inactivo p ps c s b = rw (b, recorrer) refl

    -- A name that is not of a parameter keeps its value.
    recorrer-get :
        (ps : List (Parametro x)) (c : Configuracion x) (s : S) {r : Configuracion x × S}
        → recorrer x valor_de cs ps c s ≡ ok r
        → (m : String) → contiene x m (map (nombre x) ps) ≡ false
        → get x r.0 m ≡ get x c m
    unfolding recorrer
    recorrer-get [] c s h m fuera = ap (λ r. get x r.0 m) (sym (ok_injective h))
    recorrer-get (p ∷ ps) c s {r} h m fuera =
        let (b, hs) = or_false x (nombre x p == m) (contiene x m (map (nombre x) ps)) fuera in
        elim (Bool-cases (activo x cs c p)) [
          | inl a ↦
              let (vs, ev, h') =
                >>=-eq-ok (valor_de p s) _ (sym (recorrer-activo p ps c s a) ∙ h) in
              recorrer-get ps (poner x c (nombre x p) vs.0) vs.1 h' m hs
              ∙ get-poner_ne c (nombre x p) m vs.0 b
          | inr a ↦ recorrer-get ps c s (sym (recorrer_inactivo p ps c s a) ∙ h) m hs
        ]

    -- The entries that the loop has added: one for each parameter that the result activates, in
    -- order, under its name, with a value that satisfies what holds of the values asked for.
    pub recorrer-Pares :
        (R : Parametro x → x.V → Type 0)
        → ((p : Parametro x) (s : S) (v : x.V × S) → valor_de p s ≡ ok v → R p v.0)
        → (ps : List (Parametro x)) (c : Configuracion x) (s : S) {r : Configuracion x × S}
        → EstaOrdenado x cs ps
        → SonNuevos c ps
        → recorrer x valor_de cs ps c s ≡ ok r
        → (nuevos : Configuracion x) × (r.0 ≡ c ++ nuevos)
          × Pares (λ p e. (e.0 ≡ nombre x p) × R p e.1) (filter (activo x cs r.0) ps) nuevos
    unfolding recorrer filter
    recorrer-Pares R ley [] c s orden nuevos h =
        ([], ap (λ r. r.0) (sym (ok_injective h)) ∙ sym (append-nil c), nil)
    recorrer-Pares R ley (p ∷ ps) c s {r} orden nuevos h =
        let igual : activo x cs r.0 p ≡ activo x cs c p =
          activo_por-get (condicion_de x cs (nombre x p)) c r.0 (map (nombre x) (p ∷ ps))
            (recorrer-get (p ∷ ps) c s h) (orden.1) in
        elim (Bool-cases (activo x cs c p)) [
          | inl a ↦
              let (vs, ev, h') =
                >>=-eq-ok (valor_de p s) _ (sym (recorrer-activo p ps c s a) ∙ h) in
              let pone = poner_nuevo c (nombre x p) vs.0 nuevos.0 in
              let (mas, une, pares) =
                recorrer-Pares R ley ps (c ++ (nombre x p, vs.0) ∷ []) vs.1 orden.2
                  (siguen_nuevos c (nombre x p) vs.0 ps orden.0 nuevos.1)
                  (subst (λ d. recorrer x valor_de cs ps d vs.1 ≡ ok r) pone h') in
              (
                (nombre x p, vs.0) ∷ mas,
                une ∙ append_assoc c ((nombre x p, vs.0) ∷ []) mas,
                rw (igual ∙ a) (cons (refl, ley p s vs ev) pares),
              )
          | inr a ↦
              let (mas, une, pares) =
                recorrer-Pares R ley ps c s orden.2 nuevos.1
                  (sym (recorrer_inactivo p ps c s a) ∙ h) in
              (mas, une, rw (igual ∙ a) pares)
        ]
