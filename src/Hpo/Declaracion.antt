-- ===== src/Hpo/Declaracion.antt =====
-- espacio.py: what the checks of `EspacioBusqueda.__post_init__` give to whoever walks the parameters.
use mathlib.Core.List.{append_assoc}
use pred_engine.Prelude.{
  ℕ, suc, String, ◌≡◌, refl, sym, subst, Bool, true, false, ◌||◌, Option, none, some, inl, inr,
  List, [], ◌∷◌, ◌++◌, map, ltb, ◌==◌, string_eq, if◌then◌else◌, Bool-cases, Option-cases, Todos,
  arith,
}
use pred_engine.Prelude.Result.{ok, >>=-eq-ok, raise_if-ok, raise_if-false}
use pred_engine.Hpo.Espacio.{
  Plataforma, EspacioError, duplicados, de_si_mismo, padre_despues, parametro_inexistente,
  padre_inexistente, Parametro, nombre, Condicion, EspacioBusqueda, contiene, hay_duplicados,
  indice_de, declarado, comprobar_condicion, comprobar_condiciones, espacio_busqueda, condicion_de,
}

module _ (x : Plataforma) where
  abbrev pub PadreAntes : Option (Condicion x) → List String → Type 0
  PadreAntes none ns = Unit
  PadreAntes (some c) ns = contiene x c.padre ns ≡ false

  -- No name comes again, and the parent of a parameter is neither itself nor behind it.
  abbrev pub EstaOrdenado : List (Condicion x) → List (Parametro x) → Type 0
  EstaOrdenado cs [] = Unit
  EstaOrdenado cs (p ∷ ps) =
      (contiene x (nombre x p) (map (nombre x) ps) ≡ false)
      × PadreAntes (condicion_de x cs (nombre x p)) (map (nombre x) (p ∷ ps))
      × EstaOrdenado cs ps

  pub eq_al_reves : (a b : String) → (a == b) ≡ false → (b == a) ≡ false
  eq_al_reves a b h = elim (Bool-cases (b == a)) [
    | inl e ↦ cc (h, (string_eq.refleja a b).1 (sym ((string_eq.refleja b a).0 e)))
    | inr e ↦ e
  ]

  record Comprobada (ns : List String) (c : Condicion x) : Type 0 where
    i : ℕ
    j : ℕ
    propio : indice_de x ns c.parametro ≡ some i
    padre : indice_de x ns c.padre ≡ some j
    distintos : (c.padre == c.parametro) ≡ false
    antes : ltb i j ≡ false

  declarado-ok : (o : Option ℕ) (e : EspacioError) {i : ℕ} → declarado x o e ≡ ok i → o ≡ some i
  declarado-ok none e h = cc
  declarado-ok (some i) e h = cc

  comprobar_condicion-Comprobada :
      (ns : List String) (c : Condicion x) → comprobar_condicion x ns c ≡ ok tt → Comprobada ns c
  unfolding comprobar_condicion
  comprobar_condicion-Comprobada ns c h =
      let (i, di, h1) =
        >>=-eq-ok (declarado x (indice_de x ns c.parametro) parametro_inexistente) _ h in
      let (j, dj, h2) = >>=-eq-ok (declarado x (indice_de x ns c.padre) padre_inexistente) _ h1 in
      let (distinto, h3) = raise_if-ok (c.padre == c.parametro) de_si_mismo _ h2 in
      record {
        i = i;
        j = j;
        propio = declarado-ok (indice_de x ns c.parametro) parametro_inexistente di;
        padre = declarado-ok (indice_de x ns c.padre) padre_inexistente dj;
        distintos = distinto;
        antes = raise_if-false (ltb i j) padre_despues h3;
      }

  comprobar_condiciones-Todos :
      (ns : List String) (cs : List (Condicion x))
      → comprobar_condiciones x ns cs ≡ ok tt
      → Todos (Comprobada ns) cs
  comprobar_condiciones-Todos ns [] h = tt
  comprobar_condiciones-Todos ns (c ∷ cs) h =
      let (u, hc, hs) =
        >>=-eq-ok (comprobar_condicion x ns c) (λ _. comprobar_condiciones x ns cs) h in
      (comprobar_condicion-Comprobada ns c hc, comprobar_condiciones-Todos ns cs hs)

  -- The condition that counts for a name is one of the list, and is on that name.
  condicion_de-Todos :
      (P : Condicion x → Type 0) (cs : List (Condicion x)) (n : String) {c : Condicion x}
      → Todos P cs
      → condicion_de x cs n ≡ some c
      → P c × (c.parametro ≡ n)
  condicion_de-Todos P [] n h e = cc
  condicion_de-Todos P (d ∷ cs) n {c} h e = elim (Option-cases (condicion_de x cs n)) [
    | inl nada ↦ elim (Bool-cases (d.parametro == n)) [
      | inl b ↦
          let es : d ≡ c = cc (e, nada, b) in
          subst (λ k. P k × (k.parametro ≡ n)) es (h.0, (string_eq.refleja d.parametro n).0 b)
      | inr b ↦ cc (e, nada, b)
    ]
    | inr (k, hay) ↦
        let es : k ≡ c = cc (e, hay) in
        subst (λ k. P k × (k.parametro ≡ n)) es (condicion_de-Todos P cs n h.1 hay)
  ]

  pub or_false : (a b : Bool) → (a || b) ≡ false → (a ≡ false) × (b ≡ false)
  or_false true b h = cc
  or_false false b h = (refl, h)

  sin_duplicados : (a b : Bool) → (if a then true else b) ≡ false → (a ≡ false) × (b ≡ false)
  sin_duplicados true b h = cc
  sin_duplicados false b h = (refl, h)

  contiene-append_r :
      (m : String) (pre ns : List String)
      → contiene x m (pre ++ ns) ≡ false
      → contiene x m ns ≡ false
  contiene-append_r m [] ns h = h
  contiene-append_r m (k ∷ pre) ns h =
      contiene-append_r m pre ns (or_false (k == m) (contiene x m (pre ++ ns)) h).1

  indice_siguiente :
      (ns : List String) (m n : String) {i : ℕ}
      → (m == n) ≡ false
      → indice_de x (m ∷ ns) n ≡ some i
      → (k : ℕ) × (i ≡ suc k) × (indice_de x ns n ≡ some k)
  indice_siguiente ns m n {i} b h = segun (indice_de x ns n) refl
    where
      segun :
          (o : Option ℕ)
          → indice_de x ns n ≡ o
          → (k : ℕ) × (i ≡ suc k) × (indice_de x ns n ≡ some k)
      segun none e = cc (h, b, e)
      segun (some k) e = (k, cc (h, b, e), e)

  primero_no : {A : Type 0} {i j : ℕ} (k : ℕ) → i ≡ 0 → j ≡ suc k → ltb i j ≡ false → A
  primero_no {i = i} {j = j} k ei ej h = absurd (ground arith)

  menos_uno : {i j : ℕ} (k l : ℕ) → i ≡ suc k → j ≡ suc l → ltb i j ≡ false → ltb k l ≡ false
  menos_uno {i} {j} k l ei ej h = ground arith

  -- A parent with a smaller index does not stand from the parameter on.
  padre_antes :
      (pre ns : List String) (n padre : String) {i j : ℕ}
      → hay_duplicados x (pre ++ n ∷ ns) ≡ false
      → indice_de x (pre ++ n ∷ ns) n ≡ some i
      → indice_de x (pre ++ n ∷ ns) padre ≡ some j
      → (padre == n) ≡ false
      → ltb i j ≡ false
      → contiene x padre (n ∷ ns) ≡ false
  padre_antes [] ns n padre {i} {j} d hi hj distinto h =
      let (k, es, da) = indice_siguiente ns n padre (eq_al_reves padre n distinto) hj in
      let b = (string_eq.refleja n n).1 refl in primero_no k (cc (hi, b)) es h
  padre_antes (m ∷ pre) ns n padre {i} {j} d hi hj distinto h =
      let (nuevo, otros) =
        sin_duplicados (contiene x m (pre ++ n ∷ ns)) (hay_duplicados x (pre ++ n ∷ ns)) d in
      elim (Bool-cases (m == padre)) [
        | inl b ↦
            subst (λ t. contiene x t (n ∷ ns) ≡ false) ((string_eq.refleja m padre).0 b)
              (contiene-append_r m pre (n ∷ ns) nuevo)
        | inr b ↦
            let (l, ej, dj) = indice_siguiente (pre ++ n ∷ ns) m padre b hj in
            elim (Bool-cases (m == n)) [
              | inl c ↦ primero_no l (cc (hi, c)) ej h
              | inr c ↦
                  let (k, ei, di) = indice_siguiente (pre ++ n ∷ ns) m n c hi in
                  padre_antes pre ns n padre otros di dj distinto (menos_uno k l ei ej h)
            ]
      ]

  hay_duplicados-append_r :
      (pre ns : List String) → hay_duplicados x (pre ++ ns) ≡ false → hay_duplicados x ns ≡ false
  hay_duplicados-append_r [] ns h = h
  hay_duplicados-append_r (m ∷ pre) ns h =
      hay_duplicados-append_r pre ns
        (sin_duplicados (contiene x m (pre ++ ns)) (hay_duplicados x (pre ++ ns)) h).1

  EstaOrdenado-desde :
      (cs : List (Condicion x)) (pre : List String) (ps : List (Parametro x))
      → hay_duplicados x (pre ++ map (nombre x) ps) ≡ false
      → Todos (Comprobada (pre ++ map (nombre x) ps)) cs
      → EstaOrdenado cs ps
  EstaOrdenado-desde cs pre [] d h = tt
  EstaOrdenado-desde cs pre (p ∷ ps) d h =
      let une = append_assoc pre (nombre x p ∷ []) (map (nombre x) ps) in
      (
        (sin_duplicados (contiene x (nombre x p) (map (nombre x) ps))
            (hay_duplicados x (map (nombre x) ps))
            (hay_duplicados-append_r pre (map (nombre x) (p ∷ ps)) d)).0,
        segun (condicion_de x cs (nombre x p)) refl,
        EstaOrdenado-desde cs (pre ++ nombre x p ∷ []) ps (rw une d) (rw une h),
      )
    where
      segun :
          (o : Option (Condicion x))
          → condicion_de x cs (nombre x p) ≡ o
          → PadreAntes o (map (nombre x) (p ∷ ps))
      segun none e = tt
      segun (some c) e =
          let (comprobada, es) =
            condicion_de-Todos (Comprobada (pre ++ map (nombre x) (p ∷ ps))) cs (nombre x p) h e in
          padre_antes pre (map (nombre x) ps) (nombre x p) c.padre d
            (subst (λ n. indice_de x (pre ++ map (nombre x) (p ∷ ps)) n ≡ some comprobada.i) es
              comprobada.propio)
            comprobada.padre (subst (λ n. (c.padre == n) ≡ false) es comprobada.distintos)
            comprobada.antes

  -- A space that is accepted is the one given, and its declaration is ordered.
  pub espacio_busqueda-EstaOrdenado :
      (e : EspacioBusqueda x) {e' : EspacioBusqueda x}
      → espacio_busqueda x e ≡ ok e'
      → EstaOrdenado e.condiciones e.parametros
  unfolding espacio_busqueda
  espacio_busqueda-EstaOrdenado e h =
      let nombres = map (nombre x) e.parametros in
      let (unicos, h1) = raise_if-ok (hay_duplicados x nombres) duplicados _ h in
      let (u, h2, h3) = >>=-eq-ok (comprobar_condiciones x nombres e.condiciones) _ h1 in
      EstaOrdenado-desde e.condiciones [] e.parametros unicos
        (comprobar_condiciones-Todos nombres e.condiciones h2)
