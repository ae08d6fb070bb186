-- ===== src/Veredictos/Empates.antt =====
-- seleccion.py: what a family must do to be the champion of its category, from the medians on.
use mathlib.Core.List.{Memᴰ}
use pred_engine.Prelude.{
  ℕ, ◌≤◌, String, Bool, ◌≡◌, refl, ◌⊎◌, inl, inr, true, false, not, Option, none, some, List, [],
  ◌∷◌, map, Todos, Bool-cases, ◌&&◌, ◌||◌, ltb, subst, arith,
}
use pred_engine.Prelude.Result.{Result, ok, >>=-eq-ok, ok_injective}
use pred_engine.Prelude.Sorted.{
  filter, minimo, minimo-Todos, minimo-minimo, filter-Todos, filter-pasan, str_lt,
}
use pred_engine.Prelude.Miembros.{Todos-Mem, Todos-elim, Mem-filter}
use pred_engine.Hpo.Ordenados.{OrdenDebil}
use pred_engine.Veredictos.Contratos.{
  Flotantes, PoliticaSeleccion, SeleccionCategoria, compuerta_linea_base, familia_linea_base,
}
use pred_engine.Veredictos.Seleccion.{SeleccionError, elegir, empata, exigir, mas_simple, indice}

module _ (fl : Flotantes) where
  open fl use {F, uno, lt, ge, eq, restar}

  -- One of the medians, that none is less than.
  pub record EsMinima (mejor : F) (medianas : List (String × F)) : Type 0 where
    pub familia : String
    pub alguna : Memᴰ (familia, mejor) medianas
    pub ninguna_menor : Todos (λ q. lt q.1 mejor ≡ false) medianas

  -- A median below 1 that is the best one or less than the tolerance above it.
  abbrev pub Compite : PoliticaSeleccion fl → F → F → Type 0
  Compite p mejor m =
      (lt m uno ≡ true) × ((eq m mejor ≡ true) ⊎ (lt (restar m mejor) p.tolerancia_empate ≡ true))

  -- The champion competes, and no family that competes stands before it in the order of simplicity.
  pub record EsMejor (p : PoliticaSeleccion fl) (s : SeleccionCategoria F) : Type 0 where
    pub mediana : F
    pub mejor : F
    pub suya : Memᴰ (s.familia_campeona, mediana) s.medianas_r
    pub minima : EsMinima mejor s.medianas_r
    pub supera : ge mejor uno ≡ false
    pub compite : Compite p mejor mediana
    pub mas_simples :
        (f : String) (m : F)
        → Memᴰ (f, m) s.medianas_r
        → Compite p mejor m
        → indice s.familia_campeona p.orden_simplicidad ≤ indice f p.orden_simplicidad
    pub favorable : s.adverso ≡ false

  -- Not even the least median is below 1: the baseline, and the result is adverse.
  pub record EsAdversa (s : SeleccionCategoria F) : Type 0 where
    pub campeona : s.familia_campeona ≡ familia_linea_base
    pub mejor : F
    pub minima : EsMinima mejor s.medianas_r
    pub no_supera : ge mejor uno ≡ true
    pub adversa : s.adverso ≡ true

  exigir-ok : {A : Type 0} (o : Option A) {x : A} → exigir fl o ≡ ok x → o ≡ some x
  exigir-ok none e = cc e
  exigir-ok (some y) e = cc e

  minimo-EsMinima :
      OrdenDebil lt
      → (medianas : List (String × F)) {mejor : F}
      → minimo lt (map (λ q. q.1) medianas) ≡ some mejor
      → EsMinima mejor medianas
  minimo-EsMinima orden medianas {mejor} e =
      let (f, m) =
        minimo-Todos lt (λ v. (f : String) × Memᴰ (f, v) medianas) (map (λ q. q.1) medianas)
          (con_familia medianas medianas (λ q m. m)) e in
      record {
        familia = f;
        alguna = m;
        ninguna_menor = de_map medianas (
            minimo-minimo lt (λ v w. lt w v ≡ false) irreflexivo
              (λ a b c h k. orden.negtrans c b a k h) (λ a b h. orden.asim a b h) (λ a b h. h)
              (map (λ q. q.1) medianas) e);
      }
    where
      irreflexivo : (a : F) → lt a a ≡ false
      irreflexivo a = elim (Bool-cases (lt a a)) [ inl b ↦ orden.asim a a b | inr b ↦ b ]

      con_familia :
          (ms todas : List (String × F))
          → ((q : String × F) → Memᴰ q ms → Memᴰ q todas)
          → Todos (λ v. (f : String) × Memᴰ (f, v) todas) (map (λ q. q.1) ms)
      con_familia [] todas h = tt
      con_familia (q ∷ ms) todas h =
          ((q.0, h q (Memᴰ.head refl)), con_familia ms todas (λ r m. h r (Memᴰ.tail m)))

      de_map :
          (ms : List (String × F))
          → Todos (λ w. lt w mejor ≡ false) (map (λ q. q.1) ms)
          → Todos (λ (q : String × F). lt q.1 mejor ≡ false) ms
      de_map [] h = tt
      de_map (q ∷ ms) (h, hs) = (h, de_map ms hs)

  partes : (a b c : Bool) → (a && (b || c)) ≡ true → (a ≡ true) × ((b ≡ true) ⊎ (c ≡ true))
  partes true true c h = (refl, inl refl)
  partes true false true h = (refl, inr refl)
  partes true false false h = cc h
  partes false b c h = cc h

  empata-Compite :
      (p : PoliticaSeleccion fl) (mejor : F) (q : String × F)
      → empata fl p mejor q ≡ true
      → Compite p mejor q.1
  empata-Compite p mejor q h =
      partes (lt q.1 uno) (eq q.1 mejor) (lt (restar q.1 mejor) p.tolerancia_empate) h

  Compite-empata :
      (p : PoliticaSeleccion fl) (mejor : F) (q : String × F)
      → Compite p mejor q.1
      → empata fl p mejor q ≡ true
  Compite-empata p mejor q (bajo, inl igual) = rw (bajo, igual) refl
  Compite-empata p mejor q (bajo, inr cerca) = elim (Bool-cases (eq q.1 mejor)) [
    | inl b ↦ rw (bajo, b) refl
    | inr b ↦ rw (bajo, b, cerca) refl
  ]

  -- The least family by `_simplicidad` is no later than any in the order of simplicity.
  mas_simple-indice :
      (p : PoliticaSeleccion fl) (qs : List (String × F)) {g : String × F}
      → minimo (mas_simple fl p) qs ≡ some g
      → Todos (λ q. indice g.0 p.orden_simplicidad ≤ indice q.0 p.orden_simplicidad) qs
  mas_simple-indice p qs e =
      minimo-minimo (mas_simple fl p)
        (λ a b. indice a.0 p.orden_simplicidad ≤ indice b.0 p.orden_simplicidad) (λ a. omega arith)
        (λ a b c h k. omega arith)
        (λ a b h.
          antes (indice a.0 p.orden_simplicidad) (indice b.0 p.orden_simplicidad) (str_lt a.0 b.0)
            h)
        (λ a b h.
          despues (indice a.0 p.orden_simplicidad) (indice b.0 p.orden_simplicidad) (str_lt a.0 b.0)
            h)
        qs e
    where
      antes : (i j : ℕ) (b : Bool) → (ltb i j || (not (ltb j i) && b)) ≡ true → i ≤ j
      antes i j b h = ground arith

      despues : (i j : ℕ) (b : Bool) → (ltb i j || (not (ltb j i) && b)) ≡ false → j ≤ i
      despues i j b h = ground arith

  -- The winner of the tie, among those that compete.
  ganadora-Compite :
      (p : PoliticaSeleccion fl) (mejor : F) (medianas : List (String × F)) (g : String × F)
      → minimo (mas_simple fl p) (filter (empata fl p mejor) medianas) ≡ some g
      → Memᴰ g medianas
        × Compite p mejor g.1
        × ((f : String) (m : F)
            → Memᴰ (f, m) medianas
            → Compite p mejor m
            → indice g.0 p.orden_simplicidad ≤ indice f p.orden_simplicidad)
  ganadora-Compite p mejor medianas g e =
      let empatadas = filter (empata fl p mejor) medianas in
      (
        minimo-Todos (mas_simple fl p) (λ q. Memᴰ q medianas) empatadas
            (filter-Todos (λ q. Memᴰ q medianas) (empata fl p mejor) medianas (Todos-Mem medianas))
            e,
        empata-Compite p mejor g (
            minimo-Todos (mas_simple fl p) (λ q. empata fl p mejor q ≡ true) empatadas
              (filter-pasan (empata fl p mejor) medianas) e),
        λ f m esta compite.
            Todos-elim (λ q. indice g.0 p.orden_simplicidad ≤ indice q.0 p.orden_simplicidad)
              empatadas (mas_simple-indice p empatadas e)
              (Mem-filter (empata fl p mejor) medianas (Compite-empata p mejor (f, m) compite)
                esta),
      )

  -- From the medians on.
  pub elegir_cases :
      OrdenDebil lt
      → (p : PoliticaSeleccion fl) (b s : SeleccionCategoria F) (medianas : List (String × F))
      → b.familia_campeona ≡ familia_linea_base
      → b.adverso ≡ false
      → elegir fl p b medianas ≡ ok s
      → (s.medianas_r ≡ medianas) × (EsAdversa s ⊎ EsMejor p s)
  unfolding elegir
  elegir_cases orden p b s medianas eb ea e =
      let (mejor, e1, e2) = >>=-eq-ok (exigir fl (minimo lt (map (λ q. q.1) medianas))) _ e in
      let minima = minimo-EsMinima orden medianas (exigir-ok _ e1) in
      elim (Bool-cases (ge mejor uno)) [
        | inl puerta ↦
            let e3 : ◌≡◌ {A = Result SeleccionError (SeleccionCategoria F)}
                (ok (record b {
                  medianas_r = medianas;
                  adverso = true;
                  motivo = compuerta_linea_base;
                }))
                (ok s) =
              rw puerta at e2 in
            subst (λ t. (t.medianas_r ≡ medianas) × (EsAdversa t ⊎ EsMejor p t)) (ok_injective e3)
              (
                refl,
                inl (record {
                  campeona = eb;
                  mejor = mejor;
                  minima = minima;
                  no_supera = puerta;
                  adversa = refl;
                }),
              )
        | inr pasa ↦
            let e3 = rw pasa at e2 in
            let (g, eg, e4) =
              >>=-eq-ok (exigir fl (minimo (mas_simple fl p) (filter (empata fl p mejor) medianas)))
                _ e3 in
            let (esta, compite, mas_simples) =
              ganadora-Compite p mejor medianas g (exigir-ok _ eg) in
            subst (λ t. (t.medianas_r ≡ medianas) × (EsAdversa t ⊎ EsMejor p t)) (ok_injective e4)
              (
                refl,
                inr (record {
                  mediana = g.1;
                  mejor = mejor;
                  suya = esta;
                  minima = minima;
                  supera = pasa;
                  compite = compite;
                  mas_simples = mas_simples;
                  favorable = ea;
                }),
              )
      ]
