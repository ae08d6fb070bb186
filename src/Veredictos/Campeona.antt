-- ===== src/Veredictos/Campeona.antt =====
-- seleccion.py: the champion of a category, from the evaluations on.
use mathlib.Core.List.{Memᴰ}
use mathlib.Core.List.Memᴰ
use pred_engine.Prelude.{
  String, Bool, ◌≡◌, refl, ◌⊎◌, inl, inr, true, false, List, [], ◌∷◌, map, Todos, Bool-cases, ◌||◌,
  ◌==◌, string_eq, string_eq_refl, ap, sym, ◌∙◌, subst,
}
use pred_engine.Prelude.Result.{
  ok, ◌>>=◌, >>=-eq-ok, traverse, traverse-Pares, Pares, nil, cons, ok_injective,
}
use pred_engine.Prelude.Sorted.{filter, filter-Todos, filter-pasan, insertar, sorted, str_lt}
use pred_engine.Prelude.Miembros.{Todos-elim, Todos-intro, Todos-Mem, Mem-filter}
use pred_engine.Hpo.Ordenados.{OrdenDebil, Todos-sorted}
use pred_engine.Enrutador.Contratos.{SkuClass}
use pred_engine.Veredictos.Contratos.{
  Flotantes, EvaluacionSku, PoliticaSeleccion, SeleccionCategoria, familia_linea_base,
}
use pred_engine.Veredictos.Seleccion.{
  en, Razones, mediana_de, vacia, sin_comparables, buscar, recoger, entregadas,
  seleccionar_categoria,
}
use pred_engine.Veredictos.Empates.{EsAdversa, EsMejor, elegir_cases}

Pares-Todos :
    {A B : Type 0} {R : A → B → Type 0} {xs : List A} {ys : List B} (P : A → Type 0)
    (Q : B → Type 0)
    → ((x : A) (y : B) → R x y → P x → Q y)
    → Pares R xs ys
    → Todos P xs
    → Todos Q ys
Pares-Todos P Q f nil h = tt
Pares-Todos P Q f (cons {x = x} {y = y} r p) h = (f x y r h.0, Pares-Todos P Q f p h.1)

en-Mem : (f : String) (fs : List String) → en f fs ≡ true → Memᴰ f fs
en-Mem f [] h = cc h
en-Mem f (g ∷ fs) h = elim (Bool-cases (g == f)) [
  | inl b ↦ Memᴰ.head (sym ((string_eq.refleja g f).0 b))
  | inr b ↦ Memᴰ.tail (en-Mem f fs (sym (rw b refl) ∙ h))
]

Mem-en : (f : String) (fs : List String) → Memᴰ f fs → en f fs ≡ true
Mem-en f [] m = absurd (Memᴰ.not-nil m)
Mem-en f (g ∷ fs) (Memᴰ.head e) = rw (e, string_eq_refl g) refl
Mem-en f (g ∷ fs) (Memᴰ.tail m) = elim (Bool-cases (g == f)) [
  | inl b ↦ rw b refl
  | inr b ↦ rw b (Mem-en f fs m)
]

module _ (fl : Flotantes) where
  open fl use {F, lt}

  -- The policy admits the family for the category, and some evaluation has a candidate of it.
  abbrev pub EsCompetidora :
      SkuClass → List (EvaluacionSku fl) → PoliticaSeleccion fl → String → Type 0
  EsCompetidora clase evaluaciones p f =
      Memᴰ f (p.familias_elegibles clase) × Memᴰ f (entregadas fl evaluaciones)

  -- There is nothing to compare: no family competes, or no SKU has a ratio for all that do.
  pub record EsIncomparable (clase : SkuClass) (evaluaciones : List (EvaluacionSku fl))
      (p : PoliticaSeleccion fl) (s : SeleccionCategoria F) : Type 0 where
    pub campeona : s.familia_campeona ≡ familia_linea_base
    pub sin_medianas : s.medianas_r ≡ []
    pub favorable : s.adverso ≡ false
    pub causa : ((f : String) → ¬ EsCompetidora clase evaluaciones p f) ⊎ (s.skus_comparables ≡ [])

  mediana-familia :
      (razones : Razones fl) (comparables : List String) (f : String) (q : String × F)
      → mediana_de fl razones comparables f ≡ ok q
      → f ≡ q.0
  mediana-familia r c f q e =
      let (xs, e1, e2) = >>=-eq-ok (traverse (λ s. buscar s r >>= λ rs. buscar f rs) c) _ e in
      ap (λ z. z.0) (ok_injective e2)

  medianas-Todos :
      (razones : Razones fl) (comparables familias : List String) (medianas : List (String × F))
      (P : String → Type 0)
      → traverse (mediana_de fl razones comparables) familias ≡ ok medianas
      → Todos P familias
      → Todos (λ q. P q.0) medianas
  medianas-Todos r c fs ms P e h =
      Pares-Todos P (λ q. P q.0) (λ f q eq pf. subst P (mediana-familia r c f q eq) pf)
        (traverse-Pares (mediana_de fl r c) fs e) h

  vacia-nil : {A : Type 0} (xs : List A) → vacia fl xs ≡ true → xs ≡ []
  vacia-nil [] h = refl
  vacia-nil (x ∷ xs) h = cc h

  vacia-insertar : (x : String) (ys : List String) → ¬ (vacia fl (insertar str_lt x ys) ≡ true)
  unfolding insertar
  vacia-insertar x [] h = cc h
  vacia-insertar x (y ∷ ys) h = elim (Bool-cases (str_lt x y)) [
    | inl b ↦ cc (h, b)
    | inr b ↦ cc (h, b)
  ]

  vacia-sorted : (xs : List String) → vacia fl (sorted str_lt xs) ≡ true → xs ≡ []
  unfolding sorted
  vacia-sorted [] h = refl
  vacia-sorted (x ∷ xs) h = absurd (vacia-insertar x (sorted str_lt xs) h)

  ninguna_compite :
      (clase : SkuClass) (evaluaciones : List (EvaluacionSku fl)) (p : PoliticaSeleccion fl)
      → vacia fl (
          sorted str_lt
            (filter (λ f. en f (entregadas fl evaluaciones)) (p.familias_elegibles clase)))
        ≡ true
      → (f : String) → ¬ EsCompetidora clase evaluaciones p f
  ninguna_compite clase evaluaciones p h f (admitida, dada) = Memᴰ.not-nil (
      subst (Memᴰ f) (vacia-sorted _ h) (
        Mem-filter (λ g. en g (entregadas fl evaluaciones)) (p.familias_elegibles clase)
          (Mem-en f (entregadas fl evaluaciones) dada) admitida))

  las_que_compiten :
      (clase : SkuClass) (evaluaciones : List (EvaluacionSku fl)) (p : PoliticaSeleccion fl)
      → Todos
          (EsCompetidora clase evaluaciones p)
          (filter (λ f. en f (entregadas fl evaluaciones)) (p.familias_elegibles clase))
  las_que_compiten clase evaluaciones p =
      let dadas = entregadas fl evaluaciones in
      let elegibles = p.familias_elegibles clase in
      let dada : String → Bool = λ f. en f dadas in
      Todos-intro (EsCompetidora clase evaluaciones p) (filter dada elegibles) (λ f m. (
        Todos-elim (λ g. Memᴰ g elegibles) (filter dada elegibles)
            (filter-Todos (λ g. Memᴰ g elegibles) dada elegibles (Todos-Mem elegibles)) m,
        en-Mem f dadas (
            Todos-elim (λ g. dada g ≡ true) (filter dada elegibles) (filter-pasan dada elegibles)
              m),
      ))

  o_cases : (a b : Bool) → (a || b) ≡ true → (a ≡ true) ⊎ (b ≡ true)
  o_cases true b h = inl refl
  o_cases false b h = inr h

  -- For floats with a weak order, as those that are no NaN have, when the rule returns: no family that
  -- the policy admits was delivered or no SKU can be compared, and the champion is the baseline; or
  -- the least median is not below 1, the champion is the baseline and the result is adverse; or the
  -- least median is below 1, the result is not adverse, and the champion is a family that the policy
  -- admits and that was delivered, whose median is below 1 and is the least one or less than the
  -- tolerance above it, and of the families of which that holds none comes before it in the order of
  -- simplicity.
  pub seleccionar_categoria-EsMejor :
      OrdenDebil lt
      → (clase : SkuClass) (evaluaciones : List (EvaluacionSku fl)) (p : PoliticaSeleccion fl)
        (s : SeleccionCategoria F)
      → seleccionar_categoria fl clase evaluaciones p ≡ ok s
      → EsIncomparable clase evaluaciones p s
        ⊎ (EsAdversa fl s
            ⊎ (EsMejor fl p s × EsCompetidora clase evaluaciones p s.familia_campeona))
  unfolding seleccionar_categoria
  seleccionar_categoria-EsMejor orden clase evaluaciones p s e =
      let elegibles = p.familias_elegibles clase in
      let dadas = entregadas fl evaluaciones in
      let familias = sorted str_lt (filter (λ f. en f dadas) elegibles) in
      let razones = (recoger fl p.n_min familias evaluaciones ([], [])).0 in
      let comparables = sorted str_lt (map (λ q. q.0) razones) in
      let base =
        sin_comparables fl clase evaluaciones p comparables
          (recoger fl p.n_min familias evaluaciones ([], [])).1 in
      elim (Bool-cases (vacia fl familias || vacia fl comparables)) [
        | inl nada ↦ inl (
            subst (EsIncomparable clase evaluaciones p) (ok_injective (rw nada at e)) (record {
              campeona = refl;
              sin_medianas = refl;
              favorable = refl;
              causa = elim (o_cases (vacia fl familias) (vacia fl comparables) nada) [
                | inl sin_familias ↦ inl (ninguna_compite clase evaluaciones p sin_familias)
                | inr sin_skus ↦ inr (vacia-nil comparables sin_skus)
              ];
            }))
        | inr algo ↦
            let (medianas, em, es) =
              >>=-eq-ok (traverse (mediana_de fl razones comparables) familias) _ (rw algo at e) in
            let (son, casos) = elegir_cases fl orden p base s medianas refl refl es in
            elim casos [
              | inl adversa ↦ inr (inl adversa)
              | inr mejor ↦ inr (
                  inr (
                    mejor,
                    Todos-elim (λ q. EsCompetidora clase evaluaciones p q.0) medianas
                        (medianas-Todos razones comparables familias medianas
                          (EsCompetidora clase evaluaciones p) em
                          (Todos-sorted str_lt (EsCompetidora clase evaluaciones p) _
                            (las_que_compiten clase evaluaciones p)))
                        (subst (λ l. Memᴰ (s.familia_campeona, mejor.mediana) l) son mejor.suya),
                  ))
            ]
      ]
