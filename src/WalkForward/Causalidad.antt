-- ===== src/WalkForward/Causalidad.antt =====
-- ventanas.py: the partition is causal, complete and regular.
use pred_engine.Prelude.{
  ℕ, zero, suc, ◌+◌, ◌-◌, ◌*◌, ◌/◌, ◌≤◌, ◌<◌, ◌≡◌, refl, List, [], ◌∷◌, ◌++◌, arith, length,
  length-append, leb, ap, ◌∙◌, sym, Bool-cases, inl, inr, true, false, if◌then◌else◌, le→leb, Todos,
  ltb, not, ◌&&◌, Bool, subst,
}
use native.Mathlib.Nat.{div-eq-sub-div, div-eq_of_lt, le-div_iff_mul-le}
use mathlib.Core.List.{append_assoc, append-nil}
use pred_engine.Prelude.Result.{Result, ok, err, ◌>>=◌, ok_injective}
use pred_engine.WalkForward.Ventanas.{
  VentanaTemporal, ventana_temporal, EvaluacionError, recorrer_ventanas, generar_ventanas,
}

-- The window whose training ends at `fin_train`.
abbrev pub ventana_en : ℕ → ℕ → ℕ → VentanaTemporal
ventana_en horizonte indice fin_train = record {
  indice = indice;
  inicio_train = 0;
  fin_train = fin_train;
  inicio_val = fin_train;
  fin_val = fin_train + horizonte;
}

-- The windows that a series of `n` observations holds, by their description: `k` of them, one every
-- `paso` observations.
abbrev pub ventanas_desde : ℕ → ℕ → ℕ → ℕ → ℕ → List VentanaTemporal
ventanas_desde zero horizonte paso indice fin_train = []
ventanas_desde (suc k) horizonte paso indice fin_train =
    ventana_en horizonte indice fin_train
    ∷ ventanas_desde k horizonte paso (suc indice) (fin_train + paso)

module _ (n horizonte paso : ℕ) (h : 0 < horizonte) (p : 0 < paso) where
  -- How many windows end their training at `fin_train` or later.
  abbrev restantes : ℕ → ℕ
  restantes t = if leb (t + horizonte) n then (n - t - horizonte) / paso + 1 else 0

  restantes-suc : (t : ℕ) → leb (t + horizonte) n ≡ true → restantes t ≡ suc (restantes (t + paso))
  restantes-suc t cabe =
      let x : ℕ = n - t - horizonte in
      let resto : n - (t + paso) - horizonte ≡ x - paso = omega arith in
      let cociente = ap (λ y. y / paso) resto in
      elim (Bool-cases (leb (t + paso + horizonte) n)) [
        | inl otra ↦
            let salto = div-eq-sub-div {m = paso} {n = x} p (ground arith) in
            rw (cabe, otra) (omega (arith, cociente, salto))
        | inr fin ↦
            let nada = div-eq_of_lt {n = x} {m = paso} (ground arith) in
            rw (cabe, fin) (omega (arith, nada))
      ]

  ventana_temporal_ok :
      (i t : ℕ)
      → 0 < t
      → ventana_temporal (ventana_en horizonte i t) ≡ ok (ventana_en horizonte i t)
  unfolding ventana_temporal
  ventana_temporal_ok i t z = ground arith

  nada_resta : (t : ℕ) → leb (t + horizonte) n ≡ false → 0 ≡ restantes t
  nada_resta t fuera = rw fuera

  cola :
      (t : ℕ) (vs : List VentanaTemporal)
      → leb (t + horizonte) n ≡ true
      → ventana_en horizonte (length vs) t
          ∷ ventanas_desde
              (restantes (t + paso))
              horizonte
              paso
              (length (vs ++ ventana_en horizonte (length vs) t ∷ []))
              (t + paso)
        ≡ ventanas_desde (restantes t) horizonte paso (length vs) t
  cola t vs cabe =
      ap
        (λ i.
          ventana_en horizonte (length vs) t
          ∷ ventanas_desde (restantes (t + paso)) horizonte paso i (t + paso))
        (omega (arith, length-append vs (ventana_en horizonte (length vs) t ∷ [])))
      ∙ ap (λ k. ventanas_desde k horizonte paso (length vs) t) (sym (restantes-suc t cabe))

  recorrer_paso :
      (f t : ℕ) (vs : List VentanaTemporal)
      → leb (t + horizonte) n ≡ true
      → recorrer_ventanas (suc f) n horizonte paso t vs ≡ (
          ventana_temporal (ventana_en horizonte (length vs) t) >>= λ v.
          recorrer_ventanas f n horizonte paso (t + paso) (vs ++ v ∷ []))
  unfolding recorrer_ventanas
  recorrer_paso f t vs cabe = rw cabe

  recorrer_fin :
      (f t : ℕ) (vs : List VentanaTemporal)
      → leb (t + horizonte) n ≡ false
      → recorrer_ventanas (suc f) n horizonte paso t vs ≡ ok vs
  unfolding recorrer_ventanas
  recorrer_fin f t vs fuera = rw fuera

  recorrer_lem :
      (f t : ℕ) (vs : List VentanaTemporal)
      → (n + 1) - t < f
      → 0 < t
      → recorrer_ventanas f n horizonte paso t vs
        ≡ ok (vs ++ ventanas_desde (restantes t) horizonte paso (length vs) t)
  recorrer_lem zero t vs m z = absurd (omega arith)
  recorrer_lem (suc f) t vs m z = elim (Bool-cases (leb (t + horizonte) n)) [
    | inl cabe ↦
        recorrer_paso f t vs cabe
        ∙ ap
            (λ (r : Result EvaluacionError VentanaTemporal).
              r >>= λ v. recorrer_ventanas f n horizonte paso (t + paso) (vs ++ v ∷ []))
            (ventana_temporal_ok (length vs) t z)
        ∙ recorrer_lem f (t + paso) (vs ++ ventana_en horizonte (length vs) t ∷ []) (ground arith)
            (omega arith)
        ∙ ap ok (
            append_assoc vs (ventana_en horizonte (length vs) t ∷ []) _
            ∙ ap (λ l. vs ++ l) (cola t vs cabe))
    | inr fuera ↦
        recorrer_fin f t vs fuera
        ∙ ap ok (
            sym (append-nil vs)
            ∙ ap (λ k. vs ++ ventanas_desde k horizonte paso (length vs) t) (nada_resta t fuera))
  ]

-- With valid arguments and a series of at least `min_train + horizonte` observations the loop ends,
-- no window is refused, and the windows are exactly those that fit: the first trains on `min_train`
-- observations, each next one on `paso` more, all from the start of the series, and each is
-- validated on the `horizonte` observations right behind its training.
pub generar_ventanas_lem :
    (n min_train horizonte paso : ℕ)
    → 0 < min_train
    → 0 < horizonte
    → 0 < paso
    → min_train + horizonte ≤ n
    → generar_ventanas n min_train horizonte paso
      ≡ ok (ventanas_desde ((n - min_train - horizonte) / paso + 1) horizonte paso 0 min_train)
unfolding generar_ventanas
generar_ventanas_lem n m h p pm ph pp cabe =
    ground (arith, le→leb (m + h) n cabe, recorrer_lem n h p ph pp (suc n) m [])

abbrev pub rechazada : Result EvaluacionError (List VentanaTemporal) → Bool
rechazada (ok vs) = false
rechazada (err e) = true

abbrev pub admisible : ℕ → ℕ → ℕ → ℕ → Bool
admisible n m h p = (ltb 0 m && ltb 0 h && ltb 0 p) && leb (m + h) n

-- The partition is refused exactly when an argument is zero or the series is too short.
pub generar_ventanas_rechaza :
    (n min_train horizonte paso : ℕ)
    → rechazada (generar_ventanas n min_train horizonte paso)
      ≡ not (admisible n min_train horizonte paso)
unfolding generar_ventanas
generar_ventanas_rechaza n m h p = elim (Bool-cases (admisible n m h p)) [
  | inl b ↦ ground (arith, recorrer_lem n h p (ground arith) (ground arith) (suc n) m [])
  | inr b ↦ ground arith
]

-- No window reads the future: the validation starts where the training ends, neither is empty, and
-- nothing behind the series is read.
pub record EsCausal (n horizonte : ℕ) (v : VentanaTemporal) : Type 0 where
  pub contigua : v.inicio_val ≡ v.fin_train
  pub desde_cero : v.inicio_train ≡ 0
  pub entrena : 0 < v.fin_train
  pub valida : v.fin_val ≡ v.inicio_val + horizonte
  pub dentro : v.fin_val ≤ n

ventanas_desde-EsCausal :
    (k n horizonte paso i t : ℕ)
    → 0 < t
    → ((j : ℕ) → j < k → t + j * paso + horizonte ≤ n)
    → Todos (EsCausal n horizonte) (ventanas_desde k horizonte paso i t)
ventanas_desde-EsCausal zero n horizonte paso i t z b = tt
ventanas_desde-EsCausal (suc k) n horizonte paso i t z b = (
  record {
    contigua = refl;
    desde_cero = refl;
    entrena = z;
    valida = refl;
    dentro = omega (arith, b 0 (omega arith));
  },
  ventanas_desde-EsCausal k n horizonte paso (suc i) (t + paso) (omega arith)
      (λ j m. omega (arith, b (suc j) (omega arith))),
)

caben : (n m h p : ℕ) → 0 < p → m + h ≤ n → (j : ℕ) → j < (n - m - h) / p + 1 → m + j * p + h ≤ n
caben n m h p pp cabe j l =
    let x : ℕ = n - m - h in
    let mucho = (le-div_iff_mul-le {k = p} {x = j} {y = x} pp).0 (omega arith) in
    omega (arith, mucho)

-- Every window of a partition that is not refused is causal.
pub generar_ventanas-EsCausal :
    (n min_train horizonte paso : ℕ) (vs : List VentanaTemporal)
    → generar_ventanas n min_train horizonte paso ≡ ok vs
    → Todos (EsCausal n horizonte) vs
generar_ventanas-EsCausal n m h p vs e = elim (Bool-cases (admisible n m h p)) [
  | inl b ↦
      let pm : 0 < m = ground arith in
      let ph : 0 < h = ground arith in
      let pp : 0 < p = ground arith in
      let cabe : m + h ≤ n = ground arith in
      subst (Todos (EsCausal n h))
        (ok_injective (sym (generar_ventanas_lem n m h p pm ph pp cabe) ∙ e))
        (ventanas_desde-EsCausal _ n h p 0 m pm (caben n m h p pp cabe))
  | inr b ↦ cc (generar_ventanas_rechaza n m h p, e, b)
]
