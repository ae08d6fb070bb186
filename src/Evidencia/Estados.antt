-- ===== src/Evidencia/Estados.antt =====
-- The state of a run under each change of the table of the runs.
use pred_engine.Prelude.{
  String, ◌≡◌, ◌≢◌, ◌⊎◌, refl, sym, ap, ◌∙◌, true, false, Option, none, some, List, [], ◌∷◌, ◌++◌,
  ◌==◌, string_eq, Bool-cases, inl, inr,
}
use pred_engine.Evidencia.Contratos.{
  EstadoCorrida, en_curso, evaluada, seleccionada, publicada, rechazada, Corrida,
}
use pred_engine.Evidencia.Tablas.{corrida_de, estado_en, con_estado}
use pred_engine.Evidencia.Registro.{rechazar, rechazar_una}

pub run-eq : (q r : String) → (q == r) ≡ true → q ≡ r
run-eq q r h = (string_eq.refleja q r).0 h

pub estado_en-con_estado :
    (q : String) (s destino : EstadoCorrida) (cs : List Corrida)
    → estado_en q cs ≡ some s
    → estado_en q (con_estado q destino cs) ≡ some destino
estado_en-con_estado q s destino [] h = cc
estado_en-con_estado q s destino (c ∷ cs) h = elim (Bool-cases (c.run_id == q)) [
  | inl e ↦ rw (e, e) refl
  | inr e ↦ rw (e, e) (estado_en-con_estado q s destino cs (sym (rw e refl) ∙ h))
]

no_coincide :
    (c : Corrida) (q r : String)
    → (c.run_id == q) ≡ true
    → (q == r) ≡ false
    → (c.run_id == r) ≡ false
no_coincide c q r f e = ap (λ t. t == r) (run-eq c.run_id q f) ∙ e

pub corrida_de-con_estado :
    (q r : String) (destino : EstadoCorrida) (cs : List Corrida)
    → (q == r) ≡ false
    → corrida_de r (con_estado q destino cs) ≡ corrida_de r cs
corrida_de-con_estado q r destino [] e = refl
corrida_de-con_estado q r destino (c ∷ cs) e = elim (Bool-cases (c.run_id == q)) [
  | inl f ↦ rw (f, no_coincide c q r f e) (corrida_de-con_estado q r destino cs e)
  | inr f ↦ rw (f, corrida_de-con_estado q r destino cs e) refl
]

-- A run that is found has its state.
abbrev pub estado_de : Option Corrida → Option EstadoCorrida
estado_de none = none
estado_de (some c) = some c.estado

pub estado_en-corrida_de :
    (r : String) (cs : List Corrida) → estado_en r cs ≡ estado_de (corrida_de r cs)
estado_en-corrida_de r [] = refl
estado_en-corrida_de r (c ∷ cs) = elim (Bool-cases (c.run_id == r)) [
  | inl e ↦ rw e refl
  | inr e ↦ rw e (estado_en-corrida_de r cs)
]

pub estado_en-ajena :
    (q r : String) (destino : EstadoCorrida) (cs : List Corrida)
    → (q == r) ≡ false
    → estado_en r (con_estado q destino cs) ≡ estado_en r cs
estado_en-ajena q r destino cs e =
    estado_en-corrida_de r (con_estado q destino cs)
    ∙ (ap estado_de (corrida_de-con_estado q r destino cs e) ∙ sym (estado_en-corrida_de r cs))

-- A rejection leaves a published run, and the others but its own.
una_cases :
    (causa : Option String) (c : Corrida)
    → ((rechazar_una causa c.estado c ≡ c) × (c.estado ≡ publicada))
      ⊎ (((rechazar_una causa c.estado c).run_id ≡ c.run_id)
          × ((rechazar_una causa c.estado c).estado ≡ rechazada)
          × (c.estado ≢ publicada))
una_cases causa c = segun c.estado refl
  where
    segun :
        (s : EstadoCorrida)
        → c.estado ≡ s
        → ((rechazar_una causa s c ≡ c) × (c.estado ≡ publicada))
          ⊎ (((rechazar_una causa s c).run_id ≡ c.run_id)
              × ((rechazar_una causa s c).estado ≡ rechazada)
              × (c.estado ≢ publicada))
    segun publicada e = inl (refl, e)
    segun en_curso e = inr (refl, refl, λ p. cc (sym e ∙ p))
    segun evaluada e = inr (refl, refl, λ p. cc (sym e ∙ p))
    segun seleccionada e = inr (refl, refl, λ p. cc (sym e ∙ p))
    segun rechazada e = inr (refl, refl, λ p. cc (sym e ∙ p))

abbrev pub Rechazo : String → List Corrida → List Corrida → Type 0
Rechazo r antes despues =
    (corrida_de r despues ≡ corrida_de r antes)
    ⊎ ((s : EstadoCorrida) × (estado_en r antes ≡ some s)
        × (s ≢ publicada)
        × (estado_en r despues ≡ some rechazada))

una_mas :
    (r : String) (c c' : Corrida) (cs cs' : List Corrida)
    → c'.run_id ≡ c.run_id
    → ((c' ≡ c) ⊎ ((c'.estado ≡ rechazada) × (c.estado ≢ publicada)))
    → Rechazo r cs cs'
    → Rechazo r (c ∷ cs) (c' ∷ cs')
una_mas r c c' cs cs' mismo cambio resto = elim (Bool-cases (c.run_id == r)) [
  | inl m ↦
      let m' : (c'.run_id == r) ≡ true = ap (λ t. t == r) mismo ∙ m in
      elim cambio [
        | inl son ↦ inl (rw (m', m) (ap some son))
        | inr (s, no_p) ↦ inr (c.estado, rw m refl, no_p, rw m' (ap some s))
      ]
  | inr m ↦ let m' : (c'.run_id == r) ≡ false = ap (λ t. t == r) mismo ∙ m in rw (m', m) resto
]

pub rechazar_cases :
    (q r : String) (causa : Option String) (cs : List Corrida) → Rechazo r cs (rechazar q causa cs)
rechazar_cases q r causa [] = inl refl
rechazar_cases q r causa (c ∷ cs) = elim (Bool-cases (c.run_id == q)) [
  | inr e ↦
      simp e (una_mas r c c cs (rechazar q causa cs) refl (inl refl) (rechazar_cases q r causa cs))
  | inl e ↦ elim (una_cases causa c) [
    | inl (igual, p) ↦
        simp (e, igual)
          (una_mas r c c cs (rechazar q causa cs) refl (inl refl) (rechazar_cases q r causa cs))
    | inr (mismo, s, no_p) ↦ simp e (
        una_mas r c (rechazar_una causa c.estado c) cs (rechazar q causa cs) mismo (inr (s, no_p))
          (rechazar_cases q r causa cs))
  ]
]

pub corrida_de-append :
    (r : String) (cs : List Corrida) (c : Corrida)
    → (corrida_de r cs ≡ none) ⊎ (corrida_de r (cs ++ c ∷ []) ≡ corrida_de r cs)
corrida_de-append r [] c = inl refl
corrida_de-append r (d ∷ cs) c = elim (Bool-cases (d.run_id == r)) [
  | inl e ↦ inr (rw e refl)
  | inr e ↦ rw e (corrida_de-append r cs c)
]

pub estado_en-append :
    (r : String) (cs : List Corrida) (c : Corrida)
    → (estado_en r (cs ++ c ∷ []) ≡ estado_en r cs)
      ⊎ ((estado_en r cs ≡ none) × (estado_en r (cs ++ c ∷ []) ≡ some c.estado))
estado_en-append r [] c = elim (Bool-cases (c.run_id == r)) [
  | inl e ↦ inr (refl, rw e refl)
  | inr e ↦ inl (rw e refl)
]
estado_en-append r (d ∷ cs) c = elim (Bool-cases (d.run_id == r)) [
  | inl e ↦ inl (rw e refl)
  | inr e ↦ rw e (estado_en-append r cs c)
]
