-- ===== src/Paralelo/Conocidos.antt =====
-- comun/errores_codigo.py: which codes an exception may have.
use pred_engine.Prelude.{
  String, ◌≡◌, refl, Bool, true, false, Option, none, some, List, [], ◌∷◌, inl, inr, ◌==◌,
  string_eq, Todos, Bool-cases,
}
use pred_engine.Prelude.Sorted.{any, all, filter-Todos}
use pred_engine.Paralelo.Codigos.{
  Clase, Excepcion, simple, con_causa, Entrada, tabla, resueltas, codigos_conocidos, primer_codigo,
  codigo_de, respaldo, es_instancia, etapa_de_error, nombre_de,
}

-- `codigo in codigos_conocidos()`
unfoldable pub es_conocido : String → Bool
es_conocido c = any (λ k. c == k) codigos_conocidos

abbrev EsConocido : Entrada → Type 0
EsConocido e = es_conocido e.codigo ≡ true

all-Todos : {A : Type 0} (p : A → Bool) (xs : List A) → all p xs ≡ true → Todos (λ x. p x ≡ true) xs
all-Todos p [] h = tt
all-Todos p (x ∷ xs) h = elim (Bool-cases (p x)) [
  | inl b ↦ (b, all-Todos p xs (cc (h, b)))
  | inr b ↦ cc (h, b)
]

tabla_conocida : all (λ e. es_conocido e.codigo) tabla ≡ true
unfolding es_conocido codigos_conocidos tabla
tabla_conocida = refl

respaldo_conocido :
    (ausente : Bool) (etapa : Option String) → es_conocido (respaldo ausente etapa) ≡ true
unfolding es_conocido codigos_conocidos tabla
respaldo_conocido true etapa = refl
respaldo_conocido false none = refl
respaldo_conocido false (some etapa) = elim (Bool-cases (etapa == "L3")) [
  | inl b ↦ rw b refl
  | inr b ↦ rw b refl
]

primer_codigo-conocido :
    (cs : List Clase) (etapa : Option String) (es : List Entrada)
    → Todos EsConocido es
    → es_conocido (primer_codigo cs etapa es) ≡ true
primer_codigo-conocido cs etapa [] h =
    respaldo_conocido (es_instancia cs "builtins" "FileNotFoundError") etapa
primer_codigo-conocido cs etapa (e ∷ es) h = elim (Bool-cases (es_instancia cs e.modulo e.nombre)) [
  | inl b ↦ rw b h.0
  | inr b ↦ rw b (primer_codigo-conocido cs etapa es h.1)
]

module _ (carga : String → String → Bool) where
  resueltas_conocidas : Todos EsConocido (resueltas carga)
  unfolding resueltas
  resueltas_conocidas =
      filter-Todos EsConocido (λ e. carga e.modulo e.nombre) tabla
        (all-Todos (λ e. es_conocido e.codigo) tabla tabla_conocida)

  -- Whatever classes the platform can import, the code of an exception is one of the known codes,
  -- also of one that wraps others.
  pub codigo_de-conocido :
      (e : Excepcion) (etapa : Option String) → es_conocido (codigo_de carga e etapa) ≡ true
  unfolding codigo_de
  codigo_de-conocido (simple cs m) etapa =
      primer_codigo-conocido cs etapa (resueltas carga) resueltas_conocidas
  codigo_de-conocido (con_causa cs m s c) etapa =
      elim (Bool-cases (nombre_de cs == "PipelineExecutionError")) [
        | inl b ↦ rw b (codigo_de-conocido c (some (etapa_de_error s etapa)))
        | inr b ↦ rw b (primer_codigo-conocido cs etapa (resueltas carga) resueltas_conocidas)
      ]
