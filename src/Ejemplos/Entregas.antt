-- ===== src/Ejemplos/Entregas.antt =====
-- Three candidates: one valid, one that lacks a field, and one whose weights cannot be had.
use pred_engine.Prelude.{
  ℕ, ◌+◌, ◌≡◌, refl, String, Option, none, some, List, [], ◌∷◌, ◌==◌, string_eq, if◌then◌else◌,
  nat_beq, ltb, Todos, length,
}
use pred_engine.Prelude.Sorted.{filter}
use pred_engine.Prelude.Result.{Result, ok, err}
use pred_engine.Candidatos.Contratos.{
  MotivoRechazo, Valor, texto, otro, Crudo, diccionario, Candidato, ValidationError, no_disponible,
  ContextoParticion, ManifiestoCandidatos, Entorno, HandoffValidado,
}
use pred_engine.Candidatos.Lote.{validar_lote}
use pred_engine.Candidatos.Validacion.{validar_candidatos, verificar_pesos, validar_manifiesto}
use pred_engine.Candidatos.Destinos.{Destino, validar_manifiesto-Destino}

abbrev crudo : String → String → Crudo ℕ
crudo id familia =
    ("sku", texto "s1") ∷ ("candidato_id", texto id) ∷ ("familia", texto familia) ∷ []

abbrev contexto : ContextoParticion ℕ ℕ
contexto = record { ingesta_ref_m1 = "m1"; t_corte_reserva = 20; fraccion_reserva = 2 }

abbrev manifiesto : ManifiestoCandidatos ℕ ℕ ℕ ℕ
manifiesto = record {
  run_id_m2 = "r1";
  emitido_en = 5;
  contexto = contexto;
  candidatos = crudo "a" "classical" ∷ crudo "b" "ml" ∷ crudo "c" "foundation" ∷ [];
}

abbrev sin_semilla : ValidationError
sin_semilla = record {
  primero = record { tipo = "missing"; ruta = "ml" ∷ "semilla" ∷ []; msg = "Field required" };
  otros = [];
}

abbrev validado : Crudo ℕ → Option (Valor ℕ) → Result ValidationError (Candidato ℕ)
validado c (some (texto t)) =
    if t == "ml" then err sin_semilla else ok (record { familia = t; volcado = c })
validado c _ = err sin_semilla

abbrev familia_de : Crudo ℕ → Option (Valor ℕ)
familia_de [] = none
familia_de ((k, v) ∷ resto) =
    let despues = familia_de resto in if k == "familia" then some v else despues

abbrev entorno : Entorno
entorno = record {
  O = ℕ;
  D = ℕ;
  F = ℕ;
  T = ℕ;
  str = λ n. "1";
  es_numero = nat_beq;
  misma_fecha = nat_beq;
  misma_fraccion = nat_beq;
  anterior = ltb;
  strip = λ t. t;
  repr = λ t. t;
  startswith = λ t u. t == u;
  endswith = λ t u. t == u;
  loads = λ t. some (diccionario (("schema_version", otro 1) ∷ []));
  model_validate_json = λ t. ok manifiesto;
  validate_python = λ c. validado c (familia_de c);
  cargar_fundacional = err (no_disponible "sin pesos");
}

abbrev familias : List String
familias = "classical" ∷ "foundation" ∷ []

abbrev o_vacio : Result MotivoRechazo (HandoffValidado ℕ ℕ ℕ) → HandoffValidado ℕ ℕ ℕ
o_vacio (ok h) = h
o_vacio (err e) = record { contexto = contexto; run_id_m2 = ""; candidatos = []; fallos = [] }

abbrev entrega : HandoffValidado ℕ ℕ ℕ
entrega = o_vacio (validar_manifiesto entorno "{}" contexto ("s1" ∷ []) (some 9) familias)

se_acepta : validar_manifiesto entorno "{}" contexto ("s1" ∷ []) (some 9) familias ≡ ok entrega
unfolding validar_manifiesto validar_lote validar_candidatos verificar_pesos filter
se_acepta = refl

validar_manifiesto-Destino_example :
    (m : ManifiestoCandidatos ℕ ℕ ℕ ℕ) × (validar_lote entorno "{}" contexto ("s1" ∷ []) (some 9)
      ≡ ok m)
    × Todos (Destino entorno familias entrega.candidatos entrega.fallos) m.candidatos
    × (length entrega.candidatos + length entrega.fallos ≡ length m.candidatos)
validar_manifiesto-Destino_example =
    validar_manifiesto-Destino entorno familias "{}" contexto ("s1" ∷ []) (some 9) entrega se_acepta
