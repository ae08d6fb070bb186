-- ===== src/Evidencia/Tablas.antt =====
-- persistencia_evidencia/repositorio.py: the transaction, the state of a run, and what SQLite does to a
-- table. A transaction that raises is rolled back; that SQLite itself cannot commit is left out.
use pred_engine.Prelude.{
  String, Bool, Option, none, some, List, [], ◌∷◌, ◌++◌, map, ◌==◌, string_eq, if◌then◌else◌,
}
use pred_engine.Prelude.Sorted.{any, filter}
use pred_engine.Prelude.Result.{Result, ok, err}
use pred_engine.Prelude.Exec.{Exec}
use pred_engine.Evidencia.Contratos.{
  EstadoCorrida, EvidenciaError, estado_corrida_error, integridad, Corrida, De, Base, Externo,
}

-- INSERT of rows in a table with a primary key, which may conflict.
abbrev pub insertar : {A : Type 0} → (A → A → Bool) → List A → List A → Option (List A)
insertar misma tabla [] = some tabla
insertar misma tabla (fila ∷ filas) =
    let despues = insertar misma (tabla ++ fila ∷ []) filas in
    if any (misma fila) tabla then none else despues

-- SELECT ... WHERE run_id = ?
abbrev pub de : {A : Type 0} → String → List (De A) → List (De A)
de r filas = filter (λ f. f.0 == r) filas

abbrev pub con_run : {A : Type 0} → String → List A → List (De A)
con_run r filas = map (λ f. (r, f)) filas

abbrev pub corrida_de : String → List Corrida → Option Corrida
corrida_de r [] = none
corrida_de r (c ∷ cs) = let resto = corrida_de r cs in if c.run_id == r then some c else resto

abbrev pub estado_en : String → List Corrida → Option EstadoCorrida
estado_en r [] = none
estado_en r (c ∷ cs) = let resto = estado_en r cs in if c.run_id == r then some c.estado else resto

-- UPDATE m3_corridas SET estado = ? WHERE run_id = ?
abbrev pub con_estado : String → EstadoCorrida → List Corrida → List Corrida
con_estado r destino [] = []
con_estado r destino (c ∷ cs) =
    (if c.run_id == r then record c { estado = destino } else c) ∷ con_estado r destino cs

module _ (x : Externo) where
  abbrev pub Accion : Type 0 → Type 0
  Accion A = Exec (Base x.fl) EvidenciaError A

  abbrev pub cerrar :
      {A : Type 0}
      → Base x.fl
      → Result EvidenciaError A × Base x.fl
      → Result EvidenciaError A × Base x.fl
  cerrar b (ok a, b') = (ok a, b')
  cerrar b (err e, b') = (err e, b)

  abbrev pub transaccion : {A : Type 0} → Accion A → Accion A
  transaccion cuerpo b = cerrar b (cuerpo b)

  abbrev pub estado_corrida : Base x.fl → String → Option EstadoCorrida
  estado_corrida b r = estado_en r b.corridas

  abbrev pub exigir_en :
      String → Option EstadoCorrida → (EstadoCorrida → Bool) → String → Accion EstadoCorrida
  exigir_en r none permitidos operacion b = (err (estado_corrida_error r none operacion), b)
  exigir_en r (some s) permitidos operacion b =
      if permitidos s then (ok s, b) else (err (estado_corrida_error r (some s) operacion), b)

  abbrev pub exigir_estado : String → (EstadoCorrida → Bool) → String → Accion EstadoCorrida
  exigir_estado r permitidos operacion b = exigir_en r (estado_corrida b r) permitidos operacion b

  abbrev pub cambiar_estado : String → EstadoCorrida → Accion (Unit {0})
  cambiar_estado r destino b = (ok tt, record b { corridas = con_estado r destino b.corridas })

  -- What an INSERT gives, or the exception of a constraint.
  abbrev pub o_integridad : {A : Type 0} → Option A → Accion A
  o_integridad none b = (err integridad, b)
  o_integridad (some a) b = (ok a, b)
