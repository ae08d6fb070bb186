-- ===== src/Evidencia/Marca.antt =====
-- persistencia_evidencia/repositorio.py: `marcar_evaluada`.
use pred_engine.Prelude.{
  String, Bool, true, false, not, ℕ, Option, none, some, List, ◌==◌, string_eq, nat_eq,
  if◌then◌else◌, length,
}
use pred_engine.Prelude.Sorted.{filter}
use pred_engine.Prelude.Result.{ok, err}
use pred_engine.Prelude.Exec.{◌>>=◌}
use pred_engine.Evidencia.Contratos.{
  EstadoCorrida, en_curso, evaluada, inconsistente, Externo, Unidad, Protocolo,
}
use pred_engine.Evidencia.Tablas.{Accion, transaccion, exigir_estado, cambiar_estado}
use pred_engine.Evidencia.Protocolo.{protocolo_guardado}

abbrev pub admite_marcar : EstadoCorrida → Bool
admite_marcar en_curso = true
admite_marcar evaluada = true
admite_marcar _ = false

-- SELECT COUNT(*) FROM m3_unidades WHERE run_id = ?
abbrev pub confirmadas : String → List Unidad → ℕ
confirmadas r us = length (filter (λ u. u.run_id == r) us)

abbrev pub incompleta : Option Protocolo → ℕ → Bool
incompleta none n = false
incompleta (some p) n = not (n == p.n_unidades_previstas)

module _ (x : Externo) where
  unfoldable pub marcar_en : String → EstadoCorrida → Accion x (Unit {0})
  marcar_en r en_curso b =
      if incompleta (protocolo_guardado r b.protocolos) (confirmadas r b.unidades)
      then (err inconsistente, b)
      else cambiar_estado x r evaluada b
  marcar_en r _ b = (ok tt, b)

  unfoldable pub marcar_evaluada : String → Accion x (Unit {0})
  marcar_evaluada r =
      transaccion x
        (do estado ← exigir_estado x r admite_marcar "marcar_evaluada"; marcar_en r estado)
