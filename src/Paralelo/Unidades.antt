-- ===== src/Paralelo/Unidades.antt =====
-- comun/ejecucion_paralela.py: one unit of work, run in isolation. What the process of the unit is
-- and reads from its clocks is a `Proceso`. The fields of a line of progress that are computed from
-- the record of the unit, and the moment of its writing, are left out.
use pred_engine.Prelude.{ℕ, String, Bool, Option, none, some, List, [], ◌∷◌, ◌++◌, if◌then◌else◌}
use pred_engine.Prelude.Result.{Result, ok, err}
use pred_engine.Paralelo.Codigos.{Excepcion, codigo_de}

pub data EstadoUnidad : Type 0 where
  completada fallida : EstadoUnidad

pub record RegistroUnidad (Tiempo : Type 0) : Type 0 where
  pub estado : EstadoUnidad
  pub pid : ℕ
  pub inicio : Tiempo
  pub fin : Tiempo
  pub error : Option String
  pub cpu_s : Option Tiempo
  pub codigo : Option String

pub record ResultadoUnidad (Tiempo R : Type 0) : Type 0 where
  pub registro : RegistroUnidad Tiempo
  pub valor : Option R
  pub reutilizado : Bool

pub record EtiquetaUnidad : Type 0 where
  pub etapa : String
  pub sku_id : String
  pub family : String
  pub model : String

pub record Proceso (Tiempo : Type 0) : Type 0 where
  pub pid : ℕ
  pub started_at : Tiempo
  pub inicio : Tiempo
  pub fin : Tiempo
  pub cpu_s : Tiempo

pub data Evento (Tiempo : Type 0) : Type 0 where
  unit_started : EtiquetaUnidad → ℕ → Tiempo → Evento Tiempo
  unit_finished : EtiquetaUnidad → RegistroUnidad Tiempo → Evento Tiempo

-- What a run leaves behind, in order: a call of `al_completar` that returned, and a line of the
-- file of progress.
pub data Suceso (Tiempo R : Type 0) : Type 0 where
  durable : ResultadoUnidad Tiempo R → Suceso Tiempo R
  linea : Evento Tiempo → Suceso Tiempo R

-- The arguments of a call, which the units share: `funcion`, which may give None, `al_completar`
-- and `progreso`; `str(exc)`, what can be imported, and which writes the disk accepts.
pub record Trabajo : Type 1 where
  pub Tiempo : Type 0
  pub Tarea : Type 0
  pub R : Type 0
  pub funcion : Tarea → Result Excepcion (Option R)
  pub al_completar : Option (Tarea → ResultadoUnidad Tiempo R → Result Excepcion (Unit {0}))
  pub progreso : Option String
  pub describir_error : Excepcion → String
  pub carga : String → String → Bool
  pub escribe : Evento Tiempo → Bool

module _ (x : Trabajo) where
  abbrev pub Resultado : Type 0
  Resultado = ResultadoUnidad x.Tiempo x.R

  abbrev pub Rastro : Type 0
  Rastro = List (Suceso x.Tiempo x.R)

  -- A write that fails is logged and never stops the work.
  unfoldable pub emitir_evento : Evento x.Tiempo → Rastro
  emitir_evento e = if x.escribe e then linea e ∷ [] else []

  -- `seguimiento`: the label that is announced, when there is a file to announce it in.
  abbrev pub seguimiento : Option EtiquetaUnidad → Option String → Option EtiquetaUnidad
  seguimiento etiqueta none = none
  seguimiento etiqueta (some ruta) = etiqueta

  unfoldable pub evento_inicio : Option EtiquetaUnidad → Proceso x.Tiempo → Rastro
  unfolding emitir_evento
  evento_inicio none p = []
  evento_inicio (some e) p = emitir_evento (unit_started e p.pid p.started_at)

  unfoldable pub evento_fin : Option EtiquetaUnidad → RegistroUnidad x.Tiempo → Rastro
  unfolding emitir_evento
  evento_fin none r = []
  evento_fin (some e) r = emitir_evento (unit_finished e r)

  abbrev pub correr : Result Excepcion (Option x.R) → Option String → Proceso x.Tiempo → Resultado
  correr (err e) etapa p = record {
    registro = record {
      estado = fallida;
      pid = p.pid;
      inicio = p.inicio;
      fin = p.fin;
      error = some (x.describir_error e);
      cpu_s = some p.cpu_s;
      codigo = some (codigo_de x.carga e etapa);
    };
    valor = none;
    reutilizado = Bool.false;
  }
  correr (ok v) etapa p = record {
    registro = record {
      estado = completada;
      pid = p.pid;
      inicio = p.inicio;
      fin = p.fin;
      error = none;
      cpu_s = some p.cpu_s;
      codigo = none;
    };
    valor = v;
    reutilizado = Bool.false;
  }

  unfoldable pub correr_aislada : x.Tarea → Option String → Proceso x.Tiempo → Resultado
  correr_aislada tarea etapa p = correr (x.funcion tarea) etapa p

  abbrev pub tras_completar :
      Result Excepcion (Unit {0}) → Resultado → Option String → Resultado × Rastro
  tras_completar (ok u) r etapa = (r, durable r ∷ [])
  tras_completar (err e) r etapa = (
    record {
      registro = record r.registro {
        estado = fallida;
        error = some (x.describir_error e);
        codigo = some (codigo_de x.carga e etapa);
      };
      valor = none;
      reutilizado = Bool.false;
    },
    [],
  )

  -- `al_completar` is called when there is one and the unit has a value.
  abbrev pub completar_con :
      Option (x.Tarea → Resultado → Result Excepcion (Unit {0}))
      → Option x.R
      → x.Tarea
      → Resultado
      → Option String
      → Resultado × Rastro
  completar_con none v tarea r etapa = (r, [])
  completar_con (some f) none tarea r etapa = (r, [])
  completar_con (some f) (some v) tarea r etapa = tras_completar (f tarea r) r etapa

  unfoldable pub ejecutar_aislada :
      x.Tarea → Option EtiquetaUnidad → Option String → Proceso x.Tiempo → Resultado × Rastro
  unfolding correr_aislada evento_inicio evento_fin
  ejecutar_aislada tarea etiqueta etapa p =
      let r = correr_aislada tarea etapa p in
      let (final, guardado) = completar_con x.al_completar r.valor tarea r etapa in
      let visible = seguimiento etiqueta x.progreso in
      (final, evento_inicio visible p ++ guardado ++ evento_fin visible final.registro)
