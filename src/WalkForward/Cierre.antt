-- ===== src/WalkForward/Cierre.antt =====
-- walk_forward_greedy.py: an executor that was closed.

use pred_engine.Prelude.{◌≡◌, String, false, none, List, arith}
use pred_engine.Prelude.Result.{ok}
use pred_engine.WalkForward.Numeros.{Numpy}
use pred_engine.WalkForward.Ejecucion.{Modelos, Ajustes}
use pred_engine.WalkForward.Recorridos.{
  ResultadoWalkForward, EjecutorGreedy, avanzar, cerrar, resultado,
}

module _ (np : Numpy) (modelos : Modelos np) (a : Ajustes np) (y : List np.F)
    (configuracion : modelos.Configuracion) where
  -- A closed executor stays closed: advancing evaluates nothing and changes nothing, and closing it
  -- again keeps the first reason. `cerrar` keeps the windows evaluated so far.
  pub cerrado_no_avanza :
      (motivo otro : String) (e : EjecutorGreedy np)
      → (avanzar np modelos a y configuracion (cerrar np modelos a y configuracion motivo e)
          ≡ (ok none, cerrar np modelos a y configuracion motivo e))
        × (cerrar np modelos a y configuracion otro (cerrar np modelos a y configuracion motivo e)
            ≡ cerrar np modelos a y configuracion motivo e)
        × ((cerrar np modelos a y configuracion motivo e).historial ≡ e.historial)
  unfolding avanzar cerrar
  cerrado_no_avanza motivo otro e = (ground arith, ground arith, ground arith)

  -- The result of an executor that was closed before it was finished is not complete.
  pub resultado-cerrar :
      (motivo : String) (e : EjecutorGreedy np) (r : ResultadoWalkForward np)
      → e.cerrado ≡ false
      → resultado np modelos a y configuracion (cerrar np modelos a y configuracion motivo e) ≡ ok r
      → r.completo ≡ false
  unfolding cerrar resultado
  resultado-cerrar motivo e r c h = ground arith
