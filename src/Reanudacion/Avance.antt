-- ===== src/Reanudacion/Avance.antt =====
-- controlador.py: what `checkpoint`, `interrumpir`, `completar` and `fallar` leave behind.
use text.Mathlib.TextEquality.{eq_iff}
use pred_engine.Prelude.{◌==◌, string_eq, ℕ, String, ◌≡◌, Option, none, some, arith, if◌then◌else◌}
use pred_engine.Prelude.Result.{Result, ok, err}
use pred_engine.Reanudacion.Contratos.{EstadoCorrida, ManifiestoCorrida, ReanudacionError}
use pred_engine.Reanudacion.Transiciones.{Paso, transicionar, Paso_of_transicionar}
use pred_engine.Reanudacion.Almacen.{manifiesto, guardar}
use pred_engine.Reanudacion.Controlador.{Externo, Mundo, SesionCorrida, avanzar}

module _ (x : Externo) where
  -- The text of a run's manifest on disk.
  abbrev pub en_disco_de : Mundo x → String → Option String
  en_disco_de w j = w.disco.ficheros (manifiesto j)

  -- The disk holds the manifest.
  abbrev pub EsCoherente : Mundo x → ManifiestoCorrida → Type 0
  EsCoherente w m = en_disco_de w m.run_id ≡ some (x.codec.dump m)

  abbrev pub checkpoint_de : Result ReanudacionError String → Option String
  checkpoint_de (ok r) = some r
  checkpoint_de (err e) = none

  -- What an operation that returned has done: an allowed move of the state, the reference that the
  -- backend gave and the count of trials, nothing else of the session; and the disk holds it.
  pub record Avance (antes despues : SesionCorrida x) (n : ℕ) (w w' : Mundo x) : Type 0 where
    pub paso : Paso antes.manifiesto.estado despues.manifiesto.estado
    pub solo_avance : despues ≡ record antes {
      manifiesto = record antes.manifiesto {
        estado = despues.manifiesto.estado;
        backend_checkpoint = checkpoint_de (x.persistir antes.handle w.motor).0;
        n_trials_finalizados = n;
      };
    }
    pub coherente : EsCoherente w' despues.manifiesto
    pub disco_final :
        (j : String)
        → en_disco_de w' j ≡ (
            if antes.manifiesto.run_id == j
            then some (x.codec.dump despues.manifiesto)
            else en_disco_de w j)

  module _ (objetivo : EstadoCorrida) (ses : SesionCorrida x) (n : ℕ) (w w' : Mundo x) where
    abbrev Devuelve : SesionCorrida x → Type 0
    Devuelve ses' = avanzar x objetivo ses n w ≡ (ok ses', w')

    pub avanzar_estado :
        (ses' : SesionCorrida x)
        → Devuelve ses'
        → transicionar ses.manifiesto.estado objetivo ≡ ok ses'.manifiesto.estado
    unfolding avanzar guardar
    avanzar_estado ses' h = ground arith

    avanzar_sesion :
        (ses' : SesionCorrida x)
        → Devuelve ses'
        → ses' ≡ record ses {
          manifiesto = record ses.manifiesto {
            estado = ses'.manifiesto.estado;
            backend_checkpoint = checkpoint_de (x.persistir ses.handle w.motor).0;
            n_trials_finalizados = n;
          };
        }
    unfolding avanzar guardar
    avanzar_sesion ses' h = ground arith

    avanzar_escrito : (ses' : SesionCorrida x) → Devuelve ses' → EsCoherente w' ses'.manifiesto
    unfolding avanzar guardar
    avanzar_escrito ses' h = ground (arith, eq_iff ses.manifiesto.run_id ses.manifiesto.run_id)

    avanzar_disco :
        (ses' : SesionCorrida x) (j : String)
        → Devuelve ses'
        → en_disco_de w' j ≡ (
            if ses.manifiesto.run_id == j
            then some (x.codec.dump ses'.manifiesto)
            else en_disco_de w j)
    unfolding avanzar guardar
    avanzar_disco ses' j h =
        ground (
          arith,
          eq_iff ses.manifiesto.run_id j,
          eq_iff ses.manifiesto.run_id ses.manifiesto.run_id,
        )

    -- An operation that returned made an allowed move and put the new manifest on disk, and it
    -- changed no other field of the session and no other run's manifest.
    pub avanzar-Avance : (ses' : SesionCorrida x) → Devuelve ses' → Avance ses ses' n w w'
    avanzar-Avance ses' h = record {
      paso = (Paso_of_transicionar ses.manifiesto.estado objetivo (avanzar_estado ses' h)).1;
      solo_avance = avanzar_sesion ses' h;
      coherente = avanzar_escrito ses' h;
      disco_final = λ j. avanzar_disco ses' j h;
    }

    -- An operation that raises leaves every manifest on disk as it was.
    pub avanzar_raises :
        (e : ReanudacionError) (j : String)
        → avanzar x objetivo ses n w ≡ (err e, w')
        → en_disco_de w' j ≡ en_disco_de w j
    unfolding avanzar guardar
    avanzar_raises e j h = ground arith
