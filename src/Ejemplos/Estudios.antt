-- ===== src/Ejemplos/Estudios.antt =====
-- A study of two trials, each over three windows, with a session on a disk that takes every write.
use pred_engine.Prelude.{suc, ◌+◌, ◌*◌, refl, true, false, none, some, [], ◌∷◌, arith}
use pred_engine.Prelude.Result.{ok}
use pred_engine.Reanudacion.Controlador.{Mundo, SesionCorrida}
use pred_engine.Reanudacion.Almacen.{bien}
use pred_engine.Hpo.Estudio.{Entorno, Marcha, bucle, ejecutar_estudio}
use pred_engine.Hpo.Desenlace.{Desenlace, ejecutar_estudio-Desenlace}
use pred_engine.Ejemplos.Manifiestos.{externo, con_avance, unario}
use pred_engine.Ejemplos.Ventanas.{np, modelos, ajustes, serie, ventanas}
use pred_engine.Ejemplos.Espacios.{plataforma, trials, espacio}

abbrev entorno : Entorno externo
entorno = record {
  plataforma = plataforma;
  trials = trials;
  np = np;
  modelos = modelos;
  espacio_busqueda = espacio;
  como_dict = λ c. 0;
  serie = serie;
  ventanas = ventanas;
  reglas = record { min_ventanas = 2; factor_reduccion = 2; habilitar_poda_semantica = true };
  n_trials = 2;
  ajustes = λ t. ajustes;
  trial_id = λ i. "trial";
  ask = λ t m. (ok m, suc m);
  tell_fallido = λ t m. (ok tt, m);
  juicio = λ t m. record { tol = 0; menos_tol = 0; should_prune = λ e. false };
  avisar = λ t es m. (ok tt, suc m);
}

abbrev sesion : SesionCorrida externo
sesion = record { manifiesto = con_avance 1 0 (1, unario 1 ""); handle = 0 }

abbrev mundo : Mundo externo
mundo = record {
  disco = record { ficheros = λ r. none; sucesos = bien ∷ bien ∷ bien ∷ bien ∷ bien ∷ bien ∷ [] };
  motor = 1;
}

abbrev marcha : Marcha externo entorno
marcha = record {
  mundo = mundo;
  sesion = some sesion;
  indice_trial = 0;
  intentos_invalidos = 0;
  mejor_completo = none;
}

ejecutar_estudio-Desenlace_example :
    Desenlace externo entorno
      (bucle externo entorno (suc (2 * (2 * 20 + 2) + 2 * 20)) marcha)
      (ejecutar_estudio externo entorno (suc (2 * (2 * 20 + 2) + 2 * 20)) marcha)
ejecutar_estudio-Desenlace_example =
    ejecutar_estudio-Desenlace externo entorno marcha sesion 2 refl (omega arith) refl
