-- ===== src/Ejemplos/Ensayos.antt =====
-- A trial over three windows that is never pruned.
use pred_engine.Prelude.{ℕ, ◌≡◌, true, false, []}
use pred_engine.WalkForward.Recorridos.{nuevo}
use pred_engine.Hpo.Asha.{ReglasPoda}
use pred_engine.Hpo.Trial.{Juicio, correr_trial}
use pred_engine.Hpo.Cierre.{AvisaUnaVez, correr_trial-AvisaUnaVez}
use pred_engine.Hpo.Terminacion.{termina, correr_trial-termina}
use pred_engine.Ejemplos.Ventanas.{np, modelos, ajustes, serie, ventanas}

abbrev reglas : ReglasPoda
reglas = record { min_ventanas = 2; factor_reduccion = 2; habilitar_poda_semantica = true }

abbrev juicio : Juicio ℕ
juicio = record { tol = 0; menos_tol = 0; should_prune = λ t. false }

correr_trial-AvisaUnaVez_example :
    AvisaUnaVez np modelos ajustes serie 0 juicio reglas 0
      (correr_trial np modelos ajustes serie 0 juicio reglas 4
        (nuevo np modelos ajustes serie 0 ventanas)
        []).0
      (correr_trial np modelos ajustes serie 0 juicio reglas 4
        (nuevo np modelos ajustes serie 0 ventanas)
        []).2
correr_trial-AvisaUnaVez_example =
    correr_trial-AvisaUnaVez np modelos ajustes serie 0 juicio reglas 4
      (nuevo np modelos ajustes serie 0 ventanas) []

correr_trial-termina_example :
    termina
      (correr_trial np modelos ajustes serie 0 juicio reglas 4
        (nuevo np modelos ajustes serie 0 ventanas)
        []).0
    ≡ true
correr_trial-termina_example =
    correr_trial-termina np modelos ajustes serie 0 juicio reglas ventanas []
