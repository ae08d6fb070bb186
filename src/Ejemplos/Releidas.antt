-- ===== src/Ejemplos/Releidas.antt =====
-- A series of two windows that is stored and read back, and rows that are refused.
use pred_engine.Prelude.{ℕ, ◌≡◌, refl, true, none, some, [], ◌∷◌, string_eq, nat_eq, arith}
use pred_engine.Prelude.Sorted.{filter, sorted, insertar}
use pred_engine.Prelude.Result.{ok, err}
use pred_engine.Evidencia.Contratos.{en_curso, inconsistente, Base, SerieCandidato}
use pred_engine.Evidencia.Unidades.{guardar_unidades, unidad_de, filas_desde}
use pred_engine.Evidencia.Recuperacion.{cargar_serie}
use pred_engine.Evidencia.Ordenes.{vacia}
use pred_engine.Evidencia.Relectura.{cargar_serie-guardar_unidades}
use pred_engine.Ejemplos.Evidencias.{flotantes, externo, peticion, traza}

abbrev doble : SerieCandidato ℕ
doble = record {
  candidato_id = "sma";
  familia = "classical";
  modelo = "sma";
  pronosticos =
      record { origen = 10; fechas = 11 ∷ 12 ∷ []; valores = 4 ∷ 5 ∷ [] }
      ∷ record { origen = 11; fechas = 12 ∷ 13 ∷ []; valores = 6 ∷ 7 ∷ [] }
      ∷ [];
}

abbrev abierta : Base flotantes
abierta = record (vacia externo) {
  corridas =
      record {
        run_id = "m3-c1";
        ingesta_sha256 = "sha";
        run_id_m2 = some "m2";
        identidad = "c1";
        datos_sinteticos = true;
        estado = en_curso;
        causa_rechazo = none;
        origen_declarado = true;
      }
      ∷ [];
  skus = ("m3-c1", "s1") ∷ [];
  protocolos = peticion.protocolo ∷ [];
}

cargar_serie-guardar_unidades_example :
    (n : ℕ) × (b' : Base flotantes) × (guardar_unidades externo "m3-c1" "s1" doble traza [] abierta
      ≡ (ok n, b'))
    × (cargar_serie externo b' "m3-c1" "s1" "sma" "classical" "sma" ≡ ok doble)
cargar_serie-guardar_unidades_example =
    cargar_serie-guardar_unidades externo "m3-c1" "s1" doble traza abierta (some 2) refl refl
      (refl, refl) refl ((omega arith, tt), (tt, tt)) ((refl, refl), ((refl, refl), tt))
      ((refl, refl), ((refl, refl), tt)) (refl, (refl, tt))

-- Half of the rows of a unit.
abbrev a_medias : Base flotantes
a_medias = record abierta {
  unidades = unidad_de externo "m3-c1" "s1" doble traza 10 none ∷ [];
  pronosticos = filas_desde externo 1 "m3-c1" "s1" "sma" 10 (11 ∷ []) (some 4 ∷ []);
}

no_se_lee_a_medias :
    cargar_serie externo a_medias "m3-c1" "s1" "sma" "classical" "sma" ≡ err inconsistente
unfolding cargar_serie filter sorted insertar
no_se_lee_a_medias = refl
