-- ===== src/Ejemplos/Ventanas.antt =====
-- Windows of a series of ten observations, and a model that always predicts 1.
use pred_engine.Prelude.{
  ℕ, ◌+◌, ◌-◌, ◌*◌, ◌/◌, ◌≡◌, ◌≢◌, refl, true, false, none, List, [], ◌∷◌, length, replicate, ltb,
  leb, nat_beq, Todos, arith,
}
use pred_engine.Prelude.Int.{pos}
use pred_engine.Prelude.Sorted.{sorted}
use pred_engine.Prelude.Result.{Result, ok, ◌>>=◌}
use pred_engine.WalkForward.Ventanas.{
  VentanaTemporal, EvaluacionError, generar_ventanas, ventana_temporal, recorrer_ventanas,
}
use pred_engine.WalkForward.Numeros.{Numpy}
use pred_engine.WalkForward.Metricas.{media_recortada, valor_agregado_de, ResultadoVentana}
use pred_engine.WalkForward.Ejecucion.{Modelos, Ajustes}
use pred_engine.WalkForward.Recorridos.{
  ResultadoWalkForward, EjecutorGreedy, nuevo, cerrar, resultado, evaluar_ventanas,
}
use pred_engine.WalkForward.Causalidad.{
  ventanas_desde, generar_ventanas_lem, EsCausal, generar_ventanas-EsCausal,
}
use pred_engine.WalkForward.Equivalencia.{recorrer_greedy, greedy-eq-integro}

generar_ventanas_lem_example : generar_ventanas 10 4 2 2 ≡ ok (ventanas_desde 3 2 2 0 4)
generar_ventanas_lem_example =
    generar_ventanas_lem 10 4 2 2 (omega arith) (omega arith) (omega arith) (omega arith)

abbrev pub ventanas : List VentanaTemporal
ventanas = ventanas_desde 3 2 2 0 4

se_generan : generar_ventanas 10 4 2 2 ≡ ok ventanas
unfolding generar_ventanas recorrer_ventanas ventana_temporal
se_generan = refl

generar_ventanas-EsCausal_example : Todos (EsCausal 10 2) ventanas
generar_ventanas-EsCausal_example = generar_ventanas-EsCausal 10 4 2 2 ventanas se_generan

abbrev suma : List ℕ → ℕ
suma [] = 0
suma (x ∷ xs) = x + suma xs

abbrev pares : List ℕ → List ℕ → Result EvaluacionError (List (ℕ × ℕ))
pares [] bs = ok []
pares (a ∷ xs) [] = ok []
pares (a ∷ xs) (b ∷ bs) = pares xs bs >>= λ r. ok ((a, b) ∷ r)

-- Numbers below a million are finite.
abbrev pub np : Numpy
np = record {
  F = ℕ;
  inf = 1000000;
  nan = 1000001;
  cero = 0;
  medio = 1;
  cien = 100;
  lt = ltb;
  le = leb;
  eq = nat_beq;
  isfinite = λ x. ltb x 1000000;
  sumar = λ a b. a + b;
  restar = λ a b. a - b;
  multiplicar = λ a b. a * b;
  dividir = λ a b. a / b;
  absoluto = λ a. a;
  sqrt = λ a. a;
  mean = λ xs. suma xs / length xs;
  median = λ xs. suma xs / length xs;
  sort = sorted ltb;
  parte = λ n p. n * p / 10;
  emparejar = pares;
}

abbrev pub modelos : Modelos np
modelos = record {
  Configuracion = ℕ;
  Modelo = List ℕ;
  fabrica = λ c s. ok [];
  fit = λ m y. ok y;
  predict = λ m h. ok (replicate h 1);
  blake2b = λ s t i. i;
  describir = λ e. "fallo";
}

abbrev pub ajustes : Ajustes np
ajustes = record {
  metrica_objetivo = "mae";
  estacionalidad = 1;
  agregacion = media_recortada;
  proporcion_recorte = 0;
  seed = pos 1;
  tolerar_fallos = true;
  identificador = "A";
}

abbrev pub serie : List ℕ
serie = 1 ∷ 2 ∷ 3 ∷ 4 ∷ 5 ∷ 6 ∷ 7 ∷ 8 ∷ 9 ∷ 10 ∷ []

hay_ventanas : ventanas ≢ []
hay_ventanas e = cc e

greedy-eq-integro_example :
    recorrer_greedy np modelos ajustes serie 0 4 (nuevo np modelos ajustes serie 0 ventanas)
    ≡ evaluar_ventanas np modelos ajustes serie 0 ventanas
greedy-eq-integro_example = greedy-eq-integro np modelos ajustes serie 0 refl ventanas hay_ventanas

abbrev ejecutor : EjecutorGreedy np
ejecutor = nuevo np modelos ajustes serie 0 ventanas

-- No window was evaluated: the aggregate is infinite.
abbrev parcial : ResultadoWalkForward np
parcial = record {
  ventanas = [];
  metrica_objetivo = "mae";
  valor_agregado = 1000000;
  completo = false;
  n_ventanas_evaluadas = 0;
  n_ventanas_totales = 3;
}

da_parcial :
    resultado np modelos ajustes serie 0 (cerrar np modelos ajustes serie 0 "asha" ejecutor)
    ≡ ok parcial
unfolding resultado cerrar valor_agregado_de
da_parcial = refl

abbrev evaluada : ResultadoVentana np
evaluada = record {
  ventana = record { indice = 0; inicio_train = 0; fin_train = 4; inicio_val = 4; fin_val = 6 };
  metricas = record { mae = 3; rmse = 4; smape = 5; mase = 6 };
  y_train = 1 ∷ 2 ∷ 3 ∷ 4 ∷ [];
  y_real = 5 ∷ 6 ∷ [];
  y_pred = 1 ∷ 1 ∷ [];
  fallo = none;
}
