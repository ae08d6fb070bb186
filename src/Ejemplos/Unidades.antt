-- ===== src/Ejemplos/Unidades.antt =====
-- Three units on two processes, of which one dies and one is refused by what stores its result.
use pred_engine.Prelude.{
  ℕ, zero, suc, String, ◌≡◌, refl, true, Option, none, some, List, [], ◌∷◌, map, arith, nat_beq,
  ◌+◌, length, ◌≤◌, ◌<◌,
}
use pred_engine.Prelude.Int.{pos}
use pred_engine.Prelude.Result.{Result, ok, err, Pares, raise_if}
use pred_engine.Paralelo.Codigos.{Excepcion, simple, con_causa, codigo_de}
use pred_engine.Paralelo.Conocidos.{es_conocido, codigo_de-conocido}
use pred_engine.Paralelo.Unidades.{EtiquetaUnidad, Proceso, Trabajo}
use pred_engine.Paralelo.Pool.{
  Destino, vive, muere, Maquina, Entrega, Iterador, cancelar, enviar, proximo, etiqueta_de,
  ejecutar_unidades,
}
use pred_engine.Paralelo.Orden.{iterador}
use pred_engine.Paralelo.EnVuelo.{inicio, toma, Restan, enviadas_acotadas}
use pred_engine.Paralelo.Equivalencia.{vista, paralelo-eq-secuencial}
use pred_engine.Paralelo.Anuncio.{Anuncio, Vigilado, ejecutar_unidades-Anuncio}

abbrev sin_memoria : Excepcion
sin_memoria =
    simple (record { modulo = "concurrent.futures.process"; nombre = "BrokenProcessPool" } ∷ [])
      "un proceso murio"

abbrev serie_corta : Excepcion
serie_corta =
    simple
      (record {
        modulo = "pred_engine.comun.modelos.modelos_machine_learning.errores";
        nombre = "SerieCortaError";
      }
        ∷ [])
      "serie corta"

abbrev envuelta : Excepcion
envuelta =
    con_causa (record { modulo = "pred_engine.pipeline"; nombre = "PipelineExecutionError" } ∷ [])
      "fallo L3" (some "L3") serie_corta

abbrev ajustar : ℕ → Result Excepcion (Option ℕ)
ajustar zero = err serie_corta
ajustar n = ok (some n)

abbrev anotar : ℕ → Result Excepcion (Unit {0})
anotar n = raise_if (nat_beq n 2) sin_memoria

abbrev trabajo : Trabajo
trabajo = record {
  Tiempo = ℕ;
  Tarea = ℕ;
  R = ℕ;
  funcion = ajustar;
  al_completar = some (λ t r. anotar t);
  progreso = some "progreso.jsonl";
  describir_error = λ e. "error";
  carga = λ m n. true;
  escribe = λ e. true;
}

abbrev proceso : ℕ → Proceso ℕ
proceso i = record { pid = 100; started_at = i; inicio = i; fin = i; cpu_s = 1 }

abbrev tercero_muere : ℕ → Destino ℕ
tercero_muere (suc (suc zero)) = muere (proceso 2) 1 sin_memoria
tercero_muere i = vive (proceso i)

abbrev maquina : Maquina ℕ
maquina = record { proceso = proceso; destino = λ i. vive (proceso i); envio = 0; ahora = λ i. i }

abbrev lenta : Maquina ℕ
lenta = record {
  proceso = λ i. proceso (3 + i);
  destino = λ i. vive (proceso (7 + i));
  envio = 9;
  ahora = λ i. i;
}

abbrev rota : Maquina ℕ
rota = record maquina { destino = tercero_muere }

abbrev etiqueta : String → EtiquetaUnidad
etiqueta sku = record { etapa = "L2"; sku_id = sku; family = "classical"; model = "ets" }

abbrev etiquetas : List EtiquetaUnidad
etiquetas = etiqueta "a" ∷ etiqueta "b" ∷ etiqueta "c" ∷ []

abbrev tareas : List ℕ
tareas = 5 ∷ 0 ∷ 2 ∷ []

abbrev vigilado : Vigilado trabajo
vigilado = record {
  guardar = λ t r. anotar t;
  guarda = refl;
  ruta = "progreso.jsonl";
  anuncia = refl;
  escribe = λ e. refl;
}

paralelo-eq-secuencial_example :
    (ds : List (Entrega trabajo maquina (some etiquetas))) × (es : List
      (Entrega trabajo lenta (some etiquetas)))
    × (ejecutar_unidades trabajo maquina (some etiquetas) (pos 2) tareas ≡ ok ds)
    × (ejecutar_unidades trabajo lenta (some etiquetas) (pos 1) tareas ≡ ok es)
    × (map (λ d. vista trabajo d.0) ds ≡ map (λ e. vista trabajo e.0) es)
paralelo-eq-secuencial_example =
    paralelo-eq-secuencial trabajo (some etiquetas) maquina lenta 1 0 tareas refl (λ t r s h. refl)
      (λ i. (proceso i, refl)) (λ i. (proceso (7 + i), refl))

ejecutar_unidades-Anuncio_example :
    (ds : List (Entrega trabajo rota (some etiquetas))) × (ejecutar_unidades trabajo rota
        (some etiquetas)
        (pos 2)
        tareas
      ≡ ok ds)
    × Pares (λ e d. Anuncio trabajo e d.0 d.1) etiquetas ds
ejecutar_unidades-Anuncio_example =
    ejecutar_unidades-Anuncio trabajo rota vigilado etiquetas 1 tareas refl

abbrev tras_una : Iterador trabajo maquina none
tras_una = iterador trabajo maquina none ((1, 0) ∷ []) ((2, 2) ∷ [])

abbrev llena : Iterador trabajo maquina none
llena = iterador trabajo maquina none ((1, 0) ∷ (2, 2) ∷ []) []

enviadas_acotadas_example :
    (length (cancelar trabajo maquina none llena) ≤ 2)
    × (length (cancelar trabajo maquina none tras_una) < 2)
    × Restan trabajo maquina none 1 tareas tras_una
    × Restan trabajo maquina none 1 tareas llena
unfolding enviar proximo etiqueta_de
enviadas_acotadas_example =
    enviadas_acotadas trabajo maquina none 2 tareas (omega arith) (refl, (refl, (refl, tt)))
      (toma inicio refl) refl

codigo_de-conocido_example : es_conocido (codigo_de (λ m n. true) envuelta (some "L2")) ≡ true
codigo_de-conocido_example = codigo_de-conocido (λ m n. true) envuelta (some "L2")
