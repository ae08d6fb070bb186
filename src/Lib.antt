-- ===== src/Lib.antt =====
-- pred-engine forecasts the demand of many products (SKU). Ingestion (M1) classifies each product by
-- its demand; optimization (M2) routes it to families of models, tunes each family by walk-forward
-- validation with pruning of trials, and writes the winners; forecasting (M3) evaluates the winners
-- on days that were reserved, picks a champion per category and gives each product a verdict. Long
-- runs are kept in manifests on disk, from which a run that died goes on. This library models the
-- rules on which those results rest.
--
-- Prelude: Python's functions that return or raise (Result), methods that change an object and may
-- raise (Exec), lists, tests, `sorted`, `min` and the order of text (Sorted).
--
-- Reanudacion: src/pred_engine/optimizacion/control_reanudacion. Contratos and Transiciones have the
-- records and the state machine of contratos.py, errores.py and transiciones.py; Huella has the
-- fingerprint of huella.py; Almacen has almacenamiento.py on a disk that answers each operation on a
-- file from a list, so that any write may fail, also halfway; Controlador has `abrir`, `checkpoint`,
-- `interrumpir`, `completar` and `fallar`. Pydantic, JSON, SHA-256 and the backend of the HPO are
-- parameters (`Externo`); `LeyesCodec` says that a manifest that was printed is read back.
-- Ciclo runs any sequence of calls, of which any may raise; Retorno says when a run opens again.
--
-- Enrutador: src/pred_engine/optimizacion/router. Contratos, Politica, Registro, Router and Manifiesto
-- have contratos.py and errores.py, politica.py, registro.py, enrutador.py and manifiesto.py. A
-- strategy is the function that it runs, or an object that does not satisfy the protocol.
-- `execute_with_walk_forward` is `ejecutar`. The validators that Pydantic runs on a request are left
-- out, and so is the schema of the manifest (comun/modelos/manifiesto_candidatos.py but for the
-- context, the envelope and three names). Entrega follows a product from `route` to the manifest.
--
-- WalkForward: src/pred_engine/comun/walkforward. Ventanas has ventanas.py and the window of
-- comun/dataclasses/validacion_temporal.py; Metricas has metricas.py; Ejecucion has _ejecucion.py and
-- semillas.py; Recorridos has walk_forward.py, and walk_forward_greedy.py with its generator as an
-- explicit state. Floats, NumPy, the models and BLAKE2b are parameters (`Numpy`, `Modelos`). The
-- clock readings, the log and the field `ajustes` are left out. The loop of `generar_ventanas` has
-- fuel `n + 1` for `n` observations: each turn adds at least 1 to the end of the training.
--
-- Hpo: src/pred_engine/optimizacion/optimizadores/HPO/asha.py, with the rules of poda.py.
-- Escalones is about the loop of `_calcular_escalones`, which has fuel `total + 1`: with a factor of
-- at least 2 each turn adds at least 1. Ordenados has what `sorted` guarantees for an order without
-- NaN. Trial has `_correr_trial` of estudio.py, with what ends a trial, over the greedy executor, and
-- `es_degenerada` of poda.py; what the trial and the study are called with is a list of events, and
-- `should_prune` is a parameter that reads it. Its loop has fuel for one turn more than there are
-- windows. The texts of reasons are left out. Espacio has espacio.py but for its canonical description:
-- the checks of a space, its conditions, and sampling, which has the attempts of the source as fuel;
-- Sugerencia has `_sugerir_configuracion`, over a trial of the backend as a parameter. Estudio has the
-- loop of `ejecutar_estudio` with its `except` branches, over a session of Reanudacion.Controlador; its
-- fuel is one more than 20 n + 2 turns for each trial left and 20 n more, for `n` trials, since the loop
-- gives up when more than 20 n configurations in a row are rejected. The summary of a study, the warm
-- start and the settings that open a study are left out.
--
-- Veredictos: src/pred_engine/forecasting/evaluaciones. Bloques has calculo_errores/bloques.py with
-- days as numbers; `Calendario` stands for pandas and for the arithmetic of floats. Contratos,
-- Seleccion and Veredicto have the contracts, veredictos/seleccion.py and `_veredicto_sku` of
-- veredictos/veredictos.py. Empates has what a
-- champion is, from the medians on, and Campeona from the evaluations on. The metrics that enter are values: the pass over the forecasts of
-- calculo_errores/metricas.py, the Diebold-Mariano test, the intervals and the coverage are not
-- modelled, and neither are the texts of the justifications. `Flotantes` stands for floats.
--
-- Paralelo: src/pred_engine/comun/ejecucion_paralela.py and errores_codigo.py. Unidades runs one unit in
-- isolation, Pool has the generator over a pool of processes with its bounded queue, the sequential
-- branch, and `ejecutar_unidades`; Codigos has the table of codes. What becomes of each unit in the pool
-- is a parameter (`Destino`): it runs, or its process dies after some of its records are written, or it
-- is refused. The draining of the generator has fuel for one turn more than there are tasks. The summary
-- of parallelism, BLAS and the lock on the file of progress are left out.
--
-- Durables: src/pred_engine/unit_checkpoints.py. Codec has `_encode` and `_decode`, Unidades has
-- `save_result` and `load_result` on the disk of Reanudacion.Almacen. Exitosas says which units these
-- take for successful; the keys of mappings are texts, and a path is its text. JSON texts, SHA-256, NumPy, Pydantic
-- and the constructors of the dataclasses are parameters; a dictionary is the list of its entries in
-- the order of `sort_keys`. `fsync` is left out, so what is said of the disk is said of its files.
--
-- Candidatos: src/pred_engine/forecasting/adaptador_candidatos/validacion.py and contratos.py. Lote has
-- the checks of the batch, in the order of `_validar_lote`; Validacion has those of each candidate, and
-- `validar_manifiesto`. A candidate that pydantic validated is its family and its
-- `model_dump`; pydantic, `json.loads`, the methods of texts and `cargar_fundacional` are parameters. The
-- log and the texts of a rejected batch are left out.
--
-- Evidencia: src/pred_engine/forecasting/persistencia_evidencia. The database is a record of tables, each
-- the list of its rows (Contratos), with the keys, the triggers and the foreign keys that can refuse a
-- row. Tablas has the transaction, which is rolled back when its body raises, and the state of a run;
-- Registro has `registrar_corrida`, Unidades `guardar_unidades` and `guardar_unidades_generadas`,
-- Protocolo `fijar_protocolo`, Recuperacion `cargar_serie`, Marca `marcar_evaluada`, Evaluacion and Guardado
-- `guardar_evaluacion`, Publicacion `publicar` with the directory of the run. Efectos says what a write may
-- do; Escrituras, Altas, Congelados, Fijados and Pasos show that each operation does no more, and Ordenes
-- puts calls of the operations one after the other. Nuevas says what `guardar_unidades` writes for a new
-- candidate, Lecturas and Vuelta how these rows are read. JSON, SHA-256, floats and what pandas and pyarrow write are parameters.
-- A table of the ingestions of M1 or of the executions of the platform is not there, so its foreign keys
-- are left out. The six tables m3_cartera, m3_significancia, m3_confirmaciones, m3_comparaciones,
-- m3_seleccion_previa and m3_intervalos_r, which `guardar_evaluacion` writes too, are not modelled.
--
-- Ejemplos: concrete inputs to which the theorems are applied.
--
-- Not modelled: ingestion, augmentation, the LLM client, the models themselves,
-- the Optuna adapter, the controller and the artefacts of
-- forecasting, the pipeline and the command line. They are mostly calls of pandas, NumPy, Optuna and of the file system.
pub mod Prelude
pub mod Reanudacion
pub mod Enrutador
pub mod WalkForward
pub mod Hpo
pub mod Veredictos
pub mod Paralelo
pub mod Durables
pub mod Candidatos
pub mod Evidencia
pub mod Ejemplos
