-- ===== src/Ejemplos/Evidencias.antt =====
-- A run of M3 with one product: what is registered, forecast, evaluated and published.

use pred_engine.Prelude.{
  ℕ, true, false, none, some, List, [], ◌∷◌, string_eq, nat_eq, nat_beq, ltb, leb,
}
use pred_engine.Enrutador.Contratos.{smooth}
use pred_engine.Candidatos.Contratos.{HandoffValidado}
use pred_engine.Veredictos.Contratos.{
  Flotantes, MetricasCandidato, EvaluacionSku, EvaluacionBloques, SeleccionCategoria, menor_mediana,
}
use pred_engine.Veredictos.Veredicto.{VeredictoSku, exploratorio}
use pred_engine.Evidencia.Contratos.{Externo, IdentidadCorrida, SerieCandidato}
use pred_engine.Evidencia.Registro.{Origen, valido, lote_rechazado}
use pred_engine.Evidencia.Unidades.{Traza}
use pred_engine.Evidencia.Protocolo.{Peticion}
use pred_engine.Evidencia.Evaluacion.{ResultadoEvaluacion, Demanda}
use pred_engine.Evidencia.Publicacion.{Exportador}
use pred_engine.Evidencia.Ordenes.{Orden, registra, guarda, fija, marca, evalua, publica}

abbrev pub flotantes : Flotantes
flotantes = record {
  F = ℕ;
  uno = 1;
  lt = ltb;
  ge = λ a b. leb b a;
  eq = nat_beq;
  restar = λ a b. a;
  median = λ xs. 0;
}

abbrev pub externo : Externo
externo = record {
  fl = flotantes;
  O = ℕ;
  Fraccion = ℕ;
  sku_de = λ c. "s1";
  finito = λ v. true;
  infinito = λ v. false;
  nan = 0;
  canonica = λ i. i.configuracion_id;
  digest = λ t. t;
  versiones_de = λ t. ("p1", "m1");
  horizonte_de = λ t. some 2;
  es_elegibilidad = λ t. true;
  json_fallo = λ f. f.mensaje;
}

abbrev pub exportador : Exportador externo
exportador b r t = (t, t)

abbrev pub identidad : IdentidadCorrida
identidad = record {
  ingesta_ref_m1 = "parquet";
  configuracion_id = "c1";
  codigo_version = "v1";
  t_corte_reserva = 10;
  version_politica = "p1";
  version_metricas = "m1";
}

abbrev pub handoff : HandoffValidado ℕ ℕ ℕ
handoff = record {
  contexto = record { ingesta_ref_m1 = "parquet"; t_corte_reserva = 10; fraccion_reserva = 2 };
  run_id_m2 = "m2";
  candidatos = record { familia = "classical"; volcado = [] } ∷ [];
  fallos = [];
}

abbrev pub origen : Origen
origen = record {
  ingesta_sha256 = "sha";
  datos_sinteticos = some false;
  run_id_m2 = some "m2";
  skus_fallidos = [];
}

abbrev pub peticion : Peticion
peticion = record {
  protocolo = record {
    run_id = "m3-c1";
    protocolo = "{}";
    manifiesto = "{}";
    procedencia = "{}";
    reserva_abierta_en = "hoy";
    n_unidades_previstas = 1;
  };
  t_star = 10;
  lanzamientos_tardios = [];
  exclusiones = [];
}

abbrev pub serie : ℕ → SerieCandidato ℕ
serie v = record {
  candidato_id = "base";
  familia = "seasonal_naive";
  modelo = "seasonal_naive";
  pronosticos = record { origen = 10; fechas = 11 ∷ 12 ∷ []; valores = v ∷ v ∷ [] } ∷ [];
}

abbrev pub traza : Traza
traza = record { codigo_version = some "v1"; semilla = some 7; emitido_en = some "hoy" }

abbrev pub linea_base : MetricasCandidato flotantes
linea_base = record {
  candidato_id = "base";
  familia = "seasonal_naive";
  modelo = "seasonal_naive";
  agregadas = none;
  por_ventana = [];
  n_ventanas_totales = 1;
  n_ventanas_validas = 1;
  n_pronosticos_validos = 1;
}

abbrev pub evaluacion_sku : EvaluacionSku flotantes
evaluacion_sku = record {
  sku = "s1";
  sku_class = smooth;
  linea_base = linea_base;
  candidatos = [];
  n_obs_validas_reserva = 2;
  reserva_toda_cero = false;
  n_candidatos_fallidos = 0;
}

abbrev pub evaluacion : EvaluacionBloques flotantes
evaluacion = record {
  reserva = evaluacion_sku;
  seleccion = evaluacion_sku;
  prueba = evaluacion_sku;
}

abbrev pub categoria : SeleccionCategoria ℕ
categoria = record {
  sku_class = smooth;
  familia_campeona = "seasonal_naive";
  medianas_r = [];
  adverso = false;
  motivo = menor_mediana;
  skus_comparables = [];
  excluidos = [];
  familias_excluidas = [];
}

abbrev pub veredicto : VeredictoSku flotantes
veredicto = record {
  sku = "s1";
  sku_class = smooth;
  veredicto = exploratorio;
  familia_campeona = "seasonal_naive";
  candidato_campeon = some "base";
  n_ventanas = 1;
  razon_sn = none;
  pierde_frente_a_linea_base = none;
  comparacion_incompleta = false;
  metricas_campeon = none;
  metricas_linea_base = none;
  fallback_desde = none;
  modelos_evaluados = [];
}

abbrev pub resultado : ResultadoEvaluacion externo
resultado = record {
  version_politica = "p1";
  version_metricas = "m1";
  datos_sinteticos = some false;
  categorias = categoria ∷ [];
  skus = veredicto ∷ [];
}

abbrev pub demanda : Demanda externo
demanda = ("s1", (11, 5) ∷ (12, 6) ∷ []) ∷ []

-- Up to the first forecast, and all.
abbrev pub primeras : List (Orden externo exportador)
primeras = registra identidad (valido handoff) origen ∷ fija peticion ∷ []

abbrev pub todas : List (Orden externo exportador)
todas =
    registra identidad (valido handoff) origen
    ∷ fija peticion
    ∷ guarda "m3-c1" "s1" (serie 4) traza []
    ∷ marca "m3-c1"
    ∷ evalua "m3-c1" (evaluacion ∷ []) resultado demanda
    ∷ publica "m3-c1" (record { exporta = true; reemplaza = true }) none
    ∷ []

-- What comes after: new values, a rejected batch, and the first registration again.
abbrev pub tardias : List (Orden externo exportador)
tardias =
    guarda "m3-c1" "s1" (serie 9) traza []
    ∷ registra identidad (lote_rechazado "contexto_incompatible" "") origen
    ∷ registra identidad (valido handoff) origen
    ∷ []
