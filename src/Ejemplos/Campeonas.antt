-- ===== src/Ejemplos/Campeonas.antt =====
-- A reserve of twenty days cut in half, and one product with one family; floats are hundredths.
use pred_engine.Prelude.{
  ℕ, zero, suc, ◌+◌, ◌-◌, ◌/◌, ◌<◌, ◌≤◌, ◌≡◌, refl, ◌⊎◌, ◌↔◌, String, true, false, none, some, List,
  [], ◌∷◌, get_elem?, ltb, leb, nat_beq, arith, ap,
}
use pred_engine.Prelude.Result.{ok}
use pred_engine.Prelude.Sorted.{sorted, insertar, filter, minimo, str_lt}
use pred_engine.Enrutador.Contratos.{smooth}
use pred_engine.Veredictos.Bloques.{
  prueba, Calendario, LeyesCalendario, BloquesReserva, bloques_reserva, bloque, origenes, dias,
}
use pred_engine.Veredictos.Particion.{origenes_iff, origenes-dias}
use pred_engine.Veredictos.Contratos.{
  Flotantes, Metricas, MetricasCandidato, EvaluacionSku, EvaluacionBloques, PoliticaSeleccion,
  SeleccionCategoria, menor_mediana, familia_linea_base,
}
use pred_engine.Veredictos.Seleccion.{
  seleccionar_categoria, elegir, recoger, poner, buscar, por_familia, representante,
}
use pred_engine.Hpo.Ordenados.{OrdenDebil}
use pred_engine.Veredictos.Empates.{EsAdversa, EsMejor}
use pred_engine.Veredictos.Campeona.{EsCompetidora, EsIncomparable, seleccionar_categoria-EsMejor}
use pred_engine.Veredictos.Veredicto.{
  VeredictoSku, validado, veredicto_sku, veredicto_de, instancia, familia_juzgada,
}
use pred_engine.Veredictos.Sustento.{veredicto_sku-validado}

abbrev seguidos : ℕ → ℕ → List ℕ
seguidos inicio zero = []
seguidos inicio (suc n) = inicio ∷ seguidos (suc inicio) n

-- One fraction, one half.
abbrev mitades : Calendario ℕ
mitades = record { date_range = seguidos; es_fraccion = λ f. nat_beq f 50; parte = λ f d. d / 2 }

seguidos-dentro : (inicio n i : ℕ) → i < n → get_elem? (seguidos inicio n) i ≡ some (inicio + i)
seguidos-dentro inicio zero i h = absurd (omega arith)
seguidos-dentro inicio (suc n) zero h = ap some (omega arith)
seguidos-dentro inicio (suc n) (suc i) h =
    ground (arith, seguidos-dentro (suc inicio) n i (omega arith))

seguidos-fuera : (inicio n i : ℕ) → n ≤ i → get_elem? (seguidos inicio n) i ≡ none
seguidos-fuera inicio zero i h = refl
seguidos-fuera inicio (suc n) zero h = absurd (omega arith)
seguidos-fuera inicio (suc n) (suc i) h = seguidos-fuera (suc inicio) n i (omega arith)

leyes_mitades : LeyesCalendario mitades
leyes_mitades = record {
  dia = seguidos-dentro;
  fuera = seguidos-fuera;
  menos = λ f d h. omega arith;
}

abbrev reserva : BloquesReserva ℕ
reserva = record { t_star = 100; dias_reserva = 20; horizonte = 3; fraccion_seleccion = 50 }

se_reserva : bloques_reserva mitades 100 20 3 50 ≡ ok reserva
unfolding bloques_reserva
se_reserva = refl

origenes_iff_example :
    (bloque mitades reserva 112 ≡ prueba)
    ↔ ((i : ℕ) × (get_elem? (origenes mitades reserva prueba) i ≡ some 112))
origenes_iff_example =
    origenes_iff mitades leyes_mitades 100 20 3 50 reserva prueba 112 se_reserva (omega arith)
      (omega arith)

es_origen : get_elem? (origenes mitades reserva prueba) 2 ≡ some 112
unfolding origenes
es_origen = refl

origenes-dias_example : (k : ℕ) × (get_elem? (dias mitades reserva false) k ≡ some 114)
origenes-dias_example =
    origenes-dias mitades leyes_mitades 100 20 3 50 reserva false 2 112 2 se_reserva es_origen
      (omega arith) (omega arith)

es_dia_seleccion : get_elem? (dias mitades reserva true) 9 ≡ some 110
unfolding dias
es_dia_seleccion = refl

es_dia_prueba : get_elem? (dias mitades reserva false) 0 ≡ some 111
unfolding dias
es_dia_prueba = refl

abbrev primero : List ℕ → ℕ
primero [] = 0
primero (x ∷ xs) = x

abbrev centesimas : Flotantes
centesimas = record {
  F = ℕ;
  uno = 100;
  lt = ltb;
  ge = λ a b. leb b a;
  eq = nat_beq;
  restar = λ a b. a - b;
  median = primero;
}

abbrev metricas : ℕ → Metricas centesimas
metricas r = record { n_pares = 3; mae = 1; rmse = 2; me = 0; mase = none; razon_sn = some r }

abbrev candidato : String → ℕ → MetricasCandidato centesimas
candidato familia r = record {
  candidato_id = familia;
  familia = familia;
  modelo = "m";
  agregadas = some (metricas r);
  por_ventana = record { origen = 1; metricas = metricas r } ∷ [];
  n_ventanas_totales = 1;
  n_ventanas_validas = 1;
  n_pronosticos_validos = 1;
}

abbrev evaluacion : EvaluacionSku centesimas
evaluacion = record {
  sku = "A";
  sku_class = smooth;
  linea_base = candidato familia_linea_base 100;
  candidatos = candidato "ml" 80 ∷ [];
  n_obs_validas_reserva = 3;
  reserva_toda_cero = false;
  n_candidatos_fallidos = 0;
}

abbrev politica : PoliticaSeleccion centesimas
politica = record {
  n_min = 1;
  tolerancia_empate = 1;
  orden_simplicidad = "classical" ∷ "ml" ∷ [];
  familias_elegibles = λ c. "classical" ∷ "ml" ∷ [];
}

abbrev seleccionada : SeleccionCategoria ℕ
seleccionada = record {
  sku_class = smooth;
  familia_campeona = "ml";
  medianas_r = ("ml", 80) ∷ [];
  adverso = false;
  motivo = menor_mediana;
  skus_comparables = "A" ∷ [];
  excluidos = [];
  familias_excluidas = ("classical", "no_entregada") ∷ [];
}

se_selecciona : seleccionar_categoria centesimas smooth (evaluacion ∷ []) politica ≡ ok seleccionada
unfolding seleccionar_categoria elegir recoger poner buscar por_familia representante sorted
    insertar filter minimo str_lt
se_selecciona = refl

orden_centesimas : OrdenDebil ltb
orden_centesimas = record { asim = λ a b h. ground arith; negtrans = λ a b c h k. ground arith }

seleccionar_categoria-EsMejor_example :
    EsIncomparable centesimas smooth (evaluacion ∷ []) politica seleccionada
    ⊎ (EsAdversa centesimas seleccionada
        ⊎ (EsMejor centesimas politica seleccionada
            × EsCompetidora centesimas smooth (evaluacion ∷ []) politica "ml"))
seleccionar_categoria-EsMejor_example =
    seleccionar_categoria-EsMejor centesimas orden_centesimas smooth (evaluacion ∷ []) politica
      seleccionada se_selecciona

abbrev bloques : EvaluacionBloques centesimas
bloques = record { reserva = evaluacion; seleccion = evaluacion; prueba = evaluacion }

abbrev veredicto : VeredictoSku centesimas
veredicto = record {
  sku = "A";
  sku_class = smooth;
  veredicto = validado;
  familia_campeona = "ml";
  candidato_campeon = some "ml";
  n_ventanas = 1;
  razon_sn = some 80;
  pierde_frente_a_linea_base = some false;
  comparacion_incompleta = false;
  metricas_campeon = some (metricas 80);
  metricas_linea_base = some (metricas 100);
  fallback_desde = none;
  modelos_evaluados =
      record {
        candidato_id = familia_linea_base;
        familia = familia_linea_base;
        modelo = "m";
        razon_sn = some 100;
      }
      ∷ (record { candidato_id = "ml"; familia = "ml"; modelo = "m"; razon_sn = some 80 } ∷ []);
}

se_valida : veredicto_sku centesimas bloques seleccionada politica (some false) ≡ ok veredicto
unfolding veredicto_sku veredicto_de instancia familia_juzgada representante filter minimo sorted
    insertar
se_valida = refl

veredicto_sku-validado_example :
    (some false ≡ some false)
    × (0 < 3)
    × (false ≡ false)
    × (1 ≤ 1)
    × (false ≡ false)
    × ((r : ℕ) × (some 80 ≡ some r) × (ltb r 100 ≡ true))
veredicto_sku-validado_example =
    veredicto_sku-validado centesimas bloques seleccionada politica (some false) veredicto se_valida
      refl

abbrev sin_campeona : SeleccionCategoria ℕ
sin_campeona = record seleccionada { familia_campeona = "classical" }
