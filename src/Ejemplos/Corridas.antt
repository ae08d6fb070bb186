-- ===== src/Ejemplos/Corridas.antt =====
-- A run that is opened, advanced on a disk that fails once, interrupted and opened again.

use pred_engine.Prelude.{
  ◌≢◌, ◌≡◌, refl, true, false, none, some, List, [], ◌∷◌, string_eq, ◌&&◌, ◌↔◌, if◌then◌else◌,
}
use pred_engine.Prelude.Result.{ok, err}
use pred_engine.Reanudacion.Contratos.{en_progreso, interrumpida, fallida, corrida_fallida}
use pred_engine.Reanudacion.Almacen.{
  bien, falla, existe, guardar, cargar, os_error, escribir_atomico, es_ok,
  ficheros-escribir_atomico, manifiesto,
}
use pred_engine.Reanudacion.Transiciones.{transicionar}
use pred_engine.Reanudacion.Compatibilidad.{verificar_compatibilidad_iff}
use pred_engine.Reanudacion.Avance.{
  Avance, EsCoherente, en_disco_de, avanzar-Avance, avanzar_raises,
}
use pred_engine.Reanudacion.Huella.{calcular_huella, verificar_compatibilidad, Coincide}
use pred_engine.Reanudacion.Controlador.{
  Mundo, SesionCorrida, abrir, crear_corrida, reabrir, reabrir_en, retomar, avanzar,
}
use pred_engine.Reanudacion.Apertura.{estado_reabierto}
use pred_engine.Reanudacion.Ciclo.{
  correr, ordenar, EnCurso, Orden, punto, interrupcion, fallo, ciclo, recuperacion,
  fallida_no_reabre,
}
use pred_engine.Reanudacion.Retorno.{Restaura, abrir_devuelve}
use pred_engine.Ejemplos.Manifiestos.{
  unario, con_avance, solicitud, plantilla, codec, externo, leyes,
}

-- Opening a run answers six times; the next write fails and leaves part of its text.
abbrev mundo : Mundo externo
mundo = record {
  disco = record {
    ficheros = λ r. none;
    sucesos = bien ∷ bien ∷ bien ∷ bien ∷ bien ∷ bien ∷ bien ∷ falla (some "u") ∷ [];
  };
  motor = 0;
}

abbrev abierto : Mundo externo
abierto = (abrir externo solicitud mundo).1

abbrev sesion : SesionCorrida externo
sesion = record { manifiesto = con_avance 1 0 (1, unario 1 ""); handle = 0 }

no_hay : existe codec "r1" mundo.disco ≡ false
unfolding existe
no_hay = refl

se_abre : abrir externo solicitud mundo ≡ (ok sesion, abierto)
unfolding abrir existe crear_corrida guardar transicionar calcular_huella
se_abre = refl

abbrev ordenes : List Orden
ordenes = punto 1 ∷ interrupcion 2 ∷ []

ciclo_example : EnCurso externo solicitud en_progreso (correr externo ordenes (sesion, abierto))
ciclo_example = ciclo externo solicitud mundo abierto sesion ordenes no_hay se_abre

abbrev interrumpido : Mundo externo
interrumpido = (correr externo ordenes (sesion, abierto)).1

abbrev retomada : SesionCorrida externo
retomada = record { manifiesto = con_avance 1 2 (1, unario 3 ""); handle = 4 }

abbrev reabierto : Mundo externo
reabierto = (abrir externo solicitud interrumpido).1

se_retoma : abrir externo solicitud interrumpido ≡ (ok retomada, reabierto)
unfolding abrir reabrir cargar reabrir_en retomar verificar_compatibilidad existe crear_corrida
    guardar transicionar calcular_huella correr ordenar avanzar
se_retoma = refl

recuperacion_example :
    (retomada.manifiesto ≡ record (correr externo ordenes (sesion, abierto)).0.manifiesto {
      estado =
          estado_reabierto externo solicitud
            (correr externo ordenes (sesion, abierto)).0.manifiesto.estado;
    })
    × EsCoherente externo reabierto retomada.manifiesto
recuperacion_example =
    recuperacion externo solicitud leyes mundo abierto sesion ordenes reabierto retomada no_hay
      se_abre se_retoma

abbrev con_fallo : List Orden
con_fallo = punto 1 ∷ fallo 1 ∷ []

abbrev fallido : Mundo externo
fallido = (correr externo con_fallo (sesion, abierto)).1

esta_fallida : (correr externo con_fallo (sesion, abierto)).0.manifiesto.estado ≡ fallida
unfolding abrir crear_corrida guardar transicionar calcular_huella correr ordenar avanzar existe
esta_fallida = refl

fallida_no_reabre_example : abrir externo solicitud fallido ≡ (err corrida_fallida, fallido)
fallida_no_reabre_example =
    fallida_no_reabre externo solicitud leyes mundo abierto sesion con_fallo no_hay se_abre
      esta_fallida

abbrev avanzado : Mundo externo
avanzado = (avanzar externo interrumpida sesion 2 abierto).1

avanzar_raises_example : en_disco_de externo avanzado "r1" ≡ en_disco_de externo abierto "r1"
unfolding abrir crear_corrida guardar transicionar calcular_huella avanzar existe
avanzar_raises_example =
    avanzar_raises externo interrumpida sesion 2 abierto avanzado os_error "r1" refl

abbrev sano : Mundo externo
sano = record abierto { disco = record abierto.disco { sucesos = [] } }

abbrev sano_avanzado : Mundo externo
sano_avanzado = (avanzar externo interrumpida sesion 2 sano).1

abbrev interrumpida_en_2 : SesionCorrida externo
interrumpida_en_2 = record { manifiesto = con_avance 2 2 (1, unario 2 ""); handle = 0 }

se_interrumpe : avanzar externo interrumpida sesion 2 sano ≡ (ok interrumpida_en_2, sano_avanzado)
unfolding abrir crear_corrida guardar transicionar calcular_huella avanzar existe
se_interrumpe = refl

avanzar-Avance_example : Avance externo sesion interrumpida_en_2 2 sano sano_avanzado
avanzar-Avance_example =
    avanzar-Avance externo interrumpida sesion 2 sano sano_avanzado interrumpida_en_2 se_interrumpe

verificar_compatibilidad_iff_example :
    (verificar_compatibilidad externo.sha256_json solicitud plantilla ≡ ok tt)
    ↔ Coincide externo.sha256_json solicitud plantilla
verificar_compatibilidad_iff_example =
    verificar_compatibilidad_iff externo.sha256_json solicitud plantilla

ficheros-escribir_atomico_example :
    (escribir_atomico "r1" "t" mundo.disco).1.ficheros (manifiesto "r1")
    ≡ (if es_ok (escribir_atomico "r1" "t" mundo.disco).0 && true then some "t" else none)
ficheros-escribir_atomico_example = ficheros-escribir_atomico "r1" "t" "r1" mundo.disco

interrumpida_a_progreso : transicionar interrumpida en_progreso ≡ ok en_progreso
unfolding transicionar
interrumpida_a_progreso = refl

ciclo_vacio : EnCurso externo solicitud en_progreso (sesion, abierto)
unfolding correr
ciclo_vacio = ciclo externo solicitud mundo abierto sesion [] no_hay se_abre

restaura : Restaura externo
restaura ref motor = refl

no_fallida : (correr externo ordenes (sesion, abierto)).0.manifiesto.estado ≢ fallida
unfolding abrir crear_corrida guardar transicionar calcular_huella correr ordenar avanzar existe
no_fallida e = cc e

disco_sano : interrumpido.disco.sucesos ≡ []
unfolding abrir crear_corrida guardar transicionar calcular_huella correr ordenar avanzar existe
disco_sano = refl

abrir_devuelve_example :
    (ses : SesionCorrida externo) × (w : Mundo externo) × (abrir externo solicitud interrumpido
      ≡ (ok ses, w))
abrir_devuelve_example =
    abrir_devuelve externo solicitud leyes mundo abierto sesion ordenes restaura no_hay se_abre
      no_fallida disco_sano
