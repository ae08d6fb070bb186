-- ===== src/Reanudacion/Transiciones.antt =====
-- transiciones.py: the state machine of a run.
use pred_engine.Prelude.{◌≡◌, refl, Bool, true, false, arith, if◌then◌else◌}
use pred_engine.Prelude.Result.{Result, ok, err}
use pred_engine.Reanudacion.Contratos.{
  EstadoCorrida, nueva, en_progreso, interrumpida, completada, fallida, ReanudacionError,
  transicion_estado,
}

-- `nuevo in TRANSICIONES_PERMITIDAS[actual]`
unfoldable pub transiciones_permitidas : EstadoCorrida → EstadoCorrida → Bool
transiciones_permitidas nueva en_progreso = true
transiciones_permitidas en_progreso en_progreso = true
transiciones_permitidas en_progreso completada = true
transiciones_permitidas en_progreso fallida = true
transiciones_permitidas en_progreso interrumpida = true
transiciones_permitidas interrumpida en_progreso = true
transiciones_permitidas interrumpida fallida = true
transiciones_permitidas completada completada = true
transiciones_permitidas _ _ = false

unfoldable pub transicionar : EstadoCorrida → EstadoCorrida → Result ReanudacionError EstadoCorrida
unfolding transiciones_permitidas
transicionar actual nuevo =
    if transiciones_permitidas actual nuevo then ok nuevo else err (transicion_estado actual nuevo)

-- One allowed move of a run.
pub data Paso : EstadoCorrida → EstadoCorrida → Type 0 where
  iniciar : Paso nueva en_progreso
  seguir : Paso en_progreso en_progreso
  completar : Paso en_progreso completada
  interrumpir : Paso en_progreso interrumpida
  fallar : Paso en_progreso fallida
  reanudar : Paso interrumpida en_progreso
  abandonar : Paso interrumpida fallida
  releer : Paso completada completada

Paso_of_permitida : (a b : EstadoCorrida) → transiciones_permitidas a b ≡ true → Paso a b
unfolding transiciones_permitidas
Paso_of_permitida nueva en_progreso h = iniciar
Paso_of_permitida en_progreso en_progreso h = seguir
Paso_of_permitida en_progreso completada h = completar
Paso_of_permitida en_progreso interrumpida h = interrumpir
Paso_of_permitida en_progreso fallida h = fallar
Paso_of_permitida interrumpida en_progreso h = reanudar
Paso_of_permitida interrumpida fallida h = abandonar
Paso_of_permitida completada completada h = releer
Paso_of_permitida _ _ h = cc

transicionar_eq :
    (a b : EstadoCorrida) {c : EstadoCorrida}
    → transicionar a b ≡ ok c
    → (b ≡ c) × (transiciones_permitidas a b ≡ true)
unfolding transicionar
transicionar_eq a b h = ground arith

-- A transition that returns gives the state asked for, by one of the allowed moves.
pub Paso_of_transicionar :
    (a b : EstadoCorrida) {c : EstadoCorrida} → transicionar a b ≡ ok c → (b ≡ c) × Paso a c
Paso_of_transicionar a b h =
    let (e, p) = transicionar_eq a b h in (e, rw (← e) (Paso_of_permitida a b p))

pub transicionar_of_Paso : {a b : EstadoCorrida} → Paso a b → transicionar a b ≡ ok b
unfolding transicionar
transicionar_of_Paso iniciar = refl
transicionar_of_Paso seguir = refl
transicionar_of_Paso completar = refl
transicionar_of_Paso interrumpir = refl
transicionar_of_Paso fallar = refl
transicionar_of_Paso reanudar = refl
transicionar_of_Paso abandonar = refl
transicionar_of_Paso releer = refl

-- A run that failed never leaves that state.
pub transicionar-fallida :
    (b : EstadoCorrida) → transicionar fallida b ≡ err (transicion_estado fallida b)
unfolding transicionar
transicionar-fallida b = ground arith

-- The states that a run can reach from `a` by allowed moves.
pub data Alcanza (a : EstadoCorrida) : EstadoCorrida → Type 0 where
  aqui : Alcanza a a
  luego : {b c : EstadoCorrida} → Alcanza a b → Paso b c → Alcanza a c

-- The two final states cannot be left.
abbrev pub EsFinal : EstadoCorrida → Type 0
EsFinal e = (b : EstadoCorrida) → Paso e b → e ≡ b

pub completada-EsFinal : EsFinal completada
completada-EsFinal b releer = refl

pub fallida-EsFinal : EsFinal fallida
fallida-EsFinal b p = elim p [ ]
