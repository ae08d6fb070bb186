-- ===== src/Evidencia/Avances.antt =====
-- persistencia_evidencia: each call takes the state of a run along one arrow of the diagram at most.
use pred_engine.Prelude.{
  String, ◌≡◌, ◌≢◌, sym, subst, Option, none, some, List, [], ◌∷◌, ◌++◌, ◌==◌, string_eq,
  Bool-cases, inl, inr,
}
use pred_engine.Evidencia.Contratos.{
  EstadoCorrida, en_curso, evaluada, seleccionada, publicada, rechazada, Base, Externo, Corrida,
}
use pred_engine.Evidencia.Tablas.{estado_en, con_estado}
use pred_engine.Evidencia.Registro.{rechazar}
use pred_engine.Evidencia.Estados.{
  run-eq, estado_en-con_estado, estado_en-ajena, estado_en-corrida_de, rechazar_cases,
  estado_en-append,
}
use pred_engine.Evidencia.Publicacion.{Exportador}
use pred_engine.Evidencia.Efectos.{
  Inicial, Efecto, nada, seguido, ingesta, alta, rechazo, unidad, evalua, evidencia, demanda,
  selecciona, publica, protocolo, corte,
}
use pred_engine.Evidencia.Ordenes.{Orden, ejecutar, ejecutar-Efecto}

-- One arrow of the diagram of contratos.py, or none; none is a run that is not registered.
pub data Paso : Option EstadoCorrida → Option EstadoCorrida → Type 0 where
  queda : {o : Option EstadoCorrida} → Paso o o
  nace_en_curso : Paso none (some en_curso)
  nace_rechazada : Paso none (some rechazada)
  a_evaluada : Paso (some en_curso) (some evaluada)
  a_seleccionada : Paso (some evaluada) (some seleccionada)
  a_publicada : Paso (some seleccionada) (some publicada)
  a_rechazada : {s : EstadoCorrida} → s ≢ publicada → Paso (some s) (some rechazada)

-- From the state, each of the next ones is one arrow from the one before.
abbrev pub Avanza : Option EstadoCorrida → List (Option EstadoCorrida) → Type 0
Avanza o [] = Unit
Avanza o (p ∷ ps) = Paso o p × Avanza p ps

nace : (s : EstadoCorrida) → Inicial s → Paso none (some s)
nace en_curso i = nace_en_curso
nace rechazada i = nace_rechazada
nace evaluada i = elim i [ ]
nace seleccionada i = elim i [ ]
nace publicada i = elim i [ ]

con_estado-Paso :
    (q r : String) (s destino : EstadoCorrida) (cs : List Corrida)
    → Paso (some s) (some destino)
    → estado_en q cs ≡ some s
    → Paso (estado_en r cs) (estado_en r (con_estado q destino cs))
con_estado-Paso q r s destino cs paso h = elim (Bool-cases (q == r)) [
  | inl e ↦
      subst (λ t. Paso (estado_en t cs) (estado_en t (con_estado q destino cs))) (run-eq q r e)
        (rw (h, estado_en-con_estado q s destino cs h) paso)
  | inr e ↦ rw (estado_en-ajena q r destino cs e) queda
]

rechazar-Paso :
    (q r : String) (causa : Option String) (cs : List Corrida)
    → Paso (estado_en r cs) (estado_en r (rechazar q causa cs))
rechazar-Paso q r causa cs = elim (rechazar_cases q r causa cs) [
  | inl igual ↦
      rw (estado_en-corrida_de r (rechazar q causa cs), igual, sym (estado_en-corrida_de r cs))
        queda
  | inr (s, antes, no_p, ahora) ↦ rw (antes, ahora) (a_rechazada no_p)
]

alta-Paso :
    (r : String) (cs : List Corrida) (c : Corrida)
    → Inicial c.estado
    → Paso (estado_en r cs) (estado_en r (cs ++ c ∷ []))
alta-Paso r cs c i = elim (estado_en-append r cs c) [
  | inl igual ↦ rw igual queda
  | inr (antes, ahora) ↦ rw (antes, ahora) (nace c.estado i)
]

module _ (x : Externo) where
  open x use {fl}

  Efecto-Paso :
      {b b' : Base fl}
      → Efecto x b b'
      → (r : String) → Paso (estado_en r b.corridas) (estado_en r b'.corridas)
  Efecto-Paso nada r = queda
  Efecto-Paso (seguido {d = d} e f k) r =
      subst (λ cs. Paso (estado_en r cs) (estado_en r d.corridas)) k (Efecto-Paso f r)
  Efecto-Paso (ingesta is) r = queda
  Efecto-Paso (alta {b = b} c ss fs h i) r = alta-Paso r b.corridas c i
  Efecto-Paso (rechazo {b = b} q causa) r = rechazar-Paso q r causa b.corridas
  Efecto-Paso (unidad q u ps h e t) r = queda
  Efecto-Paso (evalua {b = b} q h i) r =
      con_estado-Paso q r en_curso evaluada b.corridas a_evaluada h
  Efecto-Paso (evidencia q ms cs vs h) r = queda
  Efecto-Paso (demanda q os h) r = queda
  Efecto-Paso (selecciona {b = b} q h) r =
      con_estado-Paso q r evaluada seleccionada b.corridas a_seleccionada h
  Efecto-Paso (publica {b = b} q h v) r =
      con_estado-Paso q r seleccionada publicada b.corridas a_publicada h
  Efecto-Paso (protocolo p h) r = queda
  Efecto-Paso (corte q s t ts es h a) r = queda

  -- The state of a run after each of the calls.
  abbrev pub historia :
      (exportar : Exportador x)
      → String
      → List (Orden x exportar)
      → Base fl
      → List (Option EstadoCorrida)
  historia exportar r [] b = []
  historia exportar r (o ∷ os) b =
      let b' = ejecutar x exportar o b in estado_en r b'.corridas ∷ historia exportar r os b'

  -- Whatever functions are called, and in whatever order, each call, returned or raised, leaves the
  -- state of a run or takes it along one arrow of the diagram: it is registered as EN_CURSO or
  -- RECHAZADA, goes from EN_CURSO to EVALUADA, from EVALUADA to SELECCIONADA, from SELECCIONADA to
  -- PUBLICADA, or from a state but PUBLICADA to RECHAZADA.
  pub historia-Avanza :
      (exportar : Exportador x) (os : List (Orden x exportar)) (b : Base fl) (r : String)
      → Avanza (estado_en r b.corridas) (historia exportar r os b)
  historia-Avanza exportar [] b r = tt
  historia-Avanza exportar (o ∷ os) b r = (
    Efecto-Paso (ejecutar-Efecto x exportar o b) r,
    historia-Avanza exportar os (ejecutar x exportar o b) r,
  )
