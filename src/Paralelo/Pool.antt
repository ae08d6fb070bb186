-- ===== src/Paralelo/Pool.antt =====
-- comun/ejecucion_paralela.py: the units of a call, one after another or in a pool of processes.
-- What becomes of a unit in the pool is its `Destino`. `type(n) is not int` is the type of `n`.
use pred_engine.Prelude.{
  ℕ, zero, suc, ◌*◌, String, Bool, Option, none, some, List, [], ◌∷◌, ◌++◌, map, leb, nat_beq, not,
  if◌then◌else◌, length, get_elem?, take, enumerar,
}
use pred_engine.Prelude.Int.{ℤ, pos, negsuc}
use pred_engine.Prelude.Result.{Result, ok, err, ◌>>=◌, ◌>>◌, raise_if}
use pred_engine.Paralelo.Codigos.{Excepcion, codigo_de}
use pred_engine.Paralelo.Unidades.{
  fallida, RegistroUnidad, EtiquetaUnidad, Proceso, Trabajo, Resultado, Rastro, seguimiento,
  evento_fin, ejecutar_aislada,
}

pub data UnidadesError : Type 0 where
  procesos_invalidos en_vuelo_invalido etiquetas_de_menos : UnidadesError
  -- IndexError: `etiquetas[indice]`
  sin_etiqueta : ℕ → UnidadesError
  -- the fuel of the model ran out
  sin_fin : UnidadesError

-- A unit runs to its end in a process; or its process dies when the first `n` of its records are
-- written, and the future raises; or the pool is broken already and `submit` raises.
pub data Destino (Tiempo : Type 0) : Type 0 where
  vive : Proceso Tiempo → Destino Tiempo
  muere : Proceso Tiempo → ℕ → Excepcion → Destino Tiempo
  rechazada : Excepcion → Destino Tiempo

-- The processes of the units in turn, when there is no pool; what becomes of each unit in the pool;
-- and the clock of the parent, when the pool was made and when it asks for a result.
pub record Maquina (Tiempo : Type 0) : Type 0 where
  pub proceso : ℕ → Proceso Tiempo
  pub destino : ℕ → Destino Tiempo
  pub envio : Tiempo
  pub ahora : ℕ → Tiempo

-- `min`, for a number that may be negative and one that is not.
abbrev pub min_ℤ : ℤ → ℕ → ℤ
min_ℤ (pos a) n = pos (if leb a n then a else n)
min_ℤ (negsuc a) n = negsuc a

-- `max(1, z)`
abbrev pub al_menos_uno : ℤ → ℕ
al_menos_uno (pos zero) = 1
al_menos_uno (pos (suc n)) = suc n
al_menos_uno (negsuc n) = 1

abbrev pub exigir : ℤ → UnidadesError → Result UnidadesError ℕ
exigir (pos zero) e = err e
exigir (pos (suc n)) e = ok (suc n)
exigir (negsuc n) e = err e

unfoldable pub exigir_procesos : ℤ → Result UnidadesError ℕ
exigir_procesos z = exigir z procesos_invalidos

abbrev pub en_vuelo_o : Option ℤ → ℕ → ℤ
en_vuelo_o none procesos = pos (2 * procesos)
en_vuelo_o (some z) procesos = z

module _ (x : Trabajo) (q : Maquina x.Tiempo) (etiquetas : Option (List EtiquetaUnidad)) where
  -- `future.result()`, with what the child has written.
  abbrev pub Futuro : Type 0
  Futuro = Result Excepcion (Resultado x) × Rastro x

  -- A unit with its result: what the consumer is given, and what the unit has left behind.
  abbrev pub Entrega : Type 0
  Entrega = Resultado x × Rastro x

  abbrev pub entrada_de : ℕ → Option EtiquetaUnidad → Result UnidadesError (Option EtiquetaUnidad)
  entrada_de i none = err (sin_etiqueta i)
  entrada_de i (some e) = ok (some e)

  abbrev pub etiqueta_en :
      Option (List EtiquetaUnidad) → ℕ → Result UnidadesError (Option EtiquetaUnidad)
  etiqueta_en none i = ok none
  etiqueta_en (some es) i = entrada_de i (get_elem? es i)

  unfoldable pub etiqueta_de : ℕ → Result UnidadesError (Option EtiquetaUnidad)
  etiqueta_de i = etiqueta_en etiquetas i

  abbrev pub etapa_de : Option EtiquetaUnidad → Option String
  etapa_de none = none
  etapa_de (some e) = some e.etapa

  abbrev pub futuro_de : Destino x.Tiempo → x.Tarea → Option EtiquetaUnidad → Futuro
  futuro_de (vive p) t e = let (r, s) = ejecutar_aislada x t e (etapa_de e) p in (ok r, s)
  futuro_de (muere p n exc) t e =
      let (r, s) = ejecutar_aislada x t e (etapa_de e) p in (err exc, take n s)
  futuro_de (rechazada exc) t e = (err exc, [])

  unfoldable pub enviar_unidad : ℕ → x.Tarea → Option EtiquetaUnidad → Futuro
  enviar_unidad i t e = futuro_de (q.destino i) t e

  abbrev pub sin_resultado : Excepcion → ℕ → Option EtiquetaUnidad → RegistroUnidad x.Tiempo
  sin_resultado exc i e = record {
    estado = fallida;
    pid = 0;
    inicio = q.envio;
    fin = q.ahora i;
    error = some (x.describir_error exc);
    cpu_s = none;
    codigo = some (codigo_de x.carga exc (etapa_de e));
  }

  unfoldable pub resultado_de : ℕ → Futuro → Option EtiquetaUnidad → Entrega
  unfolding evento_fin
  resultado_de i (ok r, s) e = (r, s)
  resultado_de i (err exc, s) e =
      let r = sin_resultado exc i e in
      (
        record { registro = r; valor = none; reutilizado = Bool.false },
        s ++ evento_fin x (seguimiento x e x.progreso) r,
      )

  -- The generator: the tasks not read yet, and the deque of those sent and not delivered.
  pub record Iterador : Type 0 where
    pub pendientes : List (ℕ × x.Tarea)
    pub enviadas : List (ℕ × Futuro)

  unfoldable pub enviar :
      (limite : ℕ) → List (ℕ × x.Tarea) → List (ℕ × Futuro) → Result UnidadesError Iterador
  unfolding etiqueta_de enviar_unidad
  enviar limite [] cola = ok (record { pendientes = []; enviadas = cola })
  enviar limite ((i, t) ∷ resto) cola = etiqueta_de i >>= λ e.
      let llena = cola ++ ((i, enviar_unidad i t e) ∷ []) in
      let sigue = enviar limite resto llena in
      if leb limite (length llena)
      then ok (record { pendientes = resto; enviadas = llena })
      else sigue

  abbrev pub entregar :
      List (ℕ × x.Tarea) → List (ℕ × Futuro) → Result UnidadesError (Option (Entrega × Iterador))
  entregar ps [] = ok none
  entregar ps ((i, f) ∷ cola) = etiqueta_de i >>= λ e.
      ok (some (resultado_de i f e, record { pendientes = ps; enviadas = cola }))

  -- One turn of the `while True`, up to its `yield`.
  unfoldable pub proximo :
      (limite : ℕ) → Iterador → Result UnidadesError (Option (Entrega × Iterador))
  unfolding enviar resultado_de
  proximo limite g = enviar limite g.pendientes g.enviadas >>= λ h. entregar h.pendientes h.enviadas

  -- The consumer leaves: what was sent and not delivered is cancelled.
  unfoldable pub cancelar : Iterador → List ℕ
  cancelar g = map (λ p. p.0) g.enviadas

  abbrev pub acumular :
      (Iterador → Result UnidadesError (List Entrega))
      → Option (Entrega × Iterador)
      → Result UnidadesError (List Entrega)
  acumular resto none = ok []
  acumular resto (some (r, g)) = resto g >>= λ rs. ok (r ∷ rs)

  -- `list` of the generator.
  unfoldable pub agotar : ℕ → (limite : ℕ) → Iterador → Result UnidadesError (List Entrega)
  unfolding proximo
  agotar zero limite g = err sin_fin
  agotar (suc n) limite g = proximo limite g >>= acumular (agotar n limite)

  unfoldable pub secuencial : ℕ → List x.Tarea → Result UnidadesError (List Entrega)
  unfolding etiqueta_de
  secuencial i [] = ok []
  secuencial i (t ∷ ts) = etiqueta_de i >>= λ e.
      let r = ejecutar_aislada x t e (etapa_de e) (q.proceso i) in
      secuencial (suc i) ts >>= λ rs. ok (r ∷ rs)

  unfoldable pub iterar : (procesos limite : ℕ) → List x.Tarea → Result UnidadesError (List Entrega)
  unfolding secuencial agotar
  iterar procesos limite tareas =
      if nat_beq procesos 1
      then secuencial 0 tareas
      else agotar (suc (length tareas)) limite
          (record { pendientes = enumerar 0 tareas; enviadas = [] })

  unfoldable pub iterar_unidades : ℤ → Option ℤ → List x.Tarea → Result UnidadesError (List Entrega)
  unfolding exigir_procesos iterar
  iterar_unidades procesos en_vuelo tareas = do
    n ← exigir_procesos procesos
    limite ← exigir (en_vuelo_o en_vuelo n) en_vuelo_invalido
    iterar n limite tareas

  abbrev pub exigir_etiquetas : Option (List EtiquetaUnidad) → ℕ → Result UnidadesError (Unit {0})
  exigir_etiquetas none n = ok tt
  exigir_etiquetas (some es) n = raise_if (not (nat_beq (length es) n)) etiquetas_de_menos

  unfoldable pub ejecutar_unidades : ℤ → List x.Tarea → Result UnidadesError (List Entrega)
  unfolding exigir_procesos iterar_unidades
  ejecutar_unidades procesos tareas =
      let n = length tareas in
      exigir_procesos procesos >>= λ _.
      exigir_etiquetas etiquetas n
      >> iterar_unidades (pos (al_menos_uno (min_ℤ procesos n))) (some (pos (al_menos_uno (pos n))))
          tareas
