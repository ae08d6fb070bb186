-- ===== src/Hpo/Espacio.antt =====
-- espacio.py: the space of search, and how a configuration is put together. What the program takes
-- from Python and NumPy is a `Plataforma`: values with their `==`, floats and a generator of random
-- numbers. `paso` is not negative. A restriction is a function of the caller with its label.
use pred_engine.Prelude.{
  ℕ, zero, suc, ◌+◌, ◌*◌, ◌/◌, String, Bool, true, false, Option, none, some, List, [], ◌∷◌, map,
  ltb, ◌==◌, string_eq, if◌then◌else◌, length, get_elem?,
}
use pred_engine.Prelude.Int.{ℤ, pos, gtb_ℤ, diferencia, mas}
use pred_engine.Prelude.Sorted.{any, filter}
use pred_engine.Prelude.Result.{Result, ok, err, ◌>>=◌, ◌>>◌, raise_if}

pub data EspacioError : Type 0 where
  bajo_mayor paso_invalido log_no_positivo opciones_vacias pocos_niveles : EspacioError
  duplicados parametro_inexistente padre_inexistente de_si_mismo padre_despues : EspacioError
  sin_configuracion : ℕ → EspacioError
  -- IndexError
  indice_fuera : EspacioError
  -- what NumPy, Optuna or a restriction raises
  externo : String → EspacioError

pub record Plataforma : Type 1 where
  pub V : Type 0
  pub F : Type 0
  pub Rng : Type 0
  pub ninguno : V
  pub igual : V → V → Bool
  pub de_int : ℤ → V
  pub de_float : F → V
  pub gt : F → F → Bool
  pub no_positivo : F → Bool
  pub log : F → F
  pub exp : F → F
  -- `rng.integers(0, n)` and `rng.uniform(a, b)`
  pub integers : ℕ → Rng → Result EspacioError (ℕ × Rng)
  pub uniform : F → F → Rng → Result EspacioError (F × Rng)

module _ (x : Plataforma) where
  open x use {V, F, Rng}

  pub data Parametro : Type 0 where
    entero : (nombre : String) → (bajo alto : ℤ) → (paso : ℕ) → Parametro
    flotante : (nombre : String) → (bajo alto : F) → (log : Bool) → Parametro
    categorico : (nombre : String) → (opciones : List V) → Parametro
    ordinal : (nombre : String) → (niveles : List V) → Parametro

  abbrev pub nombre : Parametro → String
  nombre (entero n b a p) = n
  nombre (flotante n b a l) = n
  nombre (categorico n os) = n
  nombre (ordinal n ns) = n

  -- `__post_init__` of each of the four.
  unfoldable pub post_init : Parametro → Result EspacioError Parametro
  post_init (entero n b a p) = do
    raise_if (gtb_ℤ b a) bajo_mayor
    raise_if (ltb p 1) paso_invalido
    ok (entero n b a p)
  post_init (flotante n b a l) = do
    raise_if (x.gt b a) bajo_mayor
    raise_if (if l then x.no_positivo b else false) log_no_positivo
    ok (flotante n b a l)
  post_init (categorico n os) = do
    raise_if (ltb (length os) 1) opciones_vacias
    ok (categorico n os)
  post_init (ordinal n ns) = do raise_if (ltb (length ns) 2) pocos_niveles; ok (ordinal n ns)

  abbrev pub elemento : Option V → Result EspacioError V
  elemento none = err indice_fuera
  elemento (some v) = ok v

  unfoldable pub muestrear_flotante : F → F → Bool → Rng → Result EspacioError (V × Rng)
  muestrear_flotante b a true g =
      x.uniform (x.log b) (x.log a) g >>= λ r. ok (x.de_float (x.exp r.0), r.1)
  muestrear_flotante b a false g = x.uniform b a g >>= λ r. ok (x.de_float r.0, r.1)

  unfoldable pub muestrear_parametro : Parametro → Rng → Result EspacioError (V × Rng)
  unfolding muestrear_flotante
  muestrear_parametro (entero n b a p) g =
      x.integers (diferencia a b / p + 1) g >>= λ r. ok (x.de_int (mas b (r.0 * p)), r.1)
  muestrear_parametro (flotante n b a l) g = muestrear_flotante b a l g
  muestrear_parametro (categorico n os) g =
      x.integers (length os) g >>= λ r. elemento (get_elem? os r.0) >>= λ v. ok (v, r.1)
  muestrear_parametro (ordinal n ns) g =
      x.integers (length ns) g >>= λ r. ok (x.de_int (pos r.0), r.1)

  pub record Condicion : Type 0 where
    pub parametro : String
    pub padre : String
    pub valores : List V

  -- A dictionary from names to values, in the order of insertion.
  abbrev pub Configuracion : Type 0
  Configuracion = List (String × V)

  -- `configuracion.get(nombre)`
  abbrev pub get : Configuracion → String → V
  get [] n = x.ninguno
  get (e ∷ c) n = let resto = get c n in if e.0 == n then e.1 else resto

  -- `configuracion[nombre] = v`
  abbrev pub poner : Configuracion → String → V → Configuracion
  poner [] n v = (n, v) ∷ []
  poner (e ∷ c) n v = let resto = poner c n v in if e.0 == n then (n, v) ∷ c else e ∷ resto

  pub record Restriccion : Type 0 where
    pub etiqueta : String
    pub cumple : Configuracion → Result EspacioError Bool

  pub record EspacioBusqueda : Type 0 where
    pub parametros : List Parametro
    pub condiciones : List Condicion
    pub restricciones : List Restriccion

  abbrev pub contiene : String → List String → Bool
  contiene n ms = any (λ m. m == n) ms

  abbrev pub hay_duplicados : List String → Bool
  hay_duplicados [] = false
  hay_duplicados (n ∷ ns) = let resto = hay_duplicados ns in if contiene n ns then true else resto

  abbrev pub siguiente_indice : Option ℕ → Option ℕ
  siguiente_indice none = none
  siguiente_indice (some i) = some (suc i)

  -- `indice_de.get(nombre)`, for names that are not repeated.
  abbrev pub indice_de : List String → String → Option ℕ
  indice_de [] n = none
  indice_de (m ∷ ms) n =
      let resto = siguiente_indice (indice_de ms n) in if m == n then some 0 else resto

  abbrev pub declarado : Option ℕ → EspacioError → Result EspacioError ℕ
  declarado none e = err e
  declarado (some i) e = ok i

  unfoldable pub comprobar_condicion : List String → Condicion → Result EspacioError (Unit {0})
  comprobar_condicion nombres c = do
    i ← declarado (indice_de nombres c.parametro) parametro_inexistente
    j ← declarado (indice_de nombres c.padre) padre_inexistente
    raise_if (c.padre == c.parametro) de_si_mismo
    raise_if (ltb i j) padre_despues

  abbrev pub comprobar_condiciones : List String → List Condicion → Result EspacioError (Unit {0})
  comprobar_condiciones nombres [] = ok tt
  comprobar_condiciones nombres (c ∷ cs) =
      comprobar_condicion nombres c >> comprobar_condiciones nombres cs

  -- `EspacioBusqueda.__post_init__`
  unfoldable pub espacio_busqueda : EspacioBusqueda → Result EspacioError EspacioBusqueda
  unfolding comprobar_condicion
  espacio_busqueda e = do
    let nombres = map nombre e.parametros
    raise_if (hay_duplicados nombres) duplicados
    comprobar_condiciones nombres e.condiciones
    ok e

  abbrev pub si_no : Option Condicion → Option Condicion → Option Condicion
  si_no none d = d
  si_no (some c) d = some c

  -- `condiciones.get(nombre)`: the last condition of a parameter counts.
  abbrev pub condicion_de : List Condicion → String → Option Condicion
  condicion_de [] n = none
  condicion_de (c ∷ cs) n = si_no (condicion_de cs n) (if c.parametro == n then some c else none)

  abbrev pub activo_por : Option Condicion → Configuracion → Bool
  activo_por none cfg = true
  activo_por (some c) cfg = any (λ v. x.igual (get cfg c.padre) v) c.valores

  unfoldable pub activo : List Condicion → Configuracion → Parametro → Bool
  activo cs cfg p = activo_por (condicion_de cs (nombre p)) cfg

  unfoldable pub nombres_activos : EspacioBusqueda → Configuracion → List String
  unfolding activo filter
  nombres_activos e cfg = map nombre (filter (activo e.condiciones cfg) e.parametros)

  -- The loop over the parameters, for one way to come by values.
  unfoldable pub recorrer :
      {S : Type 0}
      → (Parametro → S → Result EspacioError (V × S))
      → List Condicion
      → List Parametro
      → Configuracion
      → S
      → Result EspacioError (Configuracion × S)
  unfolding activo
  recorrer valor_de cs [] cfg s = ok (cfg, s)
  recorrer valor_de cs (p ∷ ps) cfg s = elim (activo cs cfg p) [
    | true ↦ valor_de p s >>= λ r. recorrer valor_de cs ps (poner cfg (nombre p) r.0) r.1
    | false ↦ recorrer valor_de cs ps cfg s
  ]

  abbrev pub primera_violada :
      List Restriccion → Configuracion → Result EspacioError (Option String)
  primera_violada [] cfg = ok none
  primera_violada (r ∷ rs) cfg =
      r.cumple cfg >>= λ b. elim b [ true ↦ primera_violada rs cfg | false ↦ ok (some r.etiqueta) ]

  unfoldable pub restriccion_violada :
      EspacioBusqueda → Configuracion → Result EspacioError (Option String)
  restriccion_violada e cfg = primera_violada e.restricciones cfg

  unfoldable pub es_valida : EspacioBusqueda → Configuracion → Result EspacioError Bool
  unfolding restriccion_violada
  es_valida e cfg = restriccion_violada e cfg >>= λ o. ok (elim o [ none ↦ true | some t ↦ false ])

  abbrev pub intentar : EspacioBusqueda → ℕ → ℕ → Rng → Result EspacioError (Configuracion × Rng)
  intentar e intentos zero g = err (sin_configuracion intentos)
  intentar e intentos (suc n) g =
      recorrer muestrear_parametro e.condiciones e.parametros [] g >>= λ r.
      es_valida e r.0 >>= λ b. elim b [ true ↦ ok r | false ↦ intentar e intentos n r.1 ]

  unfoldable pub muestrear : EspacioBusqueda → ℕ → Rng → Result EspacioError (Configuracion × Rng)
  unfolding recorrer muestrear_parametro es_valida
  muestrear e intentos_max g = intentar e intentos_max intentos_max g
