-- ===== src/Durables/Codec.antt =====
-- unit_checkpoints.py: `_encode` and `_decode`. A dictionary is the list of its entries, in the order
-- of `sort_keys`; a dataclass is its name with its fields, and a SelectionResult is its fields. Arrays,
-- the validation of Pydantic, the constructors of the dataclasses and the iteration of a text are
-- parameters, and so are the scalars of JSON that are not texts.
use pred_engine.Prelude.{String, Bool, List, [], ◌∷◌, ◌==◌, string_eq, if◌then◌else◌}
use pred_engine.Prelude.Sorted.{any}
use pred_engine.Prelude.Result.{Result, ok, err, ◌>>=◌}

pub data CheckpointError : Type 0 where
  key_error type_error value_error attribute_error os_error : CheckpointError

mutual
  pub data Valor (E A : Type 0) : Type 0 where
    texto : String → Valor E A
    escalar : E → Valor E A
    arreglo : A → Valor E A
    seleccion : Campos E A → Valor E A
    objeto : String → Campos E A → Valor E A
    mapa : Campos E A → Valor E A
    tupla : Valores E A → Valor E A
    lista : Valores E A → Valor E A
    generico : E → Valor E A
    otro : String → Valor E A

  pub data Valores (E A : Type 0) : Type 0 where
    sin_valores : Valores E A
    y_valor : Valor E A → Valores E A → Valores E A

  pub data Campos (E A : Type 0) : Type 0 where
    sin_campos : Campos E A
    y_campo : String → Valor E A → Campos E A → Campos E A

mutual
  pub data Json (E : Type 0) : Type 0 where
    jtexto : String → Json E
    jescalar : E → Json E
    jlista : Elementos E → Json E
    jobjeto : Entradas E → Json E

  pub data Elementos (E : Type 0) : Type 0 where
    sin_elementos : Elementos E
    y_elemento : Json E → Elementos E → Elementos E

  pub data Entradas (E : Type 0) : Type 0 where
    sin_entradas : Entradas E
    y_entrada : String → Json E → Entradas E → Entradas E

pub record Python : Type 1 where
  pub E : Type 0
  pub A : Type 0
  pub tolist : A → Json E
  pub asarray : Json E → Result CheckpointError A
  pub model_validate : Valor E A → Result CheckpointError (Campos E A)
  pub construir : String → Campos E A → Result CheckpointError (Valor E A)
  pub iterar_texto : String → Valores E A

abbrev pub tipos : List String
tipos =
    "FittedCandidate" ∷ "ResultadoUnidad" ∷ "RegistroUnidad" ∷ "ResultadoWalkForward"
    ∷ "ResultadoVentana" ∷ "VentanaTemporal" ∷ []

unfoldable pub permitido : String → Bool
permitido n = any (λ t. t == n) tipos

abbrev pub tipado : {E : Type 0} → String → Json E → Json E
tipado tipo datos = jobjeto (y_entrada "data" datos (y_entrada "type" (jtexto tipo) sin_entradas))

module _ (py : Python) where
  open py use {E, A}

  unfoldable mutual
    unfolding permitido

    pub encode : Valor E A → Result CheckpointError (Json E)
    encode (texto t) = ok (jtexto t)
    encode (escalar e) = ok (jescalar e)
    encode (arreglo a) = ok (tipado "array" (py.tolist a))
    encode (seleccion c) =
        encode_campos c >>= λ d. ok (tipado "selection" (tipado "mapping" (jobjeto d)))
    encode (objeto n c) =
        let dentro = encode_campos c >>= λ d. ok (tipado n (jobjeto d)) in
        if permitido n then dentro else err value_error
    encode (mapa c) = encode_campos c >>= λ d. ok (tipado "mapping" (jobjeto d))
    encode (tupla vs) = encode_valores vs >>= λ d. ok (tipado "tuple" (jlista d))
    encode (lista vs) = encode_valores vs >>= λ d. ok (jlista d)
    encode (generico e) = ok (jescalar e)
    encode (otro t) = err value_error

    pub encode_valores : Valores E A → Result CheckpointError (Elementos E)
    encode_valores sin_valores = ok sin_elementos
    encode_valores (y_valor v vs) =
        encode v >>= λ j. encode_valores vs >>= λ js. ok (y_elemento j js)

    pub encode_campos : Campos E A → Result CheckpointError (Entradas E)
    encode_campos sin_campos = ok sin_entradas
    encode_campos (y_campo k v c) = encode v >>= λ j. encode_campos c >>= λ d. ok (y_entrada k j d)

  -- What `_decode` makes of a JSON: of itself, and as the `data` of a tuple or of a dictionary.
  pub record Abierto : Type 0 where
    pub crudo : Json E
    pub como_valor : Result CheckpointError (Valor E A)
    pub como_tupla : Result CheckpointError (Valores E A)
    pub como_campos : Result CheckpointError (Campos E A)

  abbrev pub buscar : String → List (String × Abierto) → Result CheckpointError Abierto
  buscar k [] = err key_error
  buscar k (e ∷ es) = let resto = buscar k es in if e.0 == k then ok e.1 else resto

  abbrev pub campos_de : List (String × Abierto) → Result CheckpointError (Campos E A)
  campos_de [] = ok sin_campos
  campos_de (e ∷ es) = e.1.como_valor >>= λ v. campos_de es >>= λ c. ok (y_campo e.0 v c)

  abbrev pub claves_de : List (String × Abierto) → Valores E A
  claves_de [] = sin_valores
  claves_de (e ∷ es) = y_valor (texto e.0) (claves_de es)

  abbrev pub valores_de : List Abierto → Result CheckpointError (Valores E A)
  valores_de [] = ok sin_valores
  valores_de (a ∷ es) = a.como_valor >>= λ v. valores_de es >>= λ vs. ok (y_valor v vs)

  unfoldable pub por_tipo : String → Abierto → Result CheckpointError (Valor E A)
  unfolding permitido
  por_tipo tipo d =
      if tipo == "selection"
      then (d.como_valor >>= λ v. py.model_validate v >>= λ c. ok (seleccion c))
      else if tipo == "array"
      then (py.asarray d.crudo >>= λ a. ok (arreglo a))
      else if tipo == "mapping"
      then (d.como_campos >>= λ c. ok (mapa c))
      else if tipo == "tuple"
      then (d.como_tupla >>= λ vs. ok (tupla vs))
      else if permitido tipo
      then (d.como_campos >>= λ c. py.construir tipo c)
      else err value_error

  -- A type that is not a text is no key of the table, or cannot be looked up.
  abbrev pub con_tipo : Json E → Abierto → Result CheckpointError (Valor E A)
  con_tipo (jtexto tipo) d = por_tipo tipo d
  con_tipo (jescalar e) d = err value_error
  con_tipo (jlista js) d = err type_error
  con_tipo (jobjeto es) d = err type_error

  abbrev pub decodificado : List (String × Abierto) → Result CheckpointError (Valor E A)
  decodificado es = buscar "type" es >>= λ t. buscar "data" es >>= λ d. con_tipo t.crudo d

  unfoldable mutual
    unfolding por_tipo

    pub abrir : Json E → Abierto
    abrir (jtexto t) = record {
      crudo = jtexto t;
      como_valor = ok (texto t);
      como_tupla = ok (py.iterar_texto t);
      como_campos = err attribute_error;
    }
    abrir (jescalar e) = record {
      crudo = jescalar e;
      como_valor = ok (escalar e);
      como_tupla = err type_error;
      como_campos = err attribute_error;
    }
    abrir (jlista js) = record {
      crudo = jlista js;
      como_valor = valores_de (abrir_elementos js) >>= λ vs. ok (lista vs);
      como_tupla = valores_de (abrir_elementos js);
      como_campos = err attribute_error;
    }
    abrir (jobjeto es) = record {
      crudo = jobjeto es;
      como_valor = decodificado (abrir_entradas es);
      como_tupla = ok (claves_de (abrir_entradas es));
      como_campos = campos_de (abrir_entradas es);
    }

    pub abrir_elementos : Elementos E → List Abierto
    abrir_elementos sin_elementos = []
    abrir_elementos (y_elemento j js) = abrir j ∷ abrir_elementos js

    pub abrir_entradas : Entradas E → List (String × Abierto)
    abrir_entradas sin_entradas = []
    abrir_entradas (y_entrada k j es) = (k, abrir j) ∷ abrir_entradas es

  unfoldable pub decode : Json E → Result CheckpointError (Valor E A)
  unfolding abrir
  decode j = (abrir j).como_valor
