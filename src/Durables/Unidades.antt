-- ===== src/Durables/Unidades.antt =====
-- unit_checkpoints.py: `save_result` and `load_result`, on the disk of the manifests, whose writes may
-- fail, also halfway. A result is the dataclass ResultadoUnidad with its fields. That the operating
-- system has its writes on the medium (`fsync`) is left out.
use Prim.Native.String.{◌++◌ as ◌<>◌}
use pred_engine.Prelude.{
  String, Bool, true, false, not, Option, none, some, ◌==◌, ◌&&◌, string_eq, if◌then◌else◌,
}
use pred_engine.Prelude.Result.{Result, ok, err, ◌>>=◌, ◌>>◌, raise_if}
use pred_engine.Prelude.Exec.{Exec, continue}
use pred_engine.Reanudacion.Contratos.{ReanudacionError}
use pred_engine.Reanudacion.Almacen.{Disco, manifiesto, con_suceso, mkdir_con, escribir_atomico}
use pred_engine.Durables.Codec.{
  CheckpointError, key_error, type_error, value_error, attribute_error, os_error, Valor, texto,
  escalar, objeto, Campos, sin_campos, y_campo, Json, jtexto, jobjeto, Entradas, sin_entradas,
  y_entrada, Python, encode, decode,
}

-- A file of `UnitCheckpoints.path`: its folder, and its `stem`, which is the key.
pub record Camino : Type 0 where
  pub carpeta : String
  pub clave : String

-- JSON, SHA-256, the joining of a path; None and True among the scalars.
pub record Formato (py : Python) : Type 0 where
  pub dumps : Json py.E → String
  pub loads : String → Option (Json py.E)
  pub sha256 : String → String
  pub ruta : Camino → String
  pub es_none : py.E → Bool
  pub verdadero : py.E

module _ (py : Python) (f : Formato py) where
  open py use {E, A}

  abbrev pub campo : String → Campos E A → Option (Valor E A)
  campo k sin_campos = none
  campo k (y_campo k' v c) = let resto = campo k c in if k' == k then some v else resto

  -- `dataclasses.replace` of one field.
  abbrev pub con_campo : String → Valor E A → Campos E A → Campos E A
  con_campo k v sin_campos = sin_campos
  con_campo k v (y_campo k' w c) =
      let resto = con_campo k v c in if k' == k then y_campo k v c else y_campo k' w resto

  abbrev pub hay_valor : Option (Valor E A) → Bool
  hay_valor none = false
  hay_valor (some (escalar e)) = not (f.es_none e)
  hay_valor (some v) = true

  abbrev pub es_completada : Option (Valor E A) → Bool
  es_completada (some (texto t)) = t == "completada"
  es_completada _ = false

  abbrev pub registro_completado : Option (Valor E A) → Bool
  registro_completado (some (objeto n r)) = es_completada (campo "estado" r)
  registro_completado _ = false

  -- A ResultadoUnidad that is COMPLETADA and has a value.
  unfoldable pub es_exitosa : Valor E A → Bool
  es_exitosa (objeto n c) =
      (n == "ResultadoUnidad")
      && registro_completado (campo "registro" c)
      && hay_valor (campo "valor" c)
  es_exitosa _ = false

  abbrev pub reutilizada : Valor E A → Valor E A
  reutilizada (objeto n c) = objeto n (con_campo "reutilizado" (escalar f.verdadero) c)
  reutilizada v = v

  abbrev pub datos : String → Json E → Json E
  datos clave r = jobjeto (
      y_entrada "key" (jtexto clave)
        (y_entrada "result" r (y_entrada "schema" (jtexto "pred-engine.unidad/1") sin_entradas)))

  abbrev pub sobre : Json E → Json E
  sobre d =
      jobjeto (y_entrada "data" d (y_entrada "sha256" (jtexto (f.sha256 (f.dumps d))) sin_entradas))

  abbrev pub del_disco :
      Result ReanudacionError (Unit {0}) × Disco → Result CheckpointError (Unit {0}) × Disco
  del_disco (ok u, d) = (ok u, d)
  del_disco (err e, d) = (err os_error, d)

  abbrev pub escribir :
      Camino → Result CheckpointError (Json E) → Exec Disco CheckpointError (Unit {0})
  escribir p (err e) d = (err e, d)
  escribir p (ok j) d = del_disco (
      continue (con_suceso mkdir_con d)
        (λ _. escribir_atomico (f.ruta p) (f.dumps (sobre (datos p.clave j)) <> "\n")))

  unfoldable pub save_result : Option Camino → Valor E A → Exec Disco CheckpointError (Unit {0})
  unfolding es_exitosa encode con_suceso mkdir_con escribir_atomico
  save_result none r d = (ok tt, d)
  save_result (some p) r d = if es_exitosa r then escribir p (encode py r) d else (ok tt, d)

  -- `j[k]`
  abbrev pub en_entradas : String → Entradas E → Result CheckpointError (Json E)
  en_entradas k sin_entradas = err key_error
  en_entradas k (y_entrada k' j es) =
      let resto = en_entradas k es in if k' == k then ok j else resto

  abbrev pub clave_de : String → Json E → Result CheckpointError (Json E)
  clave_de k (jobjeto es) = en_entradas k es
  clave_de k _ = err type_error

  abbrev pub es_texto : Json E → String → Bool
  es_texto (jtexto t) s = t == s
  es_texto _ s = false

  -- `data["schema"] != ... or data["key"] != path.stem or ... != envelope["sha256"]`
  abbrev pub comprobar : Camino → Json E → Json E → Result CheckpointError (Unit {0})
  comprobar p s d = clave_de "schema" d >>= λ esquema.
      raise_if (not (es_texto esquema "pred-engine.unidad/1")) value_error
      >> (clave_de "key" d >>= λ clave.
          raise_if (not (es_texto clave p.clave)) value_error
          >> (clave_de "sha256" s >>= λ suma.
              raise_if (not (es_texto suma (f.sha256 (f.dumps d)))) value_error))

  abbrev pub tiene_estado : Option (Valor E A) → Bool
  tiene_estado (some (objeto n r)) = elim (campo "estado" r) [ none ↦ false | some e ↦ true ]
  tiene_estado _ = false

  -- Why a unit is refused: to read the state of a registro that has none is an AttributeError.
  abbrev pub rechazo_de : Valor E A → CheckpointError
  rechazo_de (objeto n c) =
      if (n == "ResultadoUnidad")
        && hay_valor (campo "valor" c)
        && not (tiene_estado (campo "registro" c))
      then attribute_error
      else value_error
  rechazo_de _ = value_error

  abbrev pub aceptar : Valor E A → Result CheckpointError (Option (Valor E A))
  aceptar v = if es_exitosa v then ok (some (reutilizada v)) else err (rechazo_de v)

  abbrev pub leer_sobre : Camino → Option (Json E) → Result CheckpointError (Option (Valor E A))
  leer_sobre p none = err value_error
  leer_sobre p (some s) = clave_de "data" s >>= λ d.
      comprobar p s d >> (clave_de "result" d >>= λ r. decode py r >>= λ v. aceptar v)

  -- `except (KeyError, TypeError, ValueError)`
  abbrev pub como_valor_invalido :
      Result CheckpointError (Option (Valor E A)) → Result CheckpointError (Option (Valor E A))
  como_valor_invalido (ok v) = ok v
  como_valor_invalido (err key_error) = err value_error
  como_valor_invalido (err type_error) = err value_error
  como_valor_invalido (err value_error) = err value_error
  como_valor_invalido (err e) = err e

  abbrev pub leer_texto : Camino → Option String → Result CheckpointError (Option (Valor E A))
  leer_texto p none = ok none
  leer_texto p (some t) = como_valor_invalido (leer_sobre p (f.loads t))

  unfoldable pub load_result : Option Camino → Disco → Result CheckpointError (Option (Valor E A))
  unfolding decode es_exitosa
  load_result none d = ok none
  load_result (some p) d = leer_texto p (d.ficheros (manifiesto (f.ruta p)))
