-- ===== src/Reanudacion/Almacen.antt =====
-- almacenamiento.py: manifests as files, written through a temporary file and `os.replace`.
-- The disk answers every operation on a file from a list, so a write can fail, also halfway.
use pred_engine.Prelude.{
  ℕ, String, ◌≡◌, Bool, true, false, Option, none, some, List, [], ◌∷◌, arith, if◌then◌else◌, ◌==◌,
  ◌&&◌, string_eq, nat_eq,
}
use text.Mathlib.Text.{◌==◌ as str_eq}
use text.Mathlib.TextEquality.{eq_iff}
use pred_engine.Prelude.Result.{Result, ok, err}
use pred_engine.Prelude.Exec.{Exec, ◌>>◌}
use pred_engine.Reanudacion.Contratos.{
  ManifiestoCorrida, ReanudacionError, manifiesto_ausente, manifiesto_corrupto, version_manifiesto,
  externo, schema_version,
}

-- `raiz/run_id/manifiesto.json` and the same name with `.tmp`.
pub data Ruta : Type 0 where
  manifiesto : String → Ruta
  temporal : String → Ruta

abbrev pub ruta_beq : Ruta → Ruta → Bool
ruta_beq (manifiesto a) (manifiesto b) = str_eq a b
ruta_beq (temporal a) (temporal b) = str_eq a b
ruta_beq _ _ = false

-- How the disk answers: done, or an OSError. A failing write may leave part of the text.
pub data Suceso : Type 0 where
  bien : Suceso
  falla : Option String → Suceso

pub record Disco : Type 0 where
  pub ficheros : Ruta → Option String
  pub sucesos : List Suceso

-- JSON and Pydantic, which read and print a manifest.
pub record Codec : Type 1 where
  pub Json : Type 0
  pub dump : ManifiestoCorrida → String
  pub loads : String → Option Json
  pub es_objeto : Json → Bool
  pub version : Json → Option ℕ
  pub model_validate : Json → Option ManifiestoCorrida

abbrev pub poner : (Ruta → Option String) → Ruta → Option String → Ruta → Option String
poner fs r t r' = if ruta_beq r r' then t else fs r'

-- The next answer of the disk, and the disk after it.
abbrev pub turno : List Suceso → Suceso
turno [] = bien
turno (x ∷ xs) = x

abbrev pub pendientes : List Suceso → List Suceso
pendientes [] = []
pendientes (x ∷ xs) = xs

abbrev pub pasar : Disco → Disco
pasar d = record d { sucesos = pendientes d.sucesos }

abbrev pub Op : Type 0 → Type 0
Op A = Exec Disco ReanudacionError A

abbrev pub os_error : ReanudacionError
os_error = externo "OSError"

-- `ruta.parent.mkdir(parents=True, exist_ok=True)`: no file changes.
unfoldable pub mkdir_con : Suceso → Op (Unit {0})
mkdir_con bien d = (ok tt, d)
mkdir_con (falla parcial) d = (err os_error, d)

-- `temporal.write_text(contenido)`
write_text_con : String → String → Suceso → Op (Unit {0})
write_text_con run_id contenido bien d =
    (ok tt, record d { ficheros = poner d.ficheros (temporal run_id) (some contenido) })
write_text_con run_id contenido (falla parcial) d =
    (err os_error, record d { ficheros = poner d.ficheros (temporal run_id) parcial })

-- `os.replace(temporal, ruta)`, atomic
replace_con : String → Suceso → Op (Unit {0})
replace_con run_id bien d =
    let escrito = poner d.ficheros (manifiesto run_id) (d.ficheros (temporal run_id)) in
    (ok tt, record d { ficheros = poner escrito (temporal run_id) none })
replace_con run_id (falla parcial) d = (err os_error, d)

unfoldable pub con_suceso : (Suceso → Op (Unit {0})) → Op (Unit {0})
con_suceso op d = op (turno d.sucesos) (pasar d)

unfoldable pub escribir_atomico : String → String → Op (Unit {0})
unfolding con_suceso mkdir_con write_text_con replace_con
escribir_atomico run_id contenido = do
  con_suceso mkdir_con
  con_suceso (write_text_con run_id contenido)
  con_suceso (replace_con run_id)

es_some : Option String → Bool
es_some none = false
es_some (some t) = true

module _ (c : Codec) where
  open c use {Json, dump, loads, es_objeto, version, model_validate}

  unfoldable pub existe : String → Disco → Bool
  unfolding es_some
  existe run_id d = es_some (d.ficheros (manifiesto run_id))

  unfoldable pub guardar : ManifiestoCorrida → Op (Unit {0})
  unfolding escribir_atomico
  guardar m = escribir_atomico m.run_id (dump m)

  -- `version != SCHEMA_VERSION`
  abbrev version_soportada : Option ℕ → Bool
  version_soportada none = false
  version_soportada (some v) = v == schema_version

  validado : Option ManifiestoCorrida → Result ReanudacionError ManifiestoCorrida
  validado none = err manifiesto_corrupto
  validado (some m) = ok m

  decodificado : Option Json → Result ReanudacionError ManifiestoCorrida
  unfolding validado
  decodificado none = err manifiesto_corrupto
  decodificado (some bruto) =
      if es_objeto bruto
      then (if version_soportada (version bruto)
          then validado (model_validate bruto)
          else err (version_manifiesto (version bruto)))
      else err manifiesto_corrupto

  leido : Option String → Result ReanudacionError ManifiestoCorrida
  unfolding decodificado
  leido none = err manifiesto_ausente
  leido (some texto) = decodificado (loads texto)

  unfoldable pub cargar : String → Op ManifiestoCorrida
  unfolding leido
  cargar run_id d = (leido (d.ficheros (manifiesto run_id)), d)

-- Whether a call returned.
abbrev pub es_ok : {A : Type 0} → Result ReanudacionError A → Bool
es_ok (ok a) = true
es_ok (err e) = false

-- Every manifest file after a write, whatever the disk answers: the new text under its own name if
-- the write returned, and else exactly what stood there before.
pub ficheros-escribir_atomico :
    (run_id contenido j : String) (d : Disco)
    → (escribir_atomico run_id contenido d).1.ficheros (manifiesto j) ≡ (
        if es_ok (escribir_atomico run_id contenido d).0 && run_id == j
        then some contenido
        else d.ficheros (manifiesto j))
unfolding escribir_atomico
ficheros-escribir_atomico run_id contenido j d =
    ground (arith, eq_iff run_id j, eq_iff run_id run_id)
