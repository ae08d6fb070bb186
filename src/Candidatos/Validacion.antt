-- ===== src/Candidatos/Validacion.antt =====
-- forecasting/adaptador_candidatos/validacion.py, without the log and the texts of a rejected batch.
use Prim.Native.String.{◌++◌ as ◌<>◌}
use pred_engine.Prelude.{
  String, Bool, true, false, not, Option, none, some, List, [], ◌∷◌, ◌++◌, map, ◌==◌, ◌&&◌,
  string_eq, if◌then◌else◌,
}
use pred_engine.Prelude.Sorted.{filter}
use pred_engine.Prelude.Result.{Result, ok, err, ◌>>=◌}
use pred_engine.Candidatos.Contratos.{
  MotivoRechazo, error_no_clasificado, CodigoFallo, modelo_no_registrado, campo_faltante,
  campo_sobrante, tipo_incorrecto, fuera_de_dominio, semilla_ausente, pesos_no_disponibles,
  FalloCandidato, Valor, texto, otro, Crudo, Candidato, ErrorCampo, ValidationError, ErrorCarga,
  no_disponible, inesperado, ContextoParticion, Entorno, HandoffValidado,
}
use pred_engine.Candidatos.Lote.{contiene, get, validar_lote}

-- `sep.join(ts)`
abbrev pub join : String → List String → String
join sep [] = ""
join sep (t ∷ []) = t
join sep (t ∷ u ∷ ts) = t <> (sep <> join sep (u ∷ ts))

abbrev pub resto : List String → List String
resto [] = []
resto (t ∷ ts) = ts

abbrev pub tiene_varias : List String → Bool
tiene_varias (t ∷ u ∷ ts) = true
tiene_varias _ = false

abbrev pub resumen_de : ErrorCampo → String
resumen_de e =
    let ruta = join "." e.ruta in (if ruta == "" then "<raiz>" else ruta) <> (": " <> e.msg)

abbrev pub resumen : ValidationError → String
resumen exc = join "; " (map resumen_de (exc.primero ∷ exc.otros))

module _ (x : Entorno) where
  open x use {O, D, F, T}

  -- `str(crudo.get(campo))`
  abbrev pub str_de : Option (Valor O) → String
  str_de none = "None"
  str_de (some (texto t)) = t
  str_de (some (otro o)) = x.str o

  abbrev pub declarado : Option (Valor O) → Option String
  declarado (some (texto t)) = some t
  declarado _ = none

  abbrev pub o_none : Option String → String
  o_none none = "None"
  o_none (some t) = t

  abbrev pub fallo : Crudo O → String → CodigoFallo → String → FalloCandidato
  fallo crudo campo codigo detalle =
      let sku = str_de (get x crudo "sku") in
      let candidato_id = str_de (get x crudo "candidato_id") in
      let modelo = declarado (get x crudo "modelo") in
      record {
        sku = sku;
        candidato_id = candidato_id;
        modelo = modelo;
        campo = campo;
        codigo_error = codigo;
        mensaje =
            "sku="
            <> (sku
                <> (" candidato_id="
                    <> (candidato_id
                        <> (" modelo="
                            <> (o_none modelo <> (" campo=" <> (campo <> (": " <> detalle))))))));
      }

  abbrev pub por_tipo : String → String → String × CodigoFallo
  por_tipo tipo campo =
      if x.startswith tipo "union_tag"
      then ("familia", modelo_no_registrado)
      else if tipo == "literal_error" && campo == "modelo"
      then (campo, modelo_no_registrado)
      else if tipo == "missing"
      then (campo, if campo == "semilla" then semilla_ausente else campo_faltante)
      else if tipo == "extra_forbidden"
      then (campo, campo_sobrante)
      else if x.endswith tipo "_type"
      then (campo, tipo_incorrecto)
      else (campo, fuera_de_dominio)

  abbrev pub clasificar : ValidationError → String × CodigoFallo
  clasificar exc =
      let ruta = exc.primero.ruta in
      por_tipo exc.primero.tipo (if tiene_varias ruta then join "." (resto ruta) else "familia")

  -- One turn of the loop: the candidate, or its record.
  abbrev pub juzgar :
      List String
      → Crudo O
      → Result ValidationError (Candidato O)
      → Result FalloCandidato (Candidato O)
  juzgar fabricas crudo (err exc) =
      let (campo, codigo) = clasificar exc in err (fallo crudo campo codigo (resumen exc))
  juzgar fabricas crudo (ok c) =
      if contiene c.familia fabricas
      then ok c
      else err (
          fallo crudo "familia" modelo_no_registrado
            ("la familia " <> (x.repr c.familia <> " no esta habilitada")))

  abbrev pub anotar :
      Result FalloCandidato (Candidato O)
      → List (Candidato O) × List FalloCandidato
      → List (Candidato O) × List FalloCandidato
  anotar (ok c) (vs, fs) = (c ∷ vs, fs)
  anotar (err f) (vs, fs) = (vs, f ∷ fs)

  unfoldable pub validar_candidatos :
      List (Crudo O) → List String → List (Candidato O) × List FalloCandidato
  validar_candidatos [] fabricas = ([], [])
  validar_candidatos (crudo ∷ crudos) fabricas =
      anotar (juzgar fabricas crudo (x.validate_python crudo)) (validar_candidatos crudos fabricas)

  abbrev pub es_fundacional : Candidato O → Bool
  es_fundacional c = c.familia == "foundation"

  abbrev pub fallo_de_pesos : String → Candidato O → FalloCandidato
  fallo_de_pesos detalle c = fallo c.volcado "configuracion.revision" pesos_no_disponibles detalle

  abbrev pub tras_cargar :
      List (Candidato O)
      → List (Candidato O)
      → Result ErrorCarga (Unit {0})
      → Result MotivoRechazo (List (Candidato O) × List FalloCandidato)
  tras_cargar validos fundacionales (ok u) = ok (validos, [])
  tras_cargar validos fundacionales (err (no_disponible detalle)) =
      ok (filter (λ c. not (es_fundacional c)) validos, map (fallo_de_pesos detalle) fundacionales)
  tras_cargar validos fundacionales (err inesperado) = err error_no_clasificado

  abbrev pub si_hay :
      List (Candidato O)
      → List (Candidato O)
      → Result MotivoRechazo (List (Candidato O) × List FalloCandidato)
  si_hay validos [] = ok (validos, [])
  si_hay validos (c ∷ cs) = tras_cargar validos (c ∷ cs) x.cargar_fundacional

  unfoldable pub verificar_pesos :
      List (Candidato O) → Result MotivoRechazo (List (Candidato O) × List FalloCandidato)
  verificar_pesos validos = si_hay validos (filter es_fundacional validos)

  unfoldable pub validar_manifiesto :
      String
      → ContextoParticion D F
      → List String
      → Option T
      → List String
      → Result MotivoRechazo (HandoffValidado O D F)
  validar_manifiesto contenido esperado skus_panel reserva_abierta_en fabricas = do
    manifiesto ← validar_lote x contenido esperado skus_panel reserva_abierta_en
    let primera = validar_candidatos manifiesto.candidatos fabricas
    segunda ← verificar_pesos primera.0
    ok (record {
      contexto = manifiesto.contexto;
      run_id_m2 = manifiesto.run_id_m2;
      candidatos = segunda.0;
      fallos = primera.1 ++ segunda.1;
    })
