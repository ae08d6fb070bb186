-- ===== src/Evidencia/Registro.antt =====
-- persistencia_evidencia/repositorio.py: `registrar_corrida`. The references to the table of the
-- ingestions of M1 are left out.
use Prim.Native.String.{◌++◌ as ◌<>◌}
use pred_engine.Prelude.{
  String, Bool, true, false, not, ℕ, Option, none, some, List, [], ◌∷◌, ◌++◌, map, ◌==◌, ◌&&◌, ◌||◌,
  string_eq, nat_eq, if◌then◌else◌,
}
use pred_engine.Prelude.Sorted.{any, filter, sorted, str_lt}
use pred_engine.Prelude.Result.{Result, ok, err, raise_if}
use pred_engine.Prelude.Exec.{lift, ◌>>=◌, ◌>>◌}
use pred_engine.Candidatos.Contratos.{FalloCandidato, HandoffValidado}
use pred_engine.Evidencia.Contratos.{
  EstadoCorrida, en_curso, publicada, rechazada, IdentidadCorrida, EvidenciaError, inconsistente,
  Corrida, Ingesta, De, Base, Externo,
}
use pred_engine.Evidencia.Tablas.{insertar, con_run, corrida_de, Accion, transaccion, o_integridad}

-- LoteRechazadoError with its `motivo` and `detalle`, or the batch that validated.
pub data Entrada (O F : Type 0) : Type 0 where
  lote_rechazado : String → String → Entrada O F
  valido : HandoffValidado O ℕ F → Entrada O F

-- The variables that the first branch of the function sets.
pub record Alta : Type 0 where
  pub estado : EstadoCorrida
  pub causa : Option String
  pub run_id_m2 : Option String
  pub fallos : List FalloCandidato
  pub skus : List String

-- The arguments given by keyword.
pub record Origen : Type 0 where
  pub ingesta_sha256 : String
  pub datos_sinteticos : Option Bool
  pub run_id_m2 : Option String
  pub skus_fallidos : List String

abbrev pub sin_repetir : List String → List String
sin_repetir [] = []
sin_repetir (s ∷ ss) =
    let resto = sin_repetir ss in if any (λ t. t == s) ss then resto else s ∷ resto

abbrev pub distinta_de : Option String → String → Bool
distinta_de none r = false
distinta_de (some s) r = not (s == r)

abbrev pub mismo_o : Option String → Option String → Bool
mismo_o none none = true
mismo_o (some s) (some t) = s == t
mismo_o _ _ = false

abbrev pub mismo_bool : Bool → Bool → Bool
mismo_bool true b = b
mismo_bool false b = not b

-- `bool(datos_sinteticos)` and `datos_sinteticos is not None`.
abbrev pub es_sintetico : Option Bool → Bool
es_sintetico none = false
es_sintetico (some b) = b

abbrev pub es_declarado : Option Bool → Bool
es_declarado none = false
es_declarado (some b) = true

-- `bool(f[0]) != datos_sinteticos`
abbrev pub otro_origen : Option Bool → Bool → Bool
otro_origen none f = true
otro_origen (some b) f = not (mismo_bool f b)

abbrev pub origenes : String → String → List Corrida → List Ingesta → List Bool
origenes sha ref corridas ingestas =
    map (λ (c : Corrida). c.datos_sinteticos)
      (filter (λ c. (c.ingesta_sha256 == sha) && c.origen_declarado) corridas)
    ++ map (λ (i : Ingesta). i.datos_sinteticos)
        (filter
          (λ i. ((i.ingesta_sha256 == sha) || (i.ingesta_ref_m1 == ref)) && i.origen_declarado)
          ingestas)

-- INSERT ... ON CONFLICT ... DO UPDATE ... WHERE m3_ingestas.origen_declarado=0
abbrev pub con_ingesta : Ingesta → List Ingesta → List Ingesta
con_ingesta n [] = n ∷ []
con_ingesta n (i ∷ is) =
    let resto = con_ingesta n is in
    if (i.ingesta_sha256 == n.ingesta_sha256) && (i.ingesta_ref_m1 == n.ingesta_ref_m1)
    then (if i.origen_declarado then i else n) ∷ is
    else i ∷ resto

-- UPDATE m3_corridas SET estado='RECHAZADA', causa_rechazo=? WHERE run_id=? AND estado!='PUBLICADA'
abbrev pub rechazar_una : Option String → EstadoCorrida → Corrida → Corrida
rechazar_una causa publicada c = c
rechazar_una causa _ c = record c { estado = rechazada; causa_rechazo = causa }

abbrev pub rechazar : String → Option String → List Corrida → List Corrida
rechazar r causa [] = []
rechazar r causa (c ∷ cs) =
    (if c.run_id == r then rechazar_una causa c.estado c else c) ∷ rechazar r causa cs

abbrev pub misma_referencia : Corrida → Corrida → Bool
misma_referencia p c =
    (p.identidad == c.identidad)
    && (p.ingesta_sha256 == c.ingesta_sha256)
    && mismo_o p.run_id_m2 c.run_id_m2
    && mismo_bool p.datos_sinteticos c.datos_sinteticos
    && mismo_bool p.origen_declarado c.origen_declarado

abbrev pub misma_clave : De String → De String → Bool
misma_clave f g = (f.0 == g.0) && (f.1 == g.1)

abbrev pub mismo_fallo : De FalloCandidato → De FalloCandidato → Bool
mismo_fallo f g = (f.0 == g.0) && (f.1.candidato_id == g.1.candidato_id)

module _ (x : Externo) where
  abbrev pub no_corresponde : IdentidadCorrida → HandoffValidado x.O ℕ x.Fraccion → Origen → Bool
  no_corresponde i h o =
      distinta_de o.run_id_m2 h.run_id_m2
      || not (
          (h.contexto.ingesta_ref_m1 == i.ingesta_ref_m1)
          && (h.contexto.t_corte_reserva == i.t_corte_reserva))

  abbrev pub alta_de : HandoffValidado x.O ℕ x.Fraccion → Origen → Alta
  alta_de h o = record {
    estado = en_curso;
    causa = none;
    run_id_m2 = some h.run_id_m2;
    fallos = h.fallos;
    skus = sorted str_lt (
        sin_repetir (
          map x.sku_de h.candidatos
          ++ (map (λ (f : FalloCandidato). f.sku) h.fallos ++ o.skus_fallidos)));
  }

  abbrev pub si_corresponde : Bool → Alta → Result EvidenciaError Alta
  si_corresponde true a = err inconsistente
  si_corresponde false a = ok a

  abbrev pub preparar :
      IdentidadCorrida → Entrada x.O x.Fraccion → Origen → Result EvidenciaError Alta
  preparar i (lote_rechazado motivo detalle) o = ok (record {
    estado = rechazada;
    causa = some (motivo <> (": " <> detalle));
    run_id_m2 = o.run_id_m2;
    fallos = [];
    skus = [];
  })
  preparar i (valido h) o = si_corresponde (no_corresponde i h o) (alta_de h o)

  abbrev pub es_rechazo : Entrada x.O x.Fraccion → Bool
  es_rechazo (lote_rechazado m d) = true
  es_rechazo (valido h) = false

  -- The triggers on `m3_skus`.
  abbrev pub choca : Base x.fl → De String → Bool
  choca b (r, s) =
      any (λ t. (t.0 == r) && (t.1 == s)) b.tardios
      || any (λ e. (e.0 == r) && (e.1.sku == s)) b.exclusiones

  unfoldable pub dar_de_alta : Corrida → Alta → Accion x Bool
  dar_de_alta c alta b =
      let filas = con_run c.run_id alta.skus in
      (do
        lift (raise_if (any (choca b) filas) EvidenciaError.integridad)
        skus ← o_integridad x (insertar misma_clave b.skus filas)
        fallos ← o_integridad x (insertar mismo_fallo b.fallos (con_run c.run_id alta.fallos))
        (λ b'.
            (ok true, record b' { corridas = b.corridas ++ c ∷ []; skus = skus; fallos = fallos })))
        b

  unfoldable pub ya_registrada : Corrida → Corrida → Bool → Accion x Bool
  ya_registrada previa c rechazo b =
      if misma_referencia previa c
      then (
        ok false,
        if rechazo then record b { corridas = rechazar c.run_id c.causa_rechazo b.corridas } else b,
      )
      else (err inconsistente, b)

  abbrev pub segun_previa : Option Corrida → Corrida → Alta → Bool → Accion x Bool
  segun_previa none c alta rechazo = dar_de_alta c alta
  segun_previa (some previa) c alta rechazo = ya_registrada previa c rechazo

  -- `IdentidadCorrida.run_id`
  abbrev pub run_id_de : IdentidadCorrida → String
  run_id_de i = "m3-" <> x.digest (x.canonica i)

  abbrev pub corrida_nueva : IdentidadCorrida → Origen → Alta → Corrida
  corrida_nueva i o alta = record {
    run_id = run_id_de i;
    ingesta_sha256 = o.ingesta_sha256;
    run_id_m2 = alta.run_id_m2;
    identidad = x.canonica i;
    datos_sinteticos = es_sintetico o.datos_sinteticos;
    estado = alta.estado;
    causa_rechazo = alta.causa;
    origen_declarado = es_declarado o.datos_sinteticos;
  }

  abbrev pub ingesta_nueva : IdentidadCorrida → Origen → Ingesta
  ingesta_nueva i o = record {
    ingesta_sha256 = o.ingesta_sha256;
    ingesta_ref_m1 = i.ingesta_ref_m1;
    datos_sinteticos = es_sintetico o.datos_sinteticos;
    origen_declarado = es_declarado o.datos_sinteticos;
  }

  abbrev pub registrar_en : IdentidadCorrida → Origen → Bool → Alta → Accion x Bool
  registrar_en i o rechazo alta b =
      let c = corrida_nueva i o alta in
      if any (otro_origen o.datos_sinteticos)
        (origenes o.ingesta_sha256 i.ingesta_ref_m1 b.corridas b.ingestas)
      then (err inconsistente, b)
      else segun_previa (corrida_de c.run_id b.corridas) c alta rechazo
          (record b { ingestas = con_ingesta (ingesta_nueva i o) b.ingestas })

  abbrev pub con_su_id : IdentidadCorrida → Bool → Accion x String
  con_su_id i nueva b = (ok (run_id_de i), b)

  unfoldable pub registrar_corrida :
      IdentidadCorrida → Entrada x.O x.Fraccion → Origen → Accion x String
  registrar_corrida i entrada o = do
    alta ← lift (preparar i entrada o)
    nueva ← transaccion x (registrar_en i o (es_rechazo entrada) alta)
    con_su_id i nueva
