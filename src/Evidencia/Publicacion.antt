-- ===== src/Evidencia/Publicacion.antt =====
-- persistencia_evidencia/repositorio.py: `publicar`, on the directory of the run; and the view
-- `evidencia_publicada` with `contar_fallos`. What pandas and pyarrow write of a table is a parameter,
-- and so is whether the export, the removal of the old directory and `os.replace` succeed.
use Prim.Native.String.{◌++◌ as ◌<>◌}
use pred_engine.Prelude.{
  String, Bool, true, false, not, ℕ, ◌+◌, Option, none, some, List, [], ◌∷◌, ◌==◌, ◌&&◌, ◌||◌,
  string_eq, if◌then◌else◌, length,
}
use pred_engine.Prelude.Sorted.{any, filter}
use pred_engine.Prelude.Result.{Result, ok, err}
use pred_engine.Veredictos.Veredicto.{VeredictoSku}
use pred_engine.Evidencia.Contratos.{
  EstadoCorrida, seleccionada, publicada, EvidenciaError, estado_corrida_error, inconsistente,
  exportacion_fallida, De, Base, Externo, Unidad,
}
use pred_engine.Evidencia.Tablas.{de, con_estado, estado_corrida}

-- The files of the directory of the run, with their contents, when it exists.
abbrev pub Carpeta : Type 0
Carpeta = Option (List (String × String))

abbrev pub tablas : List String
tablas =
    "m3_corridas" ∷ "m3_protocolos" ∷ "m3_categorias" ∷ "m3_cartera" ∷ "m3_cortes"
    ∷ "m3_lanzamientos_tardios" ∷ "m3_exclusiones" ∷ "m3_significancia" ∷ "m3_confirmaciones"
    ∷ "m3_comparaciones" ∷ "m3_seleccion_previa" ∷ "m3_skus" ∷ "m3_fallos" ∷ "m3_unidades"
    ∷ "m3_pronosticos" ∷ "m3_metricas" ∷ "m3_veredictos" ∷ "m3_observaciones" ∷ "m3_intervalos_r"
    ∷ []

abbrev pub es_esperado : List String → String → Bool
es_esperado ts nombre =
    any (λ t. (nombre == (t <> ".parquet"))) ts || any (λ t. (nombre == (t <> ".csv"))) ts

-- How the calls of the file system go: `shutil.rmtree(destino)` may stop after removing all.
pub record Sucesos : Type 0 where
  pub exporta : Bool
  pub reemplaza : Bool

-- The Parquet and the CSV of a table of a run.
abbrev pub Exportador : Externo → Type 0
Exportador x = Base x.fl → String → String → String × String

abbrev pub hay_ajenos : Carpeta → Bool
hay_ajenos none = false
hay_ajenos (some fs) = any (λ f. not (es_esperado tablas f.0)) fs

module _ (x : Externo) where
  abbrev pub sin_veredicto : String → List (De (VeredictoSku x.fl)) → List (De String) → Bool
  sin_veredicto r veredictos skus =
      any (λ s. (s.0 == r) && not (any (λ v. (v.0 == r) && (v.1.sku == s.1)) veredictos)) skus

  -- SELECT * FROM evidencia_publicada WHERE run_id = ?: the rows of the verdicts.
  abbrev pub si_publicada :
      Option EstadoCorrida → List (De (VeredictoSku x.fl)) → List (De (VeredictoSku x.fl))
  si_publicada (some publicada) vs = vs
  si_publicada _ vs = []

  unfoldable pub evidencia_publicada : Base x.fl → String → List (De (VeredictoSku x.fl))
  evidencia_publicada b r = si_publicada (estado_corrida x b r) (de r b.veredictos)

  abbrev pub es_fallida : Option String → Bool
  es_fallida none = false
  es_fallida (some c) = true

  unfoldable pub contar_fallos : Base x.fl → String → ℕ
  contar_fallos b r =
      length (de r b.fallos)
      + length (filter (λ (u : Unidad). (u.run_id == r) && es_fallida u.causa) b.unidades)

module _ (x : Externo) (exportar : Exportador x) where
  abbrev pub Mundo : Type 0
  Mundo = Base x.fl × Carpeta

  abbrev pub exportadas : List String → Base x.fl → String → List (String × String)
  exportadas [] b r = []
  exportadas (t ∷ ts) b r =
      let (parquet, csv) = exportar b r t in
      (t <> ".parquet", parquet) ∷ (t <> ".csv", csv) ∷ exportadas ts b r

  -- From `_cambiar_estado` on.
  unfoldable pub exportar_corrida :
      String → Sucesos → Base x.fl → Carpeta → Result EvidenciaError (Unit {0}) × Mundo
  exportar_corrida r s b destino =
      let b' = record b { corridas = con_estado r publicada b.corridas } in
      if not s.exporta
      then (err exportacion_fallida, (b', destino))
      else if hay_ajenos destino
      then (err inconsistente, (b', destino))
      else if not s.reemplaza
      then (err exportacion_fallida, (b', none))
      else (ok tt, (b', some (exportadas tablas b' r)))

  unfoldable pub publicar_en :
      String
      → Option EstadoCorrida
      → Sucesos
      → Base x.fl
      → Carpeta
      → Result EvidenciaError (Unit {0}) × Mundo
  publicar_en r (some publicada) s b destino = (ok tt, (b, destino))
  publicar_en r (some seleccionada) s b destino =
      if sin_veredicto x r b.veredictos b.skus
      then (err inconsistente, (b, destino))
      else exportar_corrida r s b destino
  publicar_en r estado s b destino = (err (estado_corrida_error r estado "publicar"), (b, destino))

  -- `_transaccion`: an exception reverts the database and not the directory.
  abbrev pub revertir :
      Base x.fl
      → Result EvidenciaError (Unit {0}) × Mundo
      → Result EvidenciaError (Unit {0}) × Mundo
  revertir b (ok u, m) = (ok u, m)
  revertir b (err e, (b', destino)) = (err e, (b, destino))

  unfoldable pub publicar : String → Sucesos → Mundo → Result EvidenciaError (Unit {0}) × Mundo
  publicar r s (b, destino) = revertir b (publicar_en r (estado_corrida x b r) s b destino)
