-- ===== src/Evidencia/Unidades.antt =====
-- persistencia_evidencia/repositorio.py: `_insertar_unidades` and `guardar_unidades`, and
-- `guardar_unidades_generadas` of recuperacion.py.
use Prim.Native.String.{◌++◌ as ◌<>◌}
use pred_engine.Prelude.{
  String, Bool, true, false, not, ℕ, suc, ◌+◌, Option, none, some, List, [], ◌∷◌, ◌++◌, map, ◌==◌,
  ◌&&◌, ◌||◌, string_eq, nat_eq, if◌then◌else◌, length, replicate,
}
use pred_engine.Prelude.Sorted.{any}
use pred_engine.Prelude.Result.{Result, ok, err}
use pred_engine.Prelude.Exec.{◌>>=◌}
use pred_engine.Evidencia.Contratos.{
  EstadoCorrida, en_curso, EvidenciaError, inconsistente, integridad, De, Externo, Unidad,
  Pronostico, FalloPronostico, PronosticoFechado, SerieCandidato,
}
use pred_engine.Evidencia.Tablas.{Accion, transaccion, exigir_estado}

abbrev pub es_en_curso : EstadoCorrida → Bool
es_en_curso en_curso = true
es_en_curso _ = false

-- The arguments given by keyword, but for the failures.
pub record Traza : Type 0 where
  pub codigo_version : Option String
  pub semilla : Option ℕ
  pub emitido_en : Option String

-- The unit that a process sends back, with the fields of its candidate.
pub record UnidadPronostico (F : Type 0) : Type 0 where
  pub sku : String
  pub candidato_id : String
  pub familia : String
  pub modelo : String
  pub semilla : ℕ
  pub codigo_version : String
  pub emitido_en : String
  pub pronostico : PronosticoFechado F
  pub fallo : Option FalloPronostico

abbrev pub Fallos : Type 0
Fallos = List (ℕ × FalloPronostico)

-- `(fallos or {}).get(origen)`
abbrev pub fallo_en : ℕ → Fallos → Option FalloPronostico
fallo_en o [] = none
fallo_en o ((k, f) ∷ fs) = let resto = fallo_en o fs in if k == o then some f else resto

-- `pd.date_range(primero, periods=n)`, and `equals`.
abbrev pub rango : ℕ → List ℕ → List ℕ
rango primero [] = []
rango primero (f ∷ fs) = primero ∷ rango (suc primero) fs

abbrev pub mismas : List ℕ → List ℕ → Bool
mismas [] [] = true
mismas (a ∷ as') (b ∷ bs) = (a == b) && mismas as' bs
mismas _ _ = false

abbrev pub es_vacia : {A : Type 0} → List A → Bool
es_vacia [] = true
es_vacia (a ∷ xs) = false

abbrev pub es_ninguno : {A : Type 0} → Option A → Bool
es_ninguno none = true
es_ninguno (some a) = false

abbrev pub es_unidad : String → String → String → ℕ → Unidad → Bool
es_unidad r sku cid o u =
    (u.run_id == r) && (u.sku == sku) && (u.candidato_id == cid) && (u.origen == o)

module _ (x : Externo) where
  open x use {fl}

  abbrev pub Valores : Type 0
  Valores = List (Option fl.F)

  abbrev pub o_finito : fl.F → Option fl.F
  o_finito v = if x.finito v then some v else none

  -- `_valores`
  abbrev pub valores_de : PronosticoFechado fl.F → Valores
  valores_de p =
      if length p.valores == length p.fechas
      then map o_finito p.valores
      else replicate (length p.fechas) none

  abbrev pub salida_invalida : String → SerieCandidato fl.F → ℕ → FalloPronostico
  salida_invalida sku serie o = record {
    sku = sku;
    candidato_id = serie.candidato_id;
    modelo = serie.modelo;
    origen = o;
    campo = "valores";
    codigo_error = "pronostico_invalido";
    mensaje = "sku=" <> (sku <> (" candidato_id=" <> (serie.candidato_id <> ": salida invalida")));
  }

  abbrev pub es_de : String → SerieCandidato fl.F → ℕ → FalloPronostico → Bool
  es_de sku serie o f =
      (f.sku == sku)
      && (f.candidato_id == serie.candidato_id)
      && (f.origen == o)
      && (f.modelo == serie.modelo)

  -- The failure of a unit, and the values that are stored.
  abbrev pub juzgar_fallo :
      String
      → SerieCandidato fl.F
      → PronosticoFechado fl.F
      → Option FalloPronostico
      → Result EvidenciaError (Option FalloPronostico × Valores)
  juzgar_fallo sku serie p none =
      let vs = valores_de p in
      ok (if any es_ninguno vs then some (salida_invalida sku serie p.origen) else none, vs)
  juzgar_fallo sku serie p (some f) =
      if es_de sku serie p.origen f
      then ok (some f, replicate (length p.fechas) none)
      else err inconsistente

  abbrev pub causa_de : Option FalloPronostico → Option String
  causa_de none = none
  causa_de (some f) = some (x.json_fallo f)

  abbrev pub unidad_de :
      String → String → SerieCandidato fl.F → Traza → ℕ → Option FalloPronostico → Unidad
  unidad_de r sku serie t o fallo = record {
    run_id = r;
    sku = sku;
    candidato_id = serie.candidato_id;
    origen = o;
    familia = serie.familia;
    modelo = serie.modelo;
    causa = causa_de fallo;
    emitido_en = t.emitido_en;
    codigo_version = t.codigo_version;
    semilla = t.semilla;
  }

  -- `enumerate(zip(fechas, valores), start=1)`
  abbrev pub filas_desde :
      ℕ → String → String → String → ℕ → List ℕ → Valores → List (Pronostico fl.F)
  filas_desde h r sku cid o [] vs = []
  filas_desde h r sku cid o (f ∷ fs) [] = []
  filas_desde h r sku cid o (f ∷ fs) (v ∷ vs) =
      record { run_id = r; sku = sku; candidato_id = cid; origen = o; h = h; fecha = f; valor = v }
      ∷ filas_desde (suc h) r sku cid o fs vs

  abbrev pub tiene_sku : String → String → List (De String) → Bool
  tiene_sku r sku filas = any (λ f. (f.0 == r) && (f.1 == sku)) filas

  unfoldable pub confirmar :
      String
      → String
      → SerieCandidato fl.F
      → Traza
      → PronosticoFechado fl.F
      → Result EvidenciaError (Option FalloPronostico × Valores)
      → Accion x ℕ
  confirmar r sku serie t p (err e) b = (err e, b)
  confirmar r sku serie t p (ok (fallo, vs)) b =
      if tiene_sku r sku b.skus
      then (
        ok 1,
        record b {
          unidades = b.unidades ++ unidad_de r sku serie t p.origen fallo ∷ [];
          pronosticos =
              b.pronosticos ++ filas_desde 1 r sku serie.candidato_id p.origen p.fechas vs;
        },
      )
      else (err integridad, b)

  -- One turn of the loop: the number of new units, 0 or 1.
  unfoldable pub insertar_unidad :
      String → String → SerieCandidato fl.F → Traza → Fallos → PronosticoFechado fl.F → Accion x ℕ
  insertar_unidad r sku serie t fallos p b =
      if any (es_unidad r sku serie.candidato_id p.origen) b.unidades
      then (ok 0, b)
      else if es_vacia p.fechas || not (mismas p.fechas (rango (suc p.origen) p.fechas))
      then (err inconsistente, b)
      else confirmar r sku serie t p (juzgar_fallo sku serie p (fallo_en p.origen fallos)) b

  unfoldable pub insertar_unidades :
      String
      → String
      → SerieCandidato fl.F
      → Traza
      → Fallos
      → List (PronosticoFechado fl.F)
      → Accion x ℕ
  insertar_unidades r sku serie t fallos [] b = (ok 0, b)
  insertar_unidades r sku serie t fallos (p ∷ ps) b =
      (do
        una ← insertar_unidad r sku serie t fallos p
        otras ← insertar_unidades r sku serie t fallos ps
        (λ b'. (ok (una + otras), b')))
        b

  unfoldable pub guardar_unidades :
      String → String → SerieCandidato fl.F → Traza → Fallos → Accion x ℕ
  guardar_unidades r sku serie t fallos = transaccion x (do
    estado ← exigir_estado x r es_en_curso "guardar_unidades"
    insertar_unidades r sku serie t fallos serie.pronosticos)

  abbrev pub serie_de : UnidadPronostico fl.F → SerieCandidato fl.F
  serie_de u = record {
    candidato_id = u.candidato_id;
    familia = u.familia;
    modelo = u.modelo;
    pronosticos = u.pronostico ∷ [];
  }

  abbrev pub traza_de : UnidadPronostico fl.F → Traza
  traza_de u = record {
    codigo_version = some u.codigo_version;
    semilla = some u.semilla;
    emitido_en = some u.emitido_en;
  }

  abbrev pub fallos_de : ℕ → Option FalloPronostico → Fallos
  fallos_de o none = []
  fallos_de o (some f) = (o, f) ∷ []

  unfoldable pub insertar_generadas : String → List (UnidadPronostico fl.F) → Accion x ℕ
  insertar_generadas r [] b = (ok 0, b)
  insertar_generadas r (u ∷ us) b =
      (do
        una ←
            insertar_unidades r u.sku (serie_de u) (traza_de u)
              (fallos_de u.pronostico.origen u.fallo) (u.pronostico ∷ [])
        otras ← insertar_generadas r us
        (λ b'. (ok (una + otras), b')))
        b

  unfoldable pub guardar_unidades_generadas : String → List (UnidadPronostico fl.F) → Accion x ℕ
  guardar_unidades_generadas r [] b = (ok 0, b)
  guardar_unidades_generadas r (u ∷ us) b =
      transaccion x
        (do
          estado ← exigir_estado x r es_en_curso "guardar_unidades_generadas"
          insertar_generadas r (u ∷ us))
        b
