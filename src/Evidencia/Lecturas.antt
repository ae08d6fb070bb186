-- ===== src/Evidencia/Lecturas.antt =====
-- persistencia_evidencia/recuperacion.py: `cargar_serie` on the rows of one unit.
use pred_engine.Prelude.{
  String, ◌≡◌, refl, ap, true, false, ℕ, suc, ◌<◌, Option, none, some, List, [], ◌∷◌, map,
  string_eq, nat_eq, nat_beq, ltb, lt→ltb, Todos, length, arith,
}
use pred_engine.Prelude.Sorted.{all, sorted}
use pred_engine.Prelude.Filtros.{Ascienden, sorted-Ascienden}
use pred_engine.Prelude.Result.{ok}
use pred_engine.Evidencia.Contratos.{Externo, Pronostico, PronosticoFechado, SerieCandidato}
use pred_engine.Evidencia.Unidades.{Traza, Valores, es_vacia, mismas, rango, unidad_de, filas_desde}
use pred_engine.Evidencia.Recuperacion.{es_fila, por_h, o_nan, no_cuadra, leer_ventana}

module _ (x : Externo) where
  open x use {fl}

  -- As many values as dates, each of them finite.
  abbrev pub Sana : PronosticoFechado fl.F → Type 0
  Sana p = (length p.valores ≡ length p.fechas) × (all x.finito p.valores ≡ true)

  -- The days behind the origin, one at least.
  abbrev pub Diaria : PronosticoFechado fl.F → Type 0
  Diaria p = (es_vacia p.fechas ≡ false) × (mismas p.fechas (rango (suc p.origen) p.fechas) ≡ true)

  abbrev pub Cuadra : Option ℕ → PronosticoFechado fl.F → Type 0
  Cuadra h p = no_cuadra h (length p.fechas) ≡ false

  module _ (r sku cid : String) (o : ℕ) where
    fechas_desde :
        (k : ℕ) (fs : List ℕ) (vs : List fl.F)
        → length vs ≡ length fs
        → map (λ (f : Pronostico fl.F). f.fecha) (filas_desde x k r sku cid o fs (map some vs)) ≡ fs
    fechas_desde k [] [] e = refl
    fechas_desde k [] (v ∷ vs) e = refl
    fechas_desde k (f ∷ fs) [] e = absurd (omega arith)
    fechas_desde k (f ∷ fs) (v ∷ vs) e = ap (λ w. f ∷ w) (fechas_desde (suc k) fs vs (omega arith))

    valores_desde :
        (k : ℕ) (fs : List ℕ) (vs : List fl.F)
        → length vs ≡ length fs
        → map
            (λ (f : Pronostico fl.F). o_nan x f.valor)
            (filas_desde x k r sku cid o fs (map some vs))
          ≡ vs
    valores_desde k [] [] e = refl
    valores_desde k [] (v ∷ vs) e = absurd (omega arith)
    valores_desde k (f ∷ fs) [] e = absurd (omega arith)
    valores_desde k (f ∷ fs) (v ∷ vs) e =
        ap (λ w. v ∷ w) (valores_desde (suc k) fs vs (omega arith))

    numeradas :
        (k : ℕ) (fs : List ℕ) (vs : Valores x)
        → mismas
            (map (λ (f : Pronostico fl.F). f.h) (filas_desde x k r sku cid o fs vs))
            (rango k (map (λ (f : Pronostico fl.F). f.h) (filas_desde x k r sku cid o fs vs)))
          ≡ true
    numeradas k [] vs = refl
    numeradas k (f ∷ fs) [] = refl
    numeradas k (f ∷ fs) (v ∷ vs) = rw ((nat_eq.refleja k k).1 refl, numeradas (suc k) fs vs) refl

    cuantas :
        (k : ℕ) (fs : List ℕ) (vs : List fl.F)
        → length vs ≡ length fs
        → length (filas_desde x k r sku cid o fs (map some vs)) ≡ length fs
    cuantas k [] vs e = refl
    cuantas k (f ∷ fs) [] e = absurd (omega arith)
    cuantas k (f ∷ fs) (v ∷ vs) e = ap suc (cuantas (suc k) fs vs (omega arith))

    hay_filas :
        (k : ℕ) (fs : List ℕ) (vs : List fl.F)
        → length vs ≡ length fs
        → es_vacia (filas_desde x k r sku cid o fs (map some vs)) ≡ es_vacia fs
    hay_filas k [] vs e = refl
    hay_filas k (f ∷ fs) [] e = absurd (omega arith)
    hay_filas k (f ∷ fs) (v ∷ vs) e = refl

    posteriores :
        (j k : ℕ) (fs : List ℕ) (vs : Valores x)
        → j < k
        → Todos (λ (f : Pronostico fl.F). ltb j f.h ≡ true) (filas_desde x k r sku cid o fs vs)
    posteriores j k [] vs h = tt
    posteriores j k (f ∷ fs) [] h = tt
    posteriores j k (f ∷ fs) (v ∷ vs) h = (lt→ltb j k h, posteriores j (suc k) fs vs (omega arith))

    filas-Ascienden :
        (k : ℕ) (fs : List ℕ) (vs : Valores x)
        → Ascienden (λ f g. por_h x f g ≡ true) (filas_desde x k r sku cid o fs vs)
    filas-Ascienden k [] vs = tt
    filas-Ascienden k (f ∷ fs) [] = tt
    filas-Ascienden k (f ∷ fs) (v ∷ vs) =
        (posteriores k (suc k) fs vs (omega arith), filas-Ascienden (suc k) fs vs)

    -- The rows of a unit are those of its origin, and of no other.
    pub filas_suyas :
        (k : ℕ) (fs : List ℕ) (vs : Valores x)
        → Todos (λ f. es_fila x r sku cid o f ≡ true) (filas_desde x k r sku cid o fs vs)
    filas_suyas k [] vs = tt
    filas_suyas k (f ∷ fs) [] = tt
    filas_suyas k (f ∷ fs) (v ∷ vs) = (
      rw
          (
            (string_eq.refleja r r).1 refl,
            (string_eq.refleja sku sku).1 refl,
            (string_eq.refleja cid cid).1 refl,
            (nat_eq.refleja o o).1 refl,
          )
          refl,
      filas_suyas (suc k) fs vs,
    )

    pub filas_ajenas :
        (q k : ℕ) (fs : List ℕ) (vs : Valores x)
        → nat_beq o q ≡ false
        → Todos (λ f. es_fila x r sku cid q f ≡ false) (filas_desde x k r sku cid o fs vs)
    filas_ajenas q k [] vs h = tt
    filas_ajenas q k (f ∷ fs) [] h = tt
    filas_ajenas q k (f ∷ fs) (v ∷ vs) h = (
      rw
          (
            (string_eq.refleja r r).1 refl,
            (string_eq.refleja sku sku).1 refl,
            (string_eq.refleja cid cid).1 refl,
            h,
          )
          refl,
      filas_ajenas q (suc k) fs vs h,
    )

  -- The rows of a forecast, as they are stored.
  abbrev pub filas_de : String → String → String → PronosticoFechado fl.F → List (Pronostico fl.F)
  filas_de r sku cid p = filas_desde x 1 r sku cid p.origen p.fechas (map some p.valores)

  -- Reading the rows of one forecast gives it back.
  pub leer_ventana-filas_de :
      (r sku : String) (serie : SerieCandidato fl.F) (t : Traza) (h : Option ℕ)
      (p : PronosticoFechado fl.F)
      → Sana p
      → Diaria p
      → Cuadra h p
      → leer_ventana x h
          (unidad_de x r sku serie t p.origen none)
          (sorted (por_h x) (filas_de r sku serie.candidato_id p))
        ≡ ok p
  leer_ventana-filas_de r sku serie t h p s d c =
      rw
        (
          sorted-Ascienden (por_h x) (filas_de r sku serie.candidato_id p)
              (filas-Ascienden r sku serie.candidato_id p.origen 1 p.fechas (map some p.valores)),
          fechas_desde r sku serie.candidato_id p.origen 1 p.fechas p.valores s.0,
          valores_desde r sku serie.candidato_id p.origen 1 p.fechas p.valores s.0,
          numeradas r sku serie.candidato_id p.origen 1 p.fechas (map some p.valores),
          hay_filas r sku serie.candidato_id p.origen 1 p.fechas p.valores s.0,
          cuantas r sku serie.candidato_id p.origen 1 p.fechas p.valores s.0,
          d.0,
          c,
          d.1,
          s.1,
        )
        refl
