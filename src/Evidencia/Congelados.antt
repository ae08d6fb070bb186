-- ===== src/Evidencia/Congelados.antt =====
-- `fijar_protocolo` writes only what an effect allows.
use pred_engine.Prelude.{
  String, ◌≡◌, refl, true, not, ℕ, Option, none, some, List, [], ◌∷◌, ◌++◌, map, length, ◌&&◌, ◌||◌,
  ◌==◌, string_eq, nat_eq, Bool-cases, inl, inr,
}
use pred_engine.Prelude.Sorted.{any, sorted, str_lt}
use pred_engine.Prelude.Result.{Result, ok, err, raise_if}
use pred_engine.Prelude.Exec.{continue}
use pred_engine.Evidencia.Contratos.{
  integridad, EstadoCorrida, EvidenciaError, De, Base, Externo, Protocolo, Exclusion,
}
use pred_engine.Evidencia.Tablas.{Accion, con_run, insertar, de}
use pred_engine.Evidencia.Registro.{sin_repetir, misma_clave}
use pred_engine.Evidencia.Protocolo.{
  Peticion, Tardio, protocolo_guardado, corte_de, no_es_rechazada, esta_abierta, mismo_protocolo,
  mismos, igual_exclusion, causa_lanzamiento_tardio, misma_exclusion, no_admitida, es_evaluado,
  escribir_corte, comparar_corte, fijar_corte, fijar_texto, fijar_protocolo, por_sku,
}
use pred_engine.Evidencia.Efectos.{
  Efecto, nada, seguido, protocolo, corte, Esta, Esta-mismas, Escribe, exigir-Efecto,
  insertar-append, lift-P, o_integridad-P,
}

module _ (x : Externo) where
  open x use {fl}

  escribir_corte-Efecto :
      (r : String) (s : EstadoCorrida) (t : ℕ) (ts : List String) (es : List Exclusion)
      (b : Base fl)
      → Esta x r s b
      → esta_abierta s ≡ true
      → Efecto x b (escribir_corte x r t ts es b).1
  unfolding escribir_corte
  escribir_corte-Efecto r s t ts es b h a =
      let P : Base fl → Type 0 = λ b'. Efecto x b b' in
      lift-P x P (raise_if (any (es_evaluado x b r) ts) integridad) _ b nada (λ u q.
        o_integridad-P x P (insertar misma_clave b.tardios (con_run r ts)) _ b nada (λ tardios et.
          lift-P x P (raise_if (any (no_admitida x b r) es) integridad) _ b nada (λ u q.
            o_integridad-P x P (insertar (misma_exclusion x) b.exclusiones (con_run r es)) _ b nada
              (λ exc ee.
                let escrito : Efecto x b (record b {
                  cortes = b.cortes ++ (r, t) ∷ [];
                  tardios = tardios;
                  exclusiones = exc;
                }) =
                  rw
                    (
                      insertar-append misma_clave b.tardios (con_run r ts) et,
                      insertar-append (misma_exclusion x) b.exclusiones (con_run r es) ee,
                    )
                    (corte r s t ts es h a) in
                escrito))))

  comparar_corte-Efecto :
      (r : String) (previo : Option ℕ) (s : EstadoCorrida) (t : ℕ) (ts : List String)
      (es : List Exclusion) (b : Base fl)
      → Esta x r s b
      → Efecto x b (comparar_corte x r previo s t ts es b).1
  comparar_corte-Efecto r none s t ts es b h = elim (Bool-cases (esta_abierta s)) [
    | inl a ↦ rw a (escribir_corte-Efecto r s t ts es b h a)
    | inr a ↦ rw a nada
  ]
  comparar_corte-Efecto r (some p) s t ts es b h =
      elim (Bool-cases (
        (p == t)
        && mismos ◌==◌ (sorted str_lt (map (λ (t : De String). t.1) (de r b.tardios))) ts
        && mismos (igual_exclusion x)
            (sorted (por_sku x) (map (λ (e : De Exclusion). e.1) (de r b.exclusiones))) es)) [
              | inl i ↦ rw i nada
              | inr i ↦ rw i nada
            ]

  fijar_corte-Efecto :
      (r : String) (s : EstadoCorrida) (t : ℕ) (ls : List Tardio) (es : List Exclusion)
      (b : Base fl)
      → Esta x r s b
      → Efecto x b (fijar_corte x r s t ls es b).1
  unfolding fijar_corte
  fijar_corte-Efecto r s t ls es b h =
      elim (Bool-cases (
        any (λ (e : Tardio). not (e.cause == causa_lanzamiento_tardio)) ls
        || not (
            length (sorted str_lt (sin_repetir (map (λ (e : Tardio). e.sku_id) ls)))
            == length ls))) [
              | inl i ↦ rw i nada
              | inr i ↦ rw i (
                  comparar_corte-Efecto r (corte_de r b.cortes) s t
                    (sorted str_lt (sin_repetir (map (λ (e : Tardio). e.sku_id) ls)))
                    (sorted (por_sku x) es) b h)
            ]

  fijar_texto-Efecto :
      (previa : Option Protocolo) (p : Protocolo) (s : EstadoCorrida) (b : Base fl)
      → protocolo_guardado p.run_id b.protocolos ≡ previa
      → Esta x p.run_id s b
      → Efecto x b (fijar_texto x previa p b).1
        × ((fijar_texto x previa p b).1.corridas ≡ b.corridas)
  fijar_texto-Efecto none p s b e h = (protocolo p e, refl)
  fijar_texto-Efecto (some q) p s b e h = elim (Bool-cases (mismo_protocolo q p)) [
    | inl i ↦ rw i (nada, refl)
    | inr i ↦ rw i (nada, refl)
  ]

  luego-Efecto :
      {A B : Type 0} (r : String) (s : EstadoCorrida) (b : Base fl)
      (p : Result EvidenciaError A × Base fl) (f : A → Accion x B)
      → Esta x r s b
      → Efecto x b p.1 × (p.1.corridas ≡ b.corridas)
      → ((a : A) (b' : Base fl) → Esta x r s b' → Efecto x b' (f a b').1)
      → Efecto x b (continue p f).1
  luego-Efecto r s b (ok a, b') f g (e, k) h = seguido e (h a b' (Esta-mismas x r s b b' k g)) k
  luego-Efecto r s b (err e', b') f g (e, k) h = e

  pub fijar_protocolo-Escribe : (p : Peticion) → Escribe x (fijar_protocolo x p)
  unfolding fijar_protocolo
  fijar_protocolo-Escribe p =
      let r = p.protocolo.run_id in
      exigir-Efecto x r "fijar_protocolo" no_es_rechazada _ (λ s b a h.
        luego-Efecto r s b (fijar_texto x (protocolo_guardado r b.protocolos) p.protocolo b)
          (λ u. fijar_corte x r s p.t_star p.lanzamientos_tardios p.exclusiones) h
          (fijar_texto-Efecto (protocolo_guardado r b.protocolos) p.protocolo s b refl h)
          (λ u b'. fijar_corte-Efecto r s p.t_star p.lanzamientos_tardios p.exclusiones b'))
