-- ===== src/Evidencia/Altas.antt =====
-- `registrar_corrida` writes only what an effect allows.
use pred_engine.Prelude.{
  String, ◌≡◌, refl, sym, subst, ◌∙◌, Bool, true, false, Option, none, some, List, [], ◌∷◌, ◌==◌,
  string_eq, nat_eq, if◌then◌else◌, Bool-cases, Option-cases, inl, inr,
}
use pred_engine.Prelude.Sorted.{any}
use pred_engine.Prelude.Result.{Result, ok, err, ok_injective}
use pred_engine.Prelude.Exec.{continue, ◌>>=◌}
use pred_engine.Evidencia.Contratos.{EvidenciaError, Base, Externo, Corrida, IdentidadCorrida}
use pred_engine.Evidencia.Tablas.{transaccion, con_run, estado_en, corrida_de, insertar}
use pred_engine.Evidencia.Registro.{
  Entrada, lote_rechazado, valido, Alta, Origen, no_corresponde, alta_de, si_corresponde, preparar,
  es_rechazo, choca, misma_clave, mismo_fallo, dar_de_alta, ya_registrada, misma_referencia,
  segun_previa, corrida_nueva, ingesta_nueva, con_ingesta, otro_origen, origenes, rechazar,
  registrar_en, con_su_id, registrar_corrida, run_id_de,
}
use pred_engine.Evidencia.Efectos.{
  Inicial, empieza, se_rechaza, Efecto, nada, seguido, ingesta, alta, rechazo, Escribe,
  cerrar-Efecto, insertar-append,
}

module _ (x : Externo) where
  open x use {fl}

  pub corrida_de-none :
      (r : String) (cs : List Corrida) → corrida_de r cs ≡ none → estado_en r cs ≡ none
  corrida_de-none r [] h = refl
  corrida_de-none r (c ∷ cs) h = elim (Bool-cases (c.run_id == r)) [
    | inl b ↦ absurd (cc (h, b))
    | inr b ↦ rw b (corrida_de-none r cs (sym (rw b refl) ∙ h))
  ]

  dar_de_alta-Efecto :
      (c : Corrida) (a : Alta) (b : Base fl)
      → estado_en c.run_id b.corridas ≡ none
      → Inicial c.estado
      → Efecto x b (dar_de_alta x c a b).1
  unfolding dar_de_alta
  dar_de_alta-Efecto c a b h i = elim (Bool-cases (any (choca x b) (con_run c.run_id a.skus))) [
    | inl e ↦ rw e nada
    | inr e ↦ elim (Option-cases (insertar misma_clave b.skus (con_run c.run_id a.skus))) [
      | inl s ↦ rw (e, s) nada
      | inr (ss, s) ↦
          elim (Option-cases (insertar mismo_fallo b.fallos (con_run c.run_id a.fallos))) [
            | inl f ↦ rw (e, s, f) nada
            | inr (fs, f) ↦
                rw
                  (
                    e,
                    s,
                    f,
                    insertar-append misma_clave b.skus (con_run c.run_id a.skus) s,
                    insertar-append mismo_fallo b.fallos (con_run c.run_id a.fallos) f,
                  )
                  (alta c a.skus a.fallos h i)
          ]
    ]
  ]

  ya_registrada-Efecto :
      (p c : Corrida) (rechaza : Bool) (b : Base fl) → Efecto x b (ya_registrada x p c rechaza b).1
  unfolding ya_registrada
  ya_registrada-Efecto p c rechaza b = elim (Bool-cases (misma_referencia p c)) [
    | inl e ↦ rw e (segun rechaza)
    | inr e ↦ rw e nada
  ]
    where
      segun :
          (rechaza : Bool)
          → Efecto x b (
              if rechaza
              then record b { corridas = rechazar c.run_id c.causa_rechazo b.corridas }
              else b)
      segun true = rechazo c.run_id c.causa_rechazo
      segun false = nada

  si_corresponde-Inicial :
      (no_va : Bool) (a : Alta) {a' : Alta}
      → Inicial a.estado
      → si_corresponde x no_va a ≡ ok a'
      → Inicial a'.estado
  si_corresponde-Inicial true a h e = cc
  si_corresponde-Inicial false a h e = subst (λ (a : Alta). Inicial a.estado) (ok_injective e) h

  preparar-Inicial :
      (i : IdentidadCorrida) (entrada : Entrada x.O x.Fraccion) (o : Origen) {a : Alta}
      → preparar x i entrada o ≡ ok a
      → Inicial a.estado
  preparar-Inicial i (lote_rechazado m d) o e =
      subst (λ (a : Alta). Inicial a.estado) (ok_injective e) se_rechaza
  preparar-Inicial i (valido h) o e =
      si_corresponde-Inicial (no_corresponde x i h o) (alta_de x h o) empieza e

  segun_previa-Efecto :
      (previa : Option Corrida) (c : Corrida) (a : Alta) (rechaza : Bool) (b : Base fl)
      → corrida_de c.run_id b.corridas ≡ previa
      → Inicial c.estado
      → Efecto x b (segun_previa x previa c a rechaza b).1
  segun_previa-Efecto none c a rechaza b h i =
      dar_de_alta-Efecto c a b (corrida_de-none c.run_id b.corridas h) i
  segun_previa-Efecto (some p) c a rechaza b h i = ya_registrada-Efecto p c rechaza b

  registrar_en-Efecto :
      (i : IdentidadCorrida) (o : Origen) (rechaza : Bool) (a : Alta) (b : Base fl)
      → Inicial a.estado
      → Efecto x b (registrar_en x i o rechaza a b).1
  registrar_en-Efecto i o rechaza a b h =
      elim (Bool-cases (
        any (otro_origen o.datos_sinteticos)
          (origenes o.ingesta_sha256 i.ingesta_ref_m1 b.corridas b.ingestas))) [
            | inl e ↦ rw e nada
            | inr e ↦ rw e (
                seguido (ingesta (con_ingesta (ingesta_nueva x i o) b.ingestas))
                  (segun_previa-Efecto (corrida_de (run_id_de x i) b.corridas)
                    (corrida_nueva x i o a) a rechaza
                    (record b { ingestas = con_ingesta (ingesta_nueva x i o) b.ingestas }) refl h)
                  refl)
          ]

  pub registrar_corrida-Escribe :
      (i : IdentidadCorrida) (entrada : Entrada x.O x.Fraccion) (o : Origen)
      → Escribe x (registrar_corrida x i entrada o)
  unfolding registrar_corrida
  registrar_corrida-Escribe i entrada o b = segun (preparar x i entrada o) refl
    where
      final :
          (p : Result EvidenciaError Bool × Base fl)
          → Efecto x b p.1
          → Efecto x b (continue p (con_su_id x i)).1
      final (ok n, b') h = h
      final (err e, b') h = h

      segun :
          (r : Result EvidenciaError Alta)
          → preparar x i entrada o ≡ r
          → Efecto x b
              (continue
                (r, b)
                (λ alta.
                  transaccion x (registrar_en x i o (es_rechazo x entrada) alta)
                  >>= con_su_id x i)).1
      segun (err e) q = nada
      segun (ok a) q = final (transaccion x (registrar_en x i o (es_rechazo x entrada) a) b) (
          cerrar-Efecto x b _
            (registrar_en-Efecto i o (es_rechazo x entrada) a b (preparar-Inicial i entrada o q)))
