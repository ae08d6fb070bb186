-- ===== src/Veredictos/Sustento.antt =====
-- veredictos.py: what stands behind a verdict.
use pred_engine.Prelude.{
  ℕ, String, ◌≡◌, refl, ◌⊎◌, ◌≤◌, ◌<◌, inl, inr, Bool, true, false, Option, none, some, List, [],
  ◌∷◌, Bool-cases, Option-cases, if◌then◌else◌, ◌&&◌, ◌||◌, not, arith, subst, ltb, nat_beq, ◌==◌,
  string_eq,
}
use pred_engine.Prelude.Result.{ok, >>=-eq-ok, ok_injective}
use pred_engine.Prelude.Sorted.{find, sorted}
use pred_engine.Veredictos.Contratos.{
  Flotantes, MetricasCandidato, EvaluacionSku, EvaluacionBloques, PoliticaSeleccion,
  SeleccionCategoria, familia_linea_base,
}
use pred_engine.Veredictos.Veredicto.{
  validado, fallo_tecnico, no_evaluable, evidencia_insuficiente, exploratorio, es_real, mejora,
  veredicto_de, veredicto_sku, VeredictoSku, instancia, familia_juzgada, tiene_familia, incompleta,
  todos_fallaron, sin_pronostico, instancias_de, ventanas_de, razon_de, agregadas_de, antes,
}

cadena :
    (a b c d : Bool)
    → (if a
        then fallo_tecnico
        else if b
        then no_evaluable
        else if c
        then evidencia_insuficiente
        else if d
        then validado
        else exploratorio)
      ≡ validado
    → (b ≡ false) × (c ≡ false) × (d ≡ true)
cadena true b c d e = cc e
cadena false true c d e = cc e
cadena false false true d e = cc e
cadena false false false true e = (refl, refl, refl)
cadena false false false false e = cc e

tres : (a b c : Bool) → (a && b && not c) ≡ true → (a ≡ true) × (b ≡ true) × (c ≡ false)
tres true true false e = (refl, refl, refl)
tres true true true e = cc e
tres true false c e = cc e
tres false b c e = cc e

positivo : (n : ℕ) → nat_beq n 0 ≡ false → 0 < n
positivo n e = ground arith

o_falsos : (a b : Bool) → (a || b) ≡ false → (a ≡ false) × (b ≡ false)
o_falsos a b e = ground arith

find-pasa : {A : Type 0} (p : A → Bool) (xs : List A) {v : A} → find p xs ≡ some v → p v ≡ true
find-pasa p [] e = cc e
find-pasa p (x ∷ xs) {v} e = elim (Bool-cases (p x)) [
  | inl b ↦ let q : x ≡ v = cc (rw b at e) in subst (λ z. p z ≡ true) q b
  | inr b ↦ find-pasa p xs (rw b at e)
]

no_cierto : (a : Bool) → not a ≡ true → a ≡ false
no_cierto a e = ground arith

y_ciertos : (a b : Bool) → (a && b) ≡ true → (a ≡ true) × (b ≡ true)
y_ciertos a b e = ground arith

module _ (fl : Flotantes) where
  open fl use {F, uno, lt}

  es_real-true : (d : Option Bool) → es_real fl d ≡ true → d ≡ some false
  es_real-true none e = cc e
  es_real-true (some true) e = cc e
  es_real-true (some false) e = refl

  mejora-true : (o : Option F) → mejora fl o ≡ true → (r : F) × (o ≡ some r) × (lt r uno ≡ true)
  mejora-true none e = cc e
  mejora-true (some r) e = (r, refl, e)

  validado_de :
      (prueba : EvaluacionSku fl) (is : List (MetricasCandidato fl))
      (c : Option (MetricasCandidato fl)) (p : PoliticaSeleccion fl) (d : Option Bool)
      → veredicto_de fl prueba is c p d ≡ validado
      → (d ≡ some false)
        × (0 < prueba.n_obs_validas_reserva)
        × (prueba.reserva_toda_cero ≡ false)
        × (p.n_min ≤ ventanas_de fl c)
        × (incompleta fl prueba (p.familias_elegibles prueba.sku_class) ≡ false)
        × ((r : F) × (razon_de fl (agregadas_de fl c) ≡ some r) × (lt r uno ≡ true))
  unfolding veredicto_de
  validado_de prueba is c p d e =
      let (x, y, z) =
        cadena (todos_fallaron fl prueba || sin_pronostico fl is)
          (nat_beq prueba.n_obs_validas_reserva 0)
          (ltb (ventanas_de fl c) p.n_min || prueba.reserva_toda_cero) _ e in
      let (u, v, w) =
        tres (es_real fl d) (mejora fl (razon_de fl (agregadas_de fl c)))
          (incompleta fl prueba (p.familias_elegibles prueba.sku_class)) z in
      (
        es_real-true d u,
        positivo _ x,
        (o_falsos _ _ y).1,
        (let yy : ltb (ventanas_de fl c) p.n_min ≡ false = (o_falsos _ _ y).0 in ground arith),
        w,
        mejora-true _ v,
      )

  -- A SKU that is validated is so on real data, with observations in the block of test that are not
  -- all zero, with as many valid windows as the policy asks for, a ratio below 1, and no failure of
  -- a candidate that competes.
  pub veredicto_sku-validado :
      (e : EvaluacionBloques fl) (s : SeleccionCategoria F) (p : PoliticaSeleccion fl)
      (d : Option Bool) (v : VeredictoSku fl)
      → veredicto_sku fl e s p d ≡ ok v
      → v.veredicto ≡ validado
      → (d ≡ some false)
        × (0 < e.prueba.n_obs_validas_reserva)
        × (e.prueba.reserva_toda_cero ≡ false)
        × (p.n_min ≤ v.n_ventanas)
        × (v.comparacion_incompleta ≡ false)
        × ((r : F) × (v.razon_sn ≡ some r) × (lt r uno ≡ true))
  unfolding veredicto_sku
  veredicto_sku-validado e s p d v eq h =
      let (c, ec, ev) = >>=-eq-ok (instancia fl e (familia_juzgada fl e.prueba s).0) _ eq in
      let q = ok_injective ev in
      subst
        (λ t.
          (t.veredicto ≡ validado)
          → (d ≡ some false)
            × (0 < e.prueba.n_obs_validas_reserva)
            × (e.prueba.reserva_toda_cero ≡ false)
            × (p.n_min ≤ t.n_ventanas)
            × (t.comparacion_incompleta ≡ false)
            × ((r : F) × (t.razon_sn ≡ some r) × (lt r uno ≡ true)))
        q (validado_de e.prueba (instancias_de fl e.prueba (familia_juzgada fl e.prueba s).0) c p d)
        h

  -- A champion that is not the baseline and has no candidate in the block of test is replaced, when
  -- the family judged differs from it, by a family that has a median and a candidate in that block;
  -- and the family judged is always the champion, or such a replacement of it.
  pub familia_juzgada-TieneCandidato :
      (prueba : EvaluacionSku fl) (s : SeleccionCategoria F)
      → ((familia_juzgada fl prueba s ≡ (s.familia_campeona, none)))
        ⊎ ((familia_juzgada fl prueba s).1 ≡ some s.familia_campeona)
          × (tiene_familia fl s.familia_campeona prueba.candidatos ≡ false)
          × (tiene_familia fl (familia_juzgada fl prueba s).0 prueba.candidatos ≡ true)
  unfolding familia_juzgada
  familia_juzgada-TieneCandidato prueba s =
      let cs = prueba.candidatos in
      let f = s.familia_campeona in
      let sirve : String × F → Bool = λ q. not (q.0 == f) && tiene_familia fl q.0 cs in
      elim (Bool-cases (not (f == familia_linea_base) && not (tiene_familia fl f cs))) [
        | inr queda ↦ inl (rw queda)
        | inl falta ↦ elim (Option-cases (find sirve (sorted (antes fl) s.medianas_r))) [
          | inl ninguna ↦ inl (rw (falta, ninguna))
          | inr (q, hay) ↦ inr (
              rw (falta, hay)
                (
                  refl,
                  no_cierto _ (y_ciertos (not (f == familia_linea_base)) _ falta).1,
                  (y_ciertos (not (q.0 == f)) _
                      (find-pasa sirve (sorted (antes fl) s.medianas_r) hay)).1,
                ))
        ]
      ]
