-- ===== src/Evidencia/Completas.antt =====
-- persistencia_evidencia: a run that is PUBLICADA has a verdict for each of its products.
use mathlib.Core.List.{Memᴰ}
use pred_engine.Prelude.{
  String, ◌≡◌, ◌≢◌, refl, sym, ap, subst, ◌∙◌, Bool, true, false, not, Option, some, List, [], ◌∷◌,
  ◌++◌, ◌==◌, ◌&&◌, ◌||◌, string_eq, Bool-cases, inl, inr,
}
use pred_engine.Prelude.Sorted.{any, filter}
use pred_engine.Veredictos.Veredicto.{VeredictoSku}
use pred_engine.Evidencia.Contratos.{
  EstadoCorrida, en_curso, evaluada, seleccionada, publicada, rechazada, De, Base, Externo, Corrida,
}
use pred_engine.Evidencia.Tablas.{estado_en, con_estado, de}
use pred_engine.Evidencia.Registro.{rechazar}
use pred_engine.Evidencia.Publicacion.{Exportador, sin_veredicto}
use pred_engine.Evidencia.Estados.{
  run-eq, estado_en-con_estado, estado_en-ajena, estado_en-corrida_de, estado_de, rechazar_cases,
  estado_en-append,
}
use pred_engine.Evidencia.Congelada.{Vista, Efecto-vista}
use pred_engine.Evidencia.Efectos.{
  Inicial, Efecto, nada, seguido, ingesta, alta, rechazo, unidad, evalua, evidencia, demanda,
  selecciona, publica, protocolo, corte,
}
use pred_engine.Evidencia.Ordenes.{Orden, vacia, correr, correr_conserva}

module _ (x : Externo) where
  open x use {fl}

  -- The test of `publicar` reads the rows of the run only.
  abbrev falta : List (De (VeredictoSku fl)) → De String → Bool
  falta vs s = not (any (λ (v : De (VeredictoSku fl)). v.1.sku == s.1) vs)

  con_veredicto :
      (r sku : String) (vs : List (De (VeredictoSku fl)))
      → any (λ (v : De (VeredictoSku fl)). (v.0 == r) && (v.1.sku == sku)) vs
        ≡ any (λ (v : De (VeredictoSku fl)). v.1.sku == sku) (de r vs)
  unfolding filter
  con_veredicto r sku [] = refl
  con_veredicto r sku (v ∷ vs) = elim (Bool-cases (v.0 == r)) [
    | inl e ↦ rw (e, con_veredicto r sku vs) refl
    | inr e ↦ rw (e, con_veredicto r sku vs) refl
  ]

  sin_veredicto-de :
      (r : String) (vs : List (De (VeredictoSku fl))) (ss : List (De String))
      → sin_veredicto x r vs ss ≡ any (falta (de r vs)) (de r ss)
  unfolding filter
  sin_veredicto-de r vs [] = refl
  sin_veredicto-de r vs (s ∷ ss) = elim (Bool-cases (s.0 == r)) [
    | inl e ↦ rw (e, con_veredicto r s.1 vs, sin_veredicto-de r vs ss) refl
    | inr e ↦ rw (e, sin_veredicto-de r vs ss) refl
  ]

  -- Each run that is PUBLICADA passes that test.
  abbrev pub Completo : Base fl → Type 0
  Completo b =
      (r : String)
      → estado_en r b.corridas ≡ some publicada
      → sin_veredicto x r b.veredictos b.skus ≡ false

  -- A run that was PUBLICADA before a write keeps its verdicts.
  ya_publicada :
      {b b' : Base fl} (r : String)
      → Efecto x b b'
      → Completo b
      → estado_en r b.corridas ≡ some publicada
      → sin_veredicto x r b'.veredictos b'.skus ≡ false
  ya_publicada {b = b} {b' = b'} r e h p =
      sin_veredicto-de r b'.veredictos b'.skus
      ∙ (ap (λ (v : Vista x). any (falta v.veredictos) v.skus) (Efecto-vista x e r p)
          ∙ (sym (sin_veredicto-de r b.veredictos b.skus) ∙ h r p))

  -- No change of the state of a run to another state makes one PUBLICADA.
  antes_publicada :
      (q r : String) (s destino : EstadoCorrida) (cs : List Corrida)
      → estado_en q cs ≡ some s
      → destino ≢ publicada
      → estado_en r (con_estado q destino cs) ≡ some publicada
      → estado_en r cs ≡ some publicada
  antes_publicada q r s destino cs h otro p = elim (Bool-cases (q == r)) [
    | inr e ↦ sym (estado_en-ajena q r destino cs e) ∙ p
    | inl e ↦
        let son : some destino ≡ some publicada =
          sym (estado_en-con_estado q s destino cs h)
          ∙ (ap (λ t. estado_en t (con_estado q destino cs)) (run-eq q r e) ∙ p) in
        absurd (otro (cc son))
  ]

  antes_de_rechazar :
      (q r : String) (causa : Option String) (cs : List Corrida)
      → estado_en r (rechazar q causa cs) ≡ some publicada
      → estado_en r cs ≡ some publicada
  antes_de_rechazar q r causa cs p = elim (rechazar_cases q r causa cs) [
    | inl igual ↦
        estado_en-corrida_de r cs
        ∙ (ap estado_de (sym igual) ∙ (sym (estado_en-corrida_de r (rechazar q causa cs)) ∙ p))
    | inr (s, antes, no_p, ahora) ↦ cc (sym ahora ∙ p)
  ]

  nunca_nace : (s : EstadoCorrida) → Inicial s → s ≢ publicada
  nunca_nace en_curso i = cc
  nunca_nace rechazada i = cc
  nunca_nace evaluada i = elim i [ ]
  nunca_nace seleccionada i = elim i [ ]
  nunca_nace publicada i = elim i [ ]

  antes_del_alta :
      (r : String) (cs : List Corrida) (c : Corrida)
      → Inicial c.estado
      → estado_en r (cs ++ c ∷ []) ≡ some publicada
      → estado_en r cs ≡ some publicada
  antes_del_alta r cs c i p = elim (estado_en-append r cs c) [
    | inl igual ↦ sym igual ∙ p
    | inr (antes, ahora) ↦ absurd (nunca_nace c.estado i (cc (sym ahora ∙ p)))
  ]

  Efecto-Completo : {b b' : Base fl} → Efecto x b b' → Completo b → Completo b'
  Efecto-Completo nada h r p = h r p
  Efecto-Completo (seguido e f k) h r p = Efecto-Completo f (Efecto-Completo e h) r p
  Efecto-Completo (ingesta is) h r p = h r p
  Efecto-Completo (alta {b = b} c ss fs n i) h r p =
      ya_publicada r (alta {b = b} c ss fs n i) h (antes_del_alta r b.corridas c i p)
  Efecto-Completo (rechazo {b = b} q causa) h r p = h r (antes_de_rechazar q r causa b.corridas p)
  Efecto-Completo (unidad q u ps g e t) h r p = h r p
  Efecto-Completo (evalua {b = b} q g i) h r p =
      h r (antes_publicada q r en_curso evaluada b.corridas g (cc) p)
  Efecto-Completo (evidencia {b = b} q ms cs vs g) h r p =
      ya_publicada r (evidencia {b = b} q ms cs vs g) h p
  Efecto-Completo (demanda q os g) h r p = h r p
  Efecto-Completo (selecciona {b = b} q g) h r p =
      h r (antes_publicada q r evaluada seleccionada b.corridas g (cc) p)
  Efecto-Completo (publica {b = b} q g v) h r p = elim (Bool-cases (q == r)) [
    | inl e ↦ subst (λ t. sin_veredicto x t b.veredictos b.skus ≡ false) (run-eq q r e) v
    | inr e ↦ h r (sym (estado_en-ajena q r publicada b.corridas e) ∙ p)
  ]
  Efecto-Completo (protocolo q g) h r p = h r p
  Efecto-Completo (corte q s t ts es g a) h r p = h r p

  -- The verdict that the test found.
  hay_veredicto :
      (r sku : String) (vs : List (De (VeredictoSku fl)))
      → any (λ (v : De (VeredictoSku fl)). (v.0 == r) && (v.1.sku == sku)) vs ≡ true
      → (v : De (VeredictoSku fl)) × Memᴰ v vs × (v.0 ≡ r) × (v.1.sku ≡ sku)
  hay_veredicto r sku [] h = cc
  hay_veredicto r sku (v ∷ vs) h = elim (Bool-cases (v.0 == r)) [
    | inr e ↦ despues (hay_veredicto r sku vs (sym (rw e refl) ∙ h))
    | inl e ↦ elim (Bool-cases (v.1.sku == sku)) [
      | inl m ↦ (v, Memᴰ.head refl, run-eq v.0 r e, run-eq v.1.sku sku m)
      | inr m ↦ despues (hay_veredicto r sku vs (sym (rw (e, m) refl) ∙ h))
    ]
  ]
    where
      despues :
          (w : De (VeredictoSku fl)) × Memᴰ w vs × (w.0 ≡ r) × (w.1.sku ≡ sku)
          → (w : De (VeredictoSku fl)) × Memᴰ w (v ∷ vs) × (w.0 ≡ r) × (w.1.sku ≡ sku)
      despues (w, m, e, k) = (w, Memᴰ.tail m, e, k)

  no_falta :
      (r sku : String) (vs : List (De (VeredictoSku fl))) (ss : List (De String))
      → sin_veredicto x r vs ss ≡ false
      → Memᴰ (r, sku) ss
      → any (λ (v : De (VeredictoSku fl)). (v.0 == r) && (v.1.sku == sku)) vs ≡ true
  no_falta r sku vs [] h m = elim m [ ]
  no_falta r sku vs (s ∷ ss) h (Memᴰ.head e) =
      este (subst (λ t. sin_veredicto x r vs (t ∷ ss) ≡ false) (sym e) h)
    where
      este :
          sin_veredicto x r vs ((r, sku) ∷ ss) ≡ false
          → any (λ (v : De (VeredictoSku fl)). (v.0 == r) && (v.1.sku == sku)) vs ≡ true
      este k =
          elim (Bool-cases
            (any (λ (v : De (VeredictoSku fl)). (v.0 == r) && (v.1.sku == sku)) vs)) [
              | inl si ↦ si
              | inr falso ↦
                  let propia : (r == r) ≡ true = (string_eq.refleja r r).1 refl in
                  let mal : true ≡ false = sym (rw (propia, falso) refl) ∙ k in cc mal
            ]
  no_falta r sku vs (s ∷ ss) h (Memᴰ.tail m) =
      no_falta r sku vs ss
        (despues
          ((s.0 == r)
            && not (any (λ (v : De (VeredictoSku fl)). (v.0 == r) && (v.1.sku == s.1)) vs))
          h)
        m
    where
      despues : (t : Bool) {u : Bool} → (t || u) ≡ false → u ≡ false
      despues true h = cc
      despues false h = h

  -- From an empty database, whatever functions are called and in whatever order: each product of a run
  -- that is PUBLICADA has a verdict.
  pub correr-Completo :
      (exportar : Exportador x) (os : List (Orden x exportar)) (r sku : String)
      → estado_en r (correr x exportar os (vacia x)).corridas ≡ some publicada
      → Memᴰ (r, sku) (correr x exportar os (vacia x)).skus
      → (v : De (VeredictoSku fl)) × Memᴰ v (correr x exportar os (vacia x)).veredictos
        × (v.0 ≡ r)
        × (v.1.sku ≡ sku)
  correr-Completo exportar os r sku h m =
      let b' = correr x exportar os (vacia x) in
      let completo =
        correr_conserva x exportar Completo (λ b c e. Efecto-Completo e) os (vacia x)
          (λ q k. cc k) in
      hay_veredicto r sku b'.veredictos (no_falta r sku b'.veredictos b'.skus (completo r h) m)
