-- ===== src/Reanudacion/Compatibilidad.antt =====
-- huella.py: what the list of reasons means.

use pred_engine.Prelude.{String, ◌≡◌, refl, ◌↔◌, List, [], ◌∷◌, ◌++◌, arith, Eq, nat_eq, string_eq}
use pred_engine.Prelude.Result.{ok}
use pred_engine.Prelude.Int.{ℤ_eq}
use pred_engine.Reanudacion.Contratos.{
  SolicitudCorrida, ManifiestoCorrida, BackendHpo, optuna, Motivo, familia, sku_id, seed,
  metrica_objetivo, validacion, n_trials_objetivo, backend, huella, validacion_eq, backend_eq,
}
use pred_engine.Reanudacion.Huella.{
  Payload, calcular_huella, motivo_si, motivos_incompatibilidad, verificar_compatibilidad, Coincide,
}

motivo_si-nil {ℓ} : {A : Type ℓ} ⦃e : Eq A⦄ (a b : A) (m : Motivo) → motivo_si a b m ≡ [] → a ≡ b
motivo_si-nil ⦃e⦄ a b m h = (e.refleja a b).0 (ground arith)

motivo_si_self {ℓ} : {A : Type ℓ} ⦃e : Eq A⦄ (a b : A) (m : Motivo) → a ≡ b → motivo_si a b m ≡ []
motivo_si_self ⦃e⦄ a b m h = rw ((e.refleja a b).1 h)

append-eq-nil : (xs ys : List Motivo) → xs ++ ys ≡ [] → (xs ≡ []) × (ys ≡ [])
append-eq-nil [] ys h = (refl, h)
append-eq-nil (x ∷ xs) ys h = cc

backend_unico : (a b : BackendHpo) → a ≡ b
backend_unico optuna optuna = refl

module _ {Flotante Espacio : Type 0} (sha256_json : Payload Flotante Espacio → String)
    (s : SolicitudCorrida Flotante Espacio) (m : ManifiestoCorrida) where
  motivos_nil-Coincide : motivos_incompatibilidad sha256_json s m ≡ [] → Coincide sha256_json s m
  unfolding motivos_incompatibilidad
  motivos_nil-Coincide h =
      let (h1, r1) = append-eq-nil _ _ h in
      let (h2, r2) = append-eq-nil _ _ r1 in
      let (h3, r3) = append-eq-nil _ _ r2 in
      let (h4, r4) = append-eq-nil _ _ r3 in
      let (h5, r5) = append-eq-nil _ _ r4 in
      let (h6, r6) = append-eq-nil _ _ r5 in
      let (h7, h8) = append-eq-nil _ _ r6 in
      record {
        familia = motivo_si-nil _ _ _ h1;
        sku_id = motivo_si-nil _ _ _ h2;
        seed = motivo_si-nil _ _ _ h3;
        metrica_objetivo = motivo_si-nil _ _ _ h4;
        validacion = motivo_si-nil _ _ _ h5;
        n_trials_objetivo = motivo_si-nil _ _ _ h6;
        huella = motivo_si-nil _ _ _ h8;
      }

  Coincide-motivos_nil : Coincide sha256_json s m → motivos_incompatibilidad sha256_json s m ≡ []
  unfolding motivos_incompatibilidad
  Coincide-motivos_nil c = simp (
    motivo_si_self m.familia s.familia familia c.familia,
    motivo_si_self m.sku_id s.sku_id sku_id c.sku_id,
    motivo_si_self m.seed s.seed seed c.seed,
    motivo_si_self m.metrica_objetivo s.metrica_objetivo metrica_objetivo c.metrica_objetivo,
    motivo_si_self m.configuracion_validacion s.validacion validacion c.validacion,
    motivo_si_self m.n_trials_objetivo s.optimizador.n_trials_objetivo n_trials_objetivo
        c.n_trials_objetivo,
    motivo_si_self m.backend s.backend backend (backend_unico m.backend s.backend),
    motivo_si_self m.fingerprint_configuracion (calcular_huella sha256_json s) huella c.huella,
  )

  -- A request is compatible with a manifest exactly when every compared field and the fingerprint
  -- of the whole configuration are the same.
  pub verificar_compatibilidad_iff :
      (verificar_compatibilidad sha256_json s m ≡ ok tt) ↔ Coincide sha256_json s m
  unfolding verificar_compatibilidad
  verificar_compatibilidad_iff =
      (λ h. motivos_nil-Coincide (ground arith), λ c. rw (Coincide-motivos_nil c))
