-- ===== src/Reanudacion/Huella.antt =====
-- huella.py: the fingerprint of a request and the reasons for which a manifest does not match it.

use pred_engine.Prelude.{
  ℕ, String, ◌≡◌, List, [], ◌∷◌, ◌++◌, if◌then◌else◌, ◌==◌, Eq, nat_eq, string_eq,
}
use pred_engine.Prelude.Int.{ℤ, ℤ_eq}
use pred_engine.Prelude.Result.{Result, ok, err}
use pred_engine.Reanudacion.Contratos.{
  ConfiguracionValidacion, validacion_eq, BackendHpo, backend_eq, ConfiguracionOptimizador,
  SolicitudCorrida, ManifiestoCorrida, Motivo, familia, sku_id, seed, metrica_objetivo, validacion,
  n_trials_objetivo, backend, huella, ReanudacionError, incompatibilidad,
}

-- `_CAMPOS_HUELLA`, in canonical form.
pub record Payload (Flotante Espacio : Type 0) : Type 0 where
  pub familia : String
  pub sku_id : String
  pub seed : ℤ
  pub metrica_objetivo : String
  pub validacion : ConfiguracionValidacion
  pub espacio_busqueda : Espacio
  pub optimizador : ConfiguracionOptimizador Flotante
  pub n_observaciones : ℕ
  pub huella_serie : String
  pub backend : BackendHpo

module _ {Flotante Espacio : Type 0} where
  unfoldable pub payload_huella : SolicitudCorrida Flotante Espacio → Payload Flotante Espacio
  payload_huella s = record {
    familia = s.familia;
    sku_id = s.sku_id;
    seed = s.seed;
    metrica_objetivo = s.metrica_objetivo;
    validacion = s.validacion;
    espacio_busqueda = s.espacio_busqueda;
    optimizador = s.optimizador;
    n_observaciones = s.n_observaciones;
    huella_serie = s.huella_serie;
    backend = s.backend;
  }

-- `sha256_json` is `json.dumps` with sorted keys, and SHA-256 of that text in hexadecimal.
module _ {Flotante Espacio : Type 0} (sha256_json : Payload Flotante Espacio → String) where
  unfoldable pub calcular_huella : SolicitudCorrida Flotante Espacio → String
  unfolding payload_huella
  calcular_huella s = sha256_json (payload_huella s)

-- `if a != b: motivos.append(motivo)`
abbrev pub motivo_si {ℓ} : {A : Type ℓ} ⦃e : Eq A⦄ → A → A → Motivo → List Motivo
motivo_si a b m = if a == b then [] else m ∷ []

module _ {Flotante Espacio : Type 0} (sha256_json : Payload Flotante Espacio → String)
    (s : SolicitudCorrida Flotante Espacio) (m : ManifiestoCorrida) where
  unfoldable pub motivos_incompatibilidad : List Motivo
  motivos_incompatibilidad =
      motivo_si m.familia s.familia familia
      ++ (motivo_si m.sku_id s.sku_id sku_id
          ++ (motivo_si m.seed s.seed seed
              ++ (motivo_si m.metrica_objetivo s.metrica_objetivo metrica_objetivo
                  ++ (motivo_si m.configuracion_validacion s.validacion validacion
                      ++ (motivo_si m.n_trials_objetivo s.optimizador.n_trials_objetivo
                            n_trials_objetivo
                          ++ (motivo_si m.backend s.backend backend
                              ++ motivo_si m.fingerprint_configuracion
                                  (calcular_huella sha256_json s) huella))))))

  abbrev sin_motivos : List Motivo → Result ReanudacionError (Unit {0})
  sin_motivos [] = ok tt
  sin_motivos (x ∷ xs) = err (incompatibilidad (x ∷ xs))

  unfoldable pub verificar_compatibilidad : Result ReanudacionError (Unit {0})
  unfolding motivos_incompatibilidad
  verificar_compatibilidad = sin_motivos motivos_incompatibilidad

  -- What a manifest shares with every request that may resume it.
  pub record Coincide : Type 0 where
    pub familia : m.familia ≡ s.familia
    pub sku_id : m.sku_id ≡ s.sku_id
    pub seed : m.seed ≡ s.seed
    pub metrica_objetivo : m.metrica_objetivo ≡ s.metrica_objetivo
    pub validacion : m.configuracion_validacion ≡ s.validacion
    pub n_trials_objetivo : m.n_trials_objetivo ≡ s.optimizador.n_trials_objetivo
    pub huella : m.fingerprint_configuracion ≡ calcular_huella sha256_json s
