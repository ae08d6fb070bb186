-- ===== src/Hpo/Sugerencia.antt =====
-- estudio.py: how a trial of the backend is asked for a configuration. The backend is a parameter:
-- what a trial answers, and how it changes when it is asked or given an attribute.
use pred_engine.Prelude.{ℕ, zero, suc, String, Bool, Option, none, some, List, [], length}
use pred_engine.Prelude.Int.{ℤ, pos, negsuc}
use pred_engine.Prelude.Result.{Result, ok, ◌>>=◌}
use pred_engine.Hpo.Espacio.{
  Plataforma, EspacioError, Parametro, entero, flotante, categorico, ordinal, EspacioBusqueda,
  Configuracion, recorrer, restriccion_violada,
}

pub record TrialHpo (x : Plataforma) : Type 1 where
  pub Trial : Type 0
  pub suggest_int : String → ℤ → ℤ → ℕ → Trial → Result EspacioError (ℤ × Trial)
  pub suggest_float : String → x.F → x.F → Bool → Trial → Result EspacioError (x.F × Trial)
  pub suggest_categorical : String → List x.V → Trial → Result EspacioError (x.V × Trial)
  -- `trial.set_user_attr("motivo", "configuracion_invalida:...")`
  pub anotar_motivo : String → Trial → Trial

-- `n - 1`
abbrev pub ultimo_indice : ℕ → ℤ
ultimo_indice zero = negsuc 0
ultimo_indice (suc n) = pos n

module _ (x : Plataforma) (h : TrialHpo x) where
  unfoldable pub sugerir_parametro : Parametro x → h.Trial → Result EspacioError (x.V × h.Trial)
  sugerir_parametro (entero n b a p) t = h.suggest_int n b a p t >>= λ r. ok (x.de_int r.0, r.1)
  sugerir_parametro (flotante n b a l) t =
      h.suggest_float n b a l t >>= λ r. ok (x.de_float r.0, r.1)
  sugerir_parametro (categorico n os) t = h.suggest_categorical n os t
  sugerir_parametro (ordinal n ns) t =
      h.suggest_int n (pos 0) (ultimo_indice (length ns)) 1 t >>= λ r. ok (x.de_int r.0, r.1)

  abbrev pub descartar :
      Option String → Configuracion x → h.Trial → Option (Configuracion x) × h.Trial
  descartar none cfg t = (some cfg, t)
  descartar (some restriccion) cfg t = (none, h.anotar_motivo restriccion t)

  unfoldable pub sugerir_configuracion :
      EspacioBusqueda x → h.Trial → Result EspacioError (Option (Configuracion x) × h.Trial)
  unfolding sugerir_parametro recorrer restriccion_violada
  sugerir_configuracion e t = recorrer x sugerir_parametro e.condiciones e.parametros [] t >>= λ r.
      restriccion_violada x e r.0 >>= λ o. ok (descartar o r.0 r.1)
