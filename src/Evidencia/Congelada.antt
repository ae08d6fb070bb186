-- ===== src/Evidencia/Congelada.antt =====
-- persistencia_evidencia: a run that is PUBLICADA stays as it is, whatever is called.
use pred_engine.Prelude.{
  String, ◌≡◌, ◌≢◌, refl, sym, ap, ◌∙◌, true, false, ℕ, Option, none, some, List, [], ◌∷◌, ◌++◌,
  ◌==◌, string_eq, Bool-cases, inl, inr, Todos,
}
use pred_engine.Prelude.Sorted.{filter}
use pred_engine.Prelude.Filtros.{filter-append_nada}
use pred_engine.Candidatos.Contratos.{FalloCandidato}
use pred_engine.Veredictos.Contratos.{SeleccionCategoria}
use pred_engine.Veredictos.Veredicto.{VeredictoSku}
use pred_engine.Evidencia.Contratos.{
  EstadoCorrida, en_curso, evaluada, seleccionada, publicada, rechazada, De, Base, Externo, Corrida,
  Unidad, Pronostico, Exclusion, FilaMetrica, Observacion,
}
use pred_engine.Evidencia.Tablas.{corrida_de, estado_en, con_run, de}
use pred_engine.Evidencia.Protocolo.{corte_de, esta_abierta}
use pred_engine.Evidencia.Publicacion.{Exportador}
use pred_engine.Evidencia.Estados.{
  run-eq, corrida_de-con_estado, estado_en-corrida_de, estado_de, rechazar_cases, corrida_de-append,
}
use pred_engine.Evidencia.Efectos.{
  Efecto, nada, seguido, ingesta, alta, rechazo, unidad, evalua, evidencia, demanda, selecciona,
  publica, protocolo, corte, Esta,
}
use pred_engine.Evidencia.Ordenes.{Orden, correr, correr_conserva}

pub de-ajenas :
    {A : Type 0} (q r : String) (xs : List (De A)) (fs : List A)
    → (q == r) ≡ false
    → de r (xs ++ con_run q fs) ≡ de r xs
de-ajenas {A} q r xs fs e = filter-append_nada (λ f. f.0 == r) xs (con_run q fs) (todas fs)
  where
    todas : (fs : List A) → Todos (λ (f : De A). (f.0 == r) ≡ false) (con_run q fs)
    todas [] = tt
    todas (f ∷ fs) = (e, todas fs)

estado-injective : {s t : EstadoCorrida} → ◌≡◌ {A = Option EstadoCorrida} (some s) (some t) → s ≡ t
estado-injective h = cc

abierta : (s : EstadoCorrida) → esta_abierta s ≡ true → publicada ≢ s
abierta en_curso a = cc
abierta evaluada a = cc
abierta seleccionada a = cc
abierta publicada a = cc
abierta rechazada a = cc

corte_de-ajeno :
    (q r : String) (t : ℕ) (cs : List (De ℕ))
    → (q == r) ≡ false
    → corte_de r (cs ++ (q, t) ∷ []) ≡ corte_de r cs
corte_de-ajeno q r t [] e = rw e refl
corte_de-ajeno q r t ((q', t') ∷ cs) e = rw (corte_de-ajeno q r t cs e) refl

module _ (x : Externo) where
  open x use {fl}

  -- The rows of a run in the tables of the model but that of the protocols.
  pub record Vista : Type 0 where
    pub corrida : Option Corrida
    pub skus : List (De String)
    pub fallos : List (De FalloCandidato)
    pub unidades : List Unidad
    pub pronosticos : List (Pronostico fl.F)
    pub corte : Option ℕ
    pub tardios : List (De String)
    pub exclusiones : List (De Exclusion)
    pub metricas : List (De (FilaMetrica fl.F))
    pub categorias : List (De (SeleccionCategoria fl.F))
    pub veredictos : List (De (VeredictoSku fl))
    pub observaciones : List (De (Observacion fl.F))

  abbrev pub vista : String → Base fl → Vista
  vista r b = record {
    corrida = corrida_de r b.corridas;
    skus = de r b.skus;
    fallos = de r b.fallos;
    unidades = filter (λ u. u.run_id == r) b.unidades;
    pronosticos = filter (λ p. p.run_id == r) b.pronosticos;
    corte = corte_de r b.cortes;
    tardios = de r b.tardios;
    exclusiones = de r b.exclusiones;
    metricas = de r b.metricas;
    categorias = de r b.categorias;
    veredictos = de r b.veredictos;
    observaciones = de r b.observaciones;
  }

  -- A run in another state than `r` is another one.
  otra :
      (r q : String) (s t : EstadoCorrida) (b : Base fl)
      → Esta x r s b
      → Esta x q t b
      → s ≢ t
      → (q == r) ≡ false
  otra r q s t b hr hq distintos = elim (Bool-cases (q == r)) [
    | inr e ↦ e
    | inl e ↦ absurd (
        distintos (
          estado-injective (sym hr ∙ (ap (λ u. estado_en u b.corridas) (sym (run-eq q r e)) ∙ hq))))
  ]

  otra_nueva :
      (r q : String) (b : Base fl)
      → Esta x r publicada b
      → estado_en q b.corridas ≡ none
      → (q == r) ≡ false
  otra_nueva r q b hr hq = elim (Bool-cases (q == r)) [
    | inr e ↦ e
    | inl e ↦
        let mismo : some publicada ≡ none =
          sym hr ∙ (ap (λ u. estado_en u b.corridas) (sym (run-eq q r e)) ∙ hq) in
        cc mismo
  ]

  sigue_corrida :
      (r : String) (b : Base fl) (c : Corrida)
      → Esta x r publicada b
      → corrida_de r (b.corridas ++ c ∷ []) ≡ corrida_de r b.corridas
  sigue_corrida r b c h = elim (corrida_de-append r b.corridas c) [
    | inr igual ↦ igual
    | inl nada_hay ↦
        let mismo : some publicada ≡ none =
          sym h ∙ (estado_en-corrida_de r b.corridas ∙ ap estado_de nada_hay) in
        cc mismo
  ]

  ajenos :
      (q r : String) (ps : List (Pronostico fl.F))
      → Todos (λ (p : Pronostico fl.F). p.run_id ≡ q) ps
      → (q == r) ≡ false
      → Todos (λ (p : Pronostico fl.F). (p.run_id == r) ≡ false) ps
  ajenos q r [] h n = tt
  ajenos q r (p ∷ ps) (e, h) n = (ap (λ t. t == r) e ∙ n, ajenos q r ps h n)

  vista-publicada :
      (r : String) (b c : Base fl)
      → vista r c ≡ vista r b
      → Esta x r publicada b
      → Esta x r publicada c
  vista-publicada r b c igual h =
      estado_en-corrida_de r c.corridas
      ∙ (ap (λ (v : Vista). estado_de v.corrida) igual
          ∙ (sym (estado_en-corrida_de r b.corridas) ∙ h))

  pub Efecto-vista :
      {b b' : Base fl}
      → Efecto x b b'
      → (r : String) → Esta x r publicada b
      → vista r b' ≡ vista r b
  Efecto-vista nada r h = refl
  Efecto-vista (seguido {b = b} {c = c} e f k) r h =
      let primero = Efecto-vista e r h in
      Efecto-vista f r (vista-publicada r b c primero h) ∙ primero
  Efecto-vista (ingesta is) r h = refl
  Efecto-vista (alta {b = b} c ss fs nueva i) r h =
      let e = otra_nueva r c.run_id b h nueva in
      rw
        (
          sigue_corrida r b c h,
          de-ajenas c.run_id r b.skus ss e,
          de-ajenas c.run_id r b.fallos fs e,
        )
        refl
  Efecto-vista (rechazo {b = b} q causa) r h = elim (rechazar_cases q r causa b.corridas) [
    | inl igual ↦ rw igual refl
    | inr (s, antes, no_p, ahora) ↦ absurd (no_p (estado-injective (sym antes ∙ h)))
  ]
  Efecto-vista (unidad {b = b} q u ps g e t) r h =
      let n = otra r q publicada en_curso b h g (cc) in
      rw
        (
          filter-append_nada (λ (u : Unidad). u.run_id == r) b.unidades (u ∷ [])
              (ap (λ t. t == r) e ∙ n, tt),
          filter-append_nada (λ (p : Pronostico fl.F). p.run_id == r) b.pronosticos ps
              (ajenos q r ps t n),
        )
        refl
  Efecto-vista (evalua {b = b} q g i) r h =
      rw (corrida_de-con_estado q r evaluada b.corridas (otra r q publicada en_curso b h g (cc)))
        refl
  Efecto-vista (evidencia {b = b} q ms cs vs g) r h =
      let e = otra r q publicada evaluada b h g (cc) in
      rw
        (
          de-ajenas q r b.metricas ms e,
          de-ajenas q r b.categorias cs e,
          de-ajenas q r b.veredictos vs e,
        )
        refl
  Efecto-vista (demanda {b = b} q os g) r h =
      rw (de-ajenas q r b.observaciones os (otra r q publicada evaluada b h g (cc))) refl
  Efecto-vista (selecciona {b = b} q g) r h =
      rw
        (corrida_de-con_estado q r seleccionada b.corridas (otra r q publicada evaluada b h g (cc)))
        refl
  Efecto-vista (publica {b = b} q g v) r h =
      rw
        (corrida_de-con_estado q r publicada b.corridas
          (otra r q publicada seleccionada b h g (cc)))
        refl
  Efecto-vista (protocolo p g) r h = refl
  Efecto-vista (corte {b = b} q s t ts es g a) r h =
      let e = otra r q publicada s b h g (abierta s a) in
      rw
        (
          corte_de-ajeno q r t b.cortes e,
          de-ajenas q r b.tardios ts e,
          de-ajenas q r b.exclusiones es e,
        )
        refl

  -- Whatever functions are called after a run is PUBLICADA, and in whatever order: its row, its products,
  -- failures, units, forecasts, cut, late launches, exclusions, metrics, categories, verdicts and observed
  -- demand stay the same rows in the same order.
  pub correr-vista :
      (exportar : Exportador x) (os : List (Orden x exportar)) (b : Base fl) (r : String)
      → estado_en r b.corridas ≡ some publicada
      → vista r (correr x exportar os b) ≡ vista r b
  correr-vista exportar os b r h =
      correr_conserva x exportar (λ c. vista r c ≡ vista r b)
        (λ c d e igual. Efecto-vista e r (vista-publicada r b c igual h) ∙ igual) os b refl
