-- ===== src/Candidatos/Destinos.antt =====
-- forecasting/adaptador_candidatos/validacion.py: what becomes of each candidate that M2 hands over.
use mathlib.Core.List.{Memᴰ}
use pred_engine.Prelude.{
  ◌≡◌, refl, ap, subst, ◌∙◌, ◌+◌, String, true, not, Option, List, [], ◌∷◌, ◌++◌, map, inl, inr,
  length, length-append, length-map, Todos, Bool-cases, arith,
}
use pred_engine.Prelude.Sorted.{filter}
use pred_engine.Prelude.Miembros.{Mem-append_l, Mem-append_r, Mem-map, Mem-filter, length-filter}
use pred_engine.Prelude.Result.{Result, ok, err, ok_injective, >>=-eq-ok}
use pred_engine.Candidatos.Contratos.{
  CodigoFallo, FalloCandidato, Crudo, Candidato, ErrorCarga, no_disponible, inesperado,
  ContextoParticion, ManifiestoCandidatos, Entorno, HandoffValidado, ValidationError,
}
use pred_engine.Candidatos.Lote.{contiene, validar_lote}
use pred_engine.Candidatos.Validacion.{
  fallo, juzgar, anotar, validar_candidatos, es_fundacional, fallo_de_pesos, tras_cargar, si_hay,
  verificar_pesos, validar_manifiesto,
}

module _ (x : Entorno) (fabricas : List String) where
  open x use {O, D, F, T}

  -- A candidate in the list of the valid ones, of an enabled family; recorded as a failure; or valid,
  -- of the foundation family, and recorded because the weights cannot be had.
  pub data Destino (vs : List (Candidato O)) (fs : List FalloCandidato) (crudo : Crudo O)
      : Type 0 where
    valido :
        (c : Candidato O)
        → x.validate_python crudo ≡ ok c
        → contiene c.familia fabricas ≡ true
        → Memᴰ c vs
        → Destino vs fs crudo
    anotado :
        (campo : String) (codigo : CodigoFallo) (detalle : String)
        → Memᴰ (fallo x crudo campo codigo detalle) fs
        → Destino vs fs crudo
    sin_pesos :
        (c : Candidato O) (detalle : String)
        → x.validate_python crudo ≡ ok c
        → es_fundacional x c ≡ true
        → x.cargar_fundacional ≡ err (no_disponible detalle)
        → Memᴰ (fallo_de_pesos x detalle c) fs
        → Destino vs fs crudo

  abbrev pub Traslado :
      List (Candidato O) → List FalloCandidato → List (Candidato O) → List FalloCandidato → Type 0
  Traslado vs fs vs' fs' = (crudo : Crudo O) → Destino vs fs crudo → Destino vs' fs' crudo

  con_anotar :
      (r : Result FalloCandidato (Candidato O)) (p : List (Candidato O) × List FalloCandidato)
      → Traslado p.0 p.1 (anotar x r p).0 (anotar x r p).1
  con_anotar (ok c) (vs, fs) crudo (valido c' e k m) = valido c' e k (Memᴰ.tail m)
  con_anotar (ok c) (vs, fs) crudo (anotado a b d m) = anotado a b d m
  con_anotar (ok c) (vs, fs) crudo (sin_pesos a b d g h m) = sin_pesos a b d g h m
  con_anotar (err f) (vs, fs) crudo (valido c' e k m) = valido c' e k m
  con_anotar (err f) (vs, fs) crudo (anotado a b d m) = anotado a b d (Memᴰ.tail m)
  con_anotar (err f) (vs, fs) crudo (sin_pesos a b d g h m) = sin_pesos a b d g h (Memᴰ.tail m)

  pub Todos-Traslado :
      {vs vs' : List (Candidato O)} {fs fs' : List FalloCandidato}
      → Traslado vs fs vs' fs'
      → (crudos : List (Crudo O)) → Todos (Destino vs fs) crudos
      → Todos (Destino vs' fs') crudos
  Todos-Traslado t [] h = tt
  Todos-Traslado t (crudo ∷ crudos) (h, hs) = (t crudo h, Todos-Traslado t crudos hs)

  juzgado :
      (crudo : Crudo O) (r : Result ValidationError (Candidato O))
      (p : List (Candidato O) × List FalloCandidato)
      → x.validate_python crudo ≡ r
      → Destino
          (anotar x (juzgar x fabricas crudo r) p).0
          (anotar x (juzgar x fabricas crudo r) p).1
          crudo
  juzgado crudo (err exc) (vs, fs) e = anotado _ _ _ (Memᴰ.head refl)
  juzgado crudo (ok c) (vs, fs) e = elim (Bool-cases (contiene c.familia fabricas)) [
    | inl b ↦ rw b (valido c e b (Memᴰ.head refl))
    | inr b ↦ rw b (anotado _ _ _ (Memᴰ.head refl))
  ]

  validar_candidatos-Destino :
      (crudos : List (Crudo O))
      → Todos
          (Destino
            (validar_candidatos x crudos fabricas).0
            (validar_candidatos x crudos fabricas).1)
          crudos
  unfolding validar_candidatos
  validar_candidatos-Destino [] = tt
  validar_candidatos-Destino (crudo ∷ crudos) = (
    juzgado crudo (x.validate_python crudo) _ refl,
    Todos-Traslado (con_anotar (juzgar x fabricas crudo (x.validate_python crudo)) _) crudos
        (validar_candidatos-Destino crudos),
  )

  length-anotar :
      (r : Result FalloCandidato (Candidato O)) (p : List (Candidato O) × List FalloCandidato)
      → length (anotar x r p).0 + length (anotar x r p).1 ≡ 1 + (length p.0 + length p.1)
  length-anotar (ok c) (vs, fs) = omega arith
  length-anotar (err f) (vs, fs) = omega arith

  length-validar_candidatos :
      (crudos : List (Crudo O))
      → length (validar_candidatos x crudos fabricas).0
          + length (validar_candidatos x crudos fabricas).1
        ≡ length crudos
  unfolding validar_candidatos
  length-validar_candidatos [] = refl
  length-validar_candidatos (crudo ∷ crudos) = omega (
    arith,
    length-anotar (juzgar x fabricas crudo (x.validate_python crudo))
        (validar_candidatos x crudos fabricas),
    length-validar_candidatos crudos,
  )

  con_fallos :
      (vs : List (Candidato O)) (fs gs : List FalloCandidato) → Traslado vs fs vs (fs ++ gs)
  con_fallos vs fs gs crudo (valido c e k m) = valido c e k m
  con_fallos vs fs gs crudo (anotado a b d m) = anotado a b d (Mem-append_l gs m)
  con_fallos vs fs gs crudo (sin_pesos a b d g h m) = sin_pesos a b d g h (Mem-append_l gs m)

  sin_fundacionales :
      (vs : List (Candidato O)) (fs : List FalloCandidato) (detalle : String)
      → x.cargar_fundacional ≡ err (no_disponible detalle)
      → Traslado vs fs
          (filter (λ c. not (es_fundacional x c)) vs)
          (fs ++ map (fallo_de_pesos x detalle) (filter (es_fundacional x) vs))
  sin_fundacionales vs fs detalle carga crudo (anotado a b d m) = anotado a b d (Mem-append_l _ m)
  sin_fundacionales vs fs detalle carga crudo (sin_pesos a b d g h m) =
      sin_pesos a b d g h (Mem-append_l _ m)
  sin_fundacionales vs fs detalle carga crudo (valido c e k m) =
      elim (Bool-cases (es_fundacional x c)) [
        | inl b ↦ sin_pesos c detalle e b carga (
            Mem-append_r fs
              (Mem-map (fallo_de_pesos x detalle) (Mem-filter (es_fundacional x) vs b m)))
        | inr b ↦ valido c e k (Mem-filter (λ c. not (es_fundacional x c)) vs (ap not b) m)
      ]

  -- What was found before the check of the weights holds after it, and nothing is lost.
  abbrev pub Repartido :
      List (Candidato O) → List FalloCandidato → List (Candidato O) × List FalloCandidato → Type 0
  Repartido vs fs p = Traslado vs fs p.0 (fs ++ p.1) × (length p.0 + length p.1 ≡ length vs)

  -- What the check of the weights leaves of the valid candidates.
  tras_cargar-Traslado :
      (vs : List (Candidato O)) (fs : List FalloCandidato) (r : Result ErrorCarga (Unit {0}))
      {p : List (Candidato O) × List FalloCandidato}
      → x.cargar_fundacional ≡ r
      → tras_cargar x vs (filter (es_fundacional x) vs) r ≡ ok p
      → Repartido vs fs p
  tras_cargar-Traslado vs fs (ok u) c e =
      subst (Repartido vs fs) (ok_injective e) (con_fallos vs fs [], omega arith)
  tras_cargar-Traslado vs fs (err inesperado) c e = cc
  tras_cargar-Traslado vs fs (err (no_disponible detalle)) c e =
      subst (Repartido vs fs) (ok_injective e) (
        sin_fundacionales vs fs detalle c,
        omega (
          arith,
          length-filter (es_fundacional x) vs,
          length-map (filter (es_fundacional x) vs) (fallo_de_pesos x detalle),
        ),
      )

  verificar_pesos-Traslado :
      (vs : List (Candidato O)) (fs : List FalloCandidato)
      {p : List (Candidato O) × List FalloCandidato}
      → verificar_pesos x vs ≡ ok p
      → Repartido vs fs p
  unfolding verificar_pesos
  verificar_pesos-Traslado vs fs {p = p} e = segun (filter (es_fundacional x) vs) refl e
    where
      segun :
          (ws : List (Candidato O))
          → filter (es_fundacional x) vs ≡ ws
          → si_hay x vs ws ≡ ok p
          → Repartido vs fs p
      segun [] son e = subst (Repartido vs fs) (ok_injective e) (con_fallos vs fs [], omega arith)
      segun (c ∷ cs) son e =
          tras_cargar-Traslado vs fs x.cargar_fundacional refl
            (ap (λ ws. tras_cargar x vs ws x.cargar_fundacional) son ∙ e)

  -- When a batch is accepted, no candidate of its manifest is lost: each one stands among the valid
  -- candidates with an enabled family, or has its record among the failures, or validated as a
  -- foundation model and has the record of the missing weights. And there are as many candidates and
  -- records as the manifest has candidates.
  pub validar_manifiesto-Destino :
      (contenido : String) (esperado : ContextoParticion D F) (skus_panel : List String)
      (reserva_abierta_en : Option T) (h : HandoffValidado O D F)
      → validar_manifiesto x contenido esperado skus_panel reserva_abierta_en fabricas ≡ ok h
      → (m : ManifiestoCandidatos O D F T) × (validar_lote x contenido esperado skus_panel
            reserva_abierta_en
          ≡ ok m)
        × Todos (Destino h.candidatos h.fallos) m.candidatos
        × (length h.candidatos + length h.fallos ≡ length m.candidatos)
  unfolding validar_manifiesto
  validar_manifiesto-Destino contenido esperado skus_panel reserva_abierta_en h e =
      let (m, lote, e') =
        >>=-eq-ok (validar_lote x contenido esperado skus_panel reserva_abierta_en) _ e in
      let primera = validar_candidatos x m.candidatos fabricas in
      let (segunda, pesos, e'') = >>=-eq-ok (verificar_pesos x primera.0) _ e' in
      let (traslado, quedan) = verificar_pesos-Traslado primera.0 primera.1 pesos in
      let (destinos, cuenta) =
        subst
          (λ h.
            Todos (Destino h.candidatos h.fallos) m.candidatos
            × (length h.candidatos + length h.fallos ≡ length m.candidatos))
          (ok_injective e'')
          (
            Todos-Traslado traslado m.candidatos (validar_candidatos-Destino m.candidatos),
            omega (
              arith,
              quedan,
              length-validar_candidatos m.candidatos,
              length-append primera.1 segunda.1,
            ),
          ) in
      (m, lote, destinos, cuenta)
