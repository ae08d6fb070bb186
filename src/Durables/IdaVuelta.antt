-- ===== src/Durables/IdaVuelta.antt =====
-- unit_checkpoints.py: what `_encode` writes, `_decode` reads back.
use pred_engine.Prelude.{String, ◌≡◌, refl, ◌∙◌, true, false, inl, inr, ◌==◌, string_eq, Bool-cases}
use pred_engine.Prelude.Result.{ok, ◌>>=◌}
use pred_engine.Durables.Codec.{
  Valor, texto, escalar, arreglo, seleccion, objeto, mapa, tupla, lista, generico, otro, Valores,
  sin_valores, y_valor, Campos, sin_campos, y_campo, Json, jtexto, jescalar, jobjeto, jlista,
  Elementos, Entradas, Python, permitido, tipado, encode, encode_valores, encode_campos, Abierto,
  campos_de, valores_de, por_tipo, abrir, abrir_elementos, abrir_entradas, decode,
}

module _ (py : Python) where
  open py use {E, A}

  -- What can be stored: arrays and results of the selection that NumPy and Pydantic read back, and
  -- dataclasses of the six types that are made again from their own fields; no scalar of NumPy.
  unfoldable mutual
    pub EsGuardable : Valor E A → Type 0
    EsGuardable (texto t) = Unit
    EsGuardable (escalar e) = Unit
    EsGuardable (arreglo a) = py.asarray (py.tolist a) ≡ ok a
    EsGuardable (seleccion c) = SonCampos c × (py.model_validate (mapa c) ≡ ok c)
    EsGuardable (objeto n c) =
        (permitido n ≡ true) × SonCampos c × (py.construir n c ≡ ok (objeto n c))
    EsGuardable (mapa c) = SonCampos c
    EsGuardable (tupla vs) = SonValores vs
    EsGuardable (lista vs) = SonValores vs
    EsGuardable (generico e) = ⊥
    EsGuardable (otro t) = ⊥

    pub SonValores : Valores E A → Type 0
    SonValores sin_valores = Unit
    SonValores (y_valor v vs) = EsGuardable v × SonValores vs

    pub SonCampos : Campos E A → Type 0
    SonCampos sin_campos = Unit
    SonCampos (y_campo k v c) = EsGuardable v × SonCampos c

  -- A text that is not permitted is not the one given.
  otro_nombre : (n t : String) → permitido n ≡ true → permitido t ≡ false → (n == t) ≡ false
  otro_nombre n t h falta = elim (Bool-cases (n == t)) [
    | inl b ↦ cc (h, falta, (string_eq.refleja n t).0 b)
    | inr b ↦ b
  ]

  por_tipo-permitido :
      (n : String) (d : Abierto py)
      → permitido n ≡ true
      → por_tipo py n d ≡ (d.como_campos >>= λ c. py.construir n c)
  unfolding permitido por_tipo
  por_tipo-permitido n d h =
      rw
        (
          otro_nombre n "selection" h refl,
          otro_nombre n "array" h refl,
          otro_nombre n "mapping" h refl,
          otro_nombre n "tuple" h refl,
          h,
        )
        refl

  crudo-abrir : (j : Json E) → (abrir py j).crudo ≡ j
  unfolding abrir
  crudo-abrir (jtexto t) = refl
  crudo-abrir (jescalar e) = refl
  crudo-abrir (jlista js) = refl
  crudo-abrir (jobjeto es) = refl

  abbrev Vuelve : Valor E A → Type 0
  Vuelve v = (j : Json E) × (encode py v ≡ ok j) × (decode py j ≡ ok v)

  abbrev VuelvenValores : Valores E A → Type 0
  VuelvenValores vs =
      (js : Elementos E) × (encode_valores py vs ≡ ok js)
      × (valores_de py (abrir_elementos py js) ≡ ok vs)

  abbrev VuelvenCampos : Campos E A → Type 0
  VuelvenCampos c =
      (es : Entradas E) × (encode_campos py c ≡ ok es)
      × (campos_de py (abrir_entradas py es) ≡ ok c)

  mutual
    unfolding encode decode abrir EsGuardable por_tipo permitido

    vuelve : (v : Valor E A) → EsGuardable v → Vuelve v
    vuelve (texto t) h = (jtexto t, refl, refl)
    vuelve (escalar e) h = (jescalar e, refl, refl)
    vuelve (arreglo a) h =
        (tipado "array" (py.tolist a), refl, rw (crudo-abrir (py.tolist a), h) refl)
    vuelve (seleccion c) h =
        let (es, ida, vuelta) = vuelven_campos c h.0 in
        (tipado "selection" (tipado "mapping" (jobjeto es)), rw ida refl, rw (vuelta, h.1) refl)
    vuelve (objeto n c) h =
        let (es, ida, vuelta) = vuelven_campos c h.1 in
        (
          tipado n (jobjeto es),
          rw (h.0, ida) refl,
          por_tipo-permitido n (abrir py (jobjeto es)) h.0 ∙ rw vuelta h.2,
        )
    vuelve (mapa c) h =
        let (es, ida, vuelta) = vuelven_campos c h in
        (tipado "mapping" (jobjeto es), rw ida refl, rw vuelta refl)
    vuelve (tupla vs) h =
        let (js, ida, vuelta) = vuelven_valores vs h in
        (tipado "tuple" (jlista js), rw ida refl, rw vuelta refl)
    vuelve (lista vs) h =
        let (js, ida, vuelta) = vuelven_valores vs h in (jlista js, rw ida refl, rw vuelta refl)
    vuelve (generico e) h = absurd h
    vuelve (otro t) h = absurd h

    vuelven_valores : (vs : Valores E A) → SonValores vs → VuelvenValores vs
    vuelven_valores sin_valores h = (Elementos.sin_elementos, refl, refl)
    vuelven_valores (y_valor v vs) h =
        let (j, ida, vuelta) = vuelve v h.0 in
        let (js, idas, vueltas) = vuelven_valores vs h.1 in
        (Elementos.y_elemento j js, rw (ida, idas) refl, rw (vuelta, vueltas) refl)

    vuelven_campos : (c : Campos E A) → SonCampos c → VuelvenCampos c
    vuelven_campos sin_campos h = (Entradas.sin_entradas, refl, refl)
    vuelven_campos (y_campo k v c) h =
        let (j, ida, vuelta) = vuelve v h.0 in
        let (es, idas, vueltas) = vuelven_campos c h.1 in
        (Entradas.y_entrada k j es, rw (ida, idas) refl, rw (vuelta, vueltas) refl)

  -- A value that can be stored is encoded, and decoding what was written gives it back.
  pub decode-encode :
      (v : Valor E A) → EsGuardable v → (j : Json E) × (encode py v ≡ ok j) × (decode py j ≡ ok v)
  decode-encode v h = vuelve v h
