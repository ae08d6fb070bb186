-- ===== src/Durables/Confianza.antt =====
-- unit_checkpoints.py: `load_result` gives just the sealed, successful results of its own file.
use pred_engine.Prelude.{
  String, ◌≡◌, refl, sym, ap, subst, ◌∙◌, ◌==◌, ◌↔◌, true, false, not, Option, none, some, inl, inr,
  Bool-cases, string_eq, string_eq_refl,
}
use pred_engine.Prelude.Result.{Result, ok, err, raise_if-ok, raise_if-false, >>=-eq-ok}
use pred_engine.Reanudacion.Almacen.{Disco, manifiesto}
use pred_engine.Durables.Codec.{
  CheckpointError, key_error, type_error, value_error, attribute_error, os_error, Valor, escalar,
  objeto, Campos, Json, jescalar, jtexto, jlista, jobjeto, Entradas, Python, decode,
}
use pred_engine.Durables.Unidades.{
  Camino, Formato, con_campo, es_exitosa, reutilizada, en_entradas, clave_de, es_texto, comprobar,
  aceptar, leer_sobre, como_valor_invalido, leer_texto, load_result,
}
use pred_engine.Durables.Exitosas.{Exitosa, es_exitosa-Exitosa, Exitosa-es_exitosa}

module _ (py : Python) (f : Formato py) where
  open py use {E, A}

  -- The file holds an envelope whose data bear the schema and the key of the file, and which bears
  -- the sum of its data; the result of the data decodes to a successful unit, and `v` is that unit with
  -- True in its field `reutilizado`.
  pub record Fiable (p : Camino) (d : Disco) (v : Valor E A) : Type 0 where
    pub leido : String
    pub sobre : Entradas E
    pub datos : Entradas E
    pub resultado : Json E
    pub campos : Campos E A
    pub en_disco : d.ficheros (manifiesto (f.ruta p)) ≡ some leido
    pub es_json : f.loads leido ≡ some (jobjeto sobre)
    pub trae : en_entradas py f "data" sobre ≡ ok (jobjeto datos)
    pub esquema : en_entradas py f "schema" datos ≡ ok (jtexto "pred-engine.unidad/1")
    pub clave : en_entradas py f "key" datos ≡ ok (jtexto p.clave)
    pub suma : en_entradas py f "sha256" sobre ≡ ok (jtexto (f.sha256 (f.dumps (jobjeto datos))))
    pub contiene : en_entradas py f "result" datos ≡ ok resultado
    pub decodifica : decode py resultado ≡ ok (objeto "ResultadoUnidad" campos)
    pub exitosa : Exitosa py f campos
    pub marcada :
        v ≡ objeto "ResultadoUnidad" (con_campo py f "reutilizado" (escalar f.verdadero) campos)

  -- What is asked for by a key is an object.
  clave_de-ok :
      (k : String) (j : Json E) {r : Json E}
      → clave_de py f k j ≡ ok r
      → (es : Entradas E) × (j ≡ jobjeto es) × (en_entradas py f k es ≡ ok r)
  clave_de-ok k (jobjeto es) h = (es, refl, h)
  clave_de-ok k (jescalar e) h = cc h
  clave_de-ok k (jtexto t) h = cc h
  clave_de-ok k (jlista es) h = cc h

  es_texto-eq : (j : Json E) (s : String) → not (es_texto py f j s) ≡ false → j ≡ jtexto s
  es_texto-eq (jtexto t) s h = elim (Bool-cases (t == s)) [
    | inl b ↦ ap jtexto ((string_eq.refleja t s).0 b)
    | inr b ↦ cc (h, b)
  ]
  es_texto-eq (jobjeto es) s h = cc h
  es_texto-eq (jescalar e) s h = cc h
  es_texto-eq (jlista es) s h = cc h

  sin_invalido :
      (r : Result CheckpointError (Option (Valor E A))) {o : Option (Valor E A)}
      → como_valor_invalido py f r ≡ ok o
      → r ≡ ok o
  sin_invalido (ok v) h = h
  sin_invalido (err key_error) h = cc h
  sin_invalido (err type_error) h = cc h
  sin_invalido (err value_error) h = cc h
  sin_invalido (err attribute_error) h = cc h
  sin_invalido (err os_error) h = cc h

  aceptada :
      (u v : Valor E A)
      → aceptar py f u ≡ ok (some v)
      → (es_exitosa py f u ≡ true) × (v ≡ reutilizada py f u)
  aceptada u v h = elim (Bool-cases (es_exitosa py f u)) [
    | inl b ↦ (b, cc (h, b))
    | inr b ↦ cc (h, b)
  ]

  -- The three checks on the data, from the entries of the envelope and of the data.
  comprobado :
      (p : Camino) (sobre datos : Entradas E)
      → comprobar py f p (jobjeto sobre) (jobjeto datos) ≡ ok tt
      → (en_entradas py f "schema" datos ≡ ok (jtexto "pred-engine.unidad/1"))
        × (en_entradas py f "key" datos ≡ ok (jtexto p.clave))
        × (en_entradas py f "sha256" sobre ≡ ok (jtexto (f.sha256 (f.dumps (jobjeto datos)))))
  comprobado p sobre datos h =
      let suma_de = f.sha256 (f.dumps (jobjeto datos)) in
      let (e, ee, h1) = >>=-eq-ok (en_entradas py f "schema" datos) _ h in
      let (be, h2) = raise_if-ok (not (es_texto py f e "pred-engine.unidad/1")) value_error _ h1 in
      let (c, ec, h3) = >>=-eq-ok (en_entradas py f "key" datos) _ h2 in
      let (bc, h4) = raise_if-ok (not (es_texto py f c p.clave)) value_error _ h3 in
      let (s, es, h5) = >>=-eq-ok (en_entradas py f "sha256" sobre) _ h4 in
      let bs = raise_if-false (not (es_texto py f s suma_de)) value_error h5 in
      (
        ee ∙ ap ok (es_texto-eq e "pred-engine.unidad/1" be),
        ec ∙ ap ok (es_texto-eq c p.clave bc),
        es ∙ ap ok (es_texto-eq s suma_de bs),
      )

  leer_sobre-Fiable :
      (p : Camino) (d : Disco) (v : Valor E A) (leido : String) (s : Json E)
      → d.ficheros (manifiesto (f.ruta p)) ≡ some leido
      → f.loads leido ≡ some s
      → leer_sobre py f p (some s) ≡ ok (some v)
      → Fiable p d v
  leer_sobre-Fiable p d v leido s en_disco es_json h =
      let (dato, trae, h1) = >>=-eq-ok (clave_de py f "data" s) _ h in
      let (u, sella, h2) = >>=-eq-ok (comprobar py f p s dato) _ h1 in
      let (fuente, contiene, h3) = >>=-eq-ok (clave_de py f "result" dato) _ h2 in
      let (unidad, decodifica, h4) = >>=-eq-ok (decode py fuente) _ h3 in
      let (bien, marca) = aceptada unidad v h4 in
      let (sobre, es_sobre, trae') = clave_de-ok "data" s trae in
      let (datos, es_datos, contiene') = clave_de-ok "result" dato contiene in
      let (campos, es_unidad, exitosa) = es_exitosa-Exitosa py f unidad bien in
      let (esquema, clave, suma) = comprobado p sobre datos (
        subst (λ w. comprobar py f p w (jobjeto datos) ≡ ok tt) es_sobre
          (subst (λ w. comprobar py f p s w ≡ ok tt) es_datos sella)) in
      record {
        leido = leido;
        sobre = sobre;
        datos = datos;
        resultado = fuente;
        campos = campos;
        en_disco = en_disco;
        es_json = es_json ∙ ap some es_sobre;
        trae = trae' ∙ ap ok es_datos;
        esquema = esquema;
        clave = clave;
        suma = suma;
        contiene = contiene';
        decodifica = decodifica ∙ ap ok es_unidad;
        exitosa = exitosa;
        marcada = marca ∙ ap (reutilizada py f) es_unidad;
      }

  load_result-Fiable :
      (p : Camino) (d : Disco) (v : Valor E A)
      → load_result py f (some p) d ≡ ok (some v)
      → Fiable p d v
  unfolding load_result
  load_result-Fiable p d v h = segun (d.ficheros (manifiesto (f.ruta p))) refl h
    where
      con_json :
          (t : String) (o : Option (Json E))
          → d.ficheros (manifiesto (f.ruta p)) ≡ some t
          → f.loads t ≡ o
          → leer_sobre py f p o ≡ ok (some v)
          → Fiable p d v
      con_json t none e j k = cc k
      con_json t (some s) e j k = leer_sobre-Fiable p d v t s e j k

      segun :
          (o : Option String)
          → d.ficheros (manifiesto (f.ruta p)) ≡ o
          → leer_texto py f p o ≡ ok (some v)
          → Fiable p d v
      segun none e k = cc k
      segun (some t) e k =
          con_json t (f.loads t) e refl (sin_invalido (leer_sobre py f p (f.loads t)) k)

  Fiable-load_result :
      (p : Camino) (d : Disco) (v : Valor E A)
      → Fiable p d v
      → load_result py f (some p) d ≡ ok (some v)
  unfolding load_result
  Fiable-load_result p d v h =
      rw
        (
          h.en_disco,
          h.es_json,
          h.trae,
          h.esquema,
          h.clave,
          string_eq_refl p.clave,
          h.suma,
          string_eq_refl (f.sha256 (f.dumps (jobjeto h.datos))),
          h.contiene,
          h.decodifica,
          Exitosa-es_exitosa py f h.campos h.exitosa,
        )
        (ap (λ w. ok (some w)) (sym h.marcada))

  -- `load_result` gives a result just when the file that was asked for holds an envelope that bears the
  -- SHA-256 of its data, whose data bear the schema and the key of the file, and whose result decodes
  -- to a ResultadoUnidad with a registro COMPLETADA and a value that is not None; and it gives that
  -- unit, with `reutilizado` set to True.
  pub load_result_iff :
      (p : Camino) (d : Disco) (v : Valor E A)
      → (load_result py f (some p) d ≡ ok (some v)) ↔ Fiable p d v
  load_result_iff p d v = (load_result-Fiable p d v, Fiable-load_result p d v)
