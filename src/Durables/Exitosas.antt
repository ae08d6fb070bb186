-- ===== src/Durables/Exitosas.antt =====
-- unit_checkpoints.py: what `es_exitosa` takes for a successful unit.
use pred_engine.Prelude.{
  String, Bool, ◌≡◌, refl, sym, ap, ◌∙◌, ◌&&◌, ◌==◌, true, false, not, Option, none, some,
  string_eq,
}
use pred_engine.Durables.Codec.{
  Valor, texto, escalar, arreglo, seleccion, objeto, mapa, tupla, lista, generico, otro, Campos,
  Python,
}
use pred_engine.Durables.Unidades.{
  Formato, campo, hay_valor, es_completada, registro_completado, es_exitosa,
}

module _ (py : Python) (f : Formato py) where
  open py use {E, A}

  -- A ResultadoUnidad whose registro has the state COMPLETADA and whose value is not None.
  pub record Exitosa (campos : Campos E A) : Type 0 where
    pub clase : String
    pub registro : Campos E A
    pub valor : Valor E A
    pub con_registro : campo py f "registro" campos ≡ some (objeto clase registro)
    pub completada : campo py f "estado" registro ≡ some (texto "completada")
    pub con_valor : campo py f "valor" campos ≡ some valor
    pub no_es_none : (e : E) → valor ≡ escalar e → f.es_none e ≡ false

  hay_valor-some :
      (o : Option (Valor E A))
      → hay_valor py f o ≡ true
      → (v : Valor E A) × (o ≡ some v) × ((e : E) → v ≡ escalar e → f.es_none e ≡ false)
  hay_valor-some none h = cc h
  hay_valor-some (some (escalar e)) h = (escalar e, refl, λ e' q. no_es e' (cc q))
    where
      negado : (b : Bool) → not b ≡ true → b ≡ false
      negado true k = cc k
      negado false k = refl

      no_es : (e' : E) → e ≡ e' → f.es_none e' ≡ false
      no_es e' q = ap f.es_none (sym q) ∙ negado (f.es_none e) h
  hay_valor-some (some (texto t)) h = (texto t, refl, λ e q. cc q)
  hay_valor-some (some (arreglo a)) h = (arreglo a, refl, λ e q. cc q)
  hay_valor-some (some (seleccion c)) h = (seleccion c, refl, λ e q. cc q)
  hay_valor-some (some (objeto n c)) h = (objeto n c, refl, λ e q. cc q)
  hay_valor-some (some (mapa c)) h = (mapa c, refl, λ e q. cc q)
  hay_valor-some (some (tupla vs)) h = (tupla vs, refl, λ e q. cc q)
  hay_valor-some (some (lista vs)) h = (lista vs, refl, λ e q. cc q)
  hay_valor-some (some (generico e)) h = (generico e, refl, λ e q. cc q)
  hay_valor-some (some (otro t)) h = (otro t, refl, λ e q. cc q)

  some-hay_valor :
      (v : Valor E A)
      → ((e : E) → v ≡ escalar e → f.es_none e ≡ false)
      → hay_valor py f (some v) ≡ true
  some-hay_valor (escalar e) h = rw (h e refl) refl
  some-hay_valor (texto t) h = refl
  some-hay_valor (arreglo a) h = refl
  some-hay_valor (seleccion c) h = refl
  some-hay_valor (objeto n c) h = refl
  some-hay_valor (mapa c) h = refl
  some-hay_valor (tupla vs) h = refl
  some-hay_valor (lista vs) h = refl
  some-hay_valor (generico e) h = refl
  some-hay_valor (otro t) h = refl

  es_completada-texto :
      (o : Option (Valor E A)) → es_completada py f o ≡ true → o ≡ some (texto "completada")
  es_completada-texto none h = cc h
  es_completada-texto (some (texto t)) h =
      ap (λ s. some (texto s)) ((string_eq.refleja t "completada").0 h)
  es_completada-texto (some (escalar e)) h = cc h
  es_completada-texto (some (arreglo a)) h = cc h
  es_completada-texto (some (seleccion c)) h = cc h
  es_completada-texto (some (objeto n c)) h = cc h
  es_completada-texto (some (mapa c)) h = cc h
  es_completada-texto (some (tupla vs)) h = cc h
  es_completada-texto (some (lista vs)) h = cc h
  es_completada-texto (some (generico e)) h = cc h
  es_completada-texto (some (otro t)) h = cc h

  registro_completado-objeto :
      (o : Option (Valor E A))
      → registro_completado py f o ≡ true
      → (n : String) × (r : Campos E A) × (o ≡ some (objeto n r))
        × (campo py f "estado" r ≡ some (texto "completada"))
  registro_completado-objeto none h = cc h
  registro_completado-objeto (some (objeto n r)) h =
      (n, r, refl, es_completada-texto (campo py f "estado" r) h)
  registro_completado-objeto (some (texto t)) h = cc h
  registro_completado-objeto (some (escalar e)) h = cc h
  registro_completado-objeto (some (arreglo a)) h = cc h
  registro_completado-objeto (some (seleccion c)) h = cc h
  registro_completado-objeto (some (mapa c)) h = cc h
  registro_completado-objeto (some (tupla vs)) h = cc h
  registro_completado-objeto (some (lista vs)) h = cc h
  registro_completado-objeto (some (generico e)) h = cc h
  registro_completado-objeto (some (otro t)) h = cc h

  tres : (a b c : Bool) → (a && b && c) ≡ true → (a ≡ true) × (b ≡ true) × (c ≡ true)
  tres true true true h = (refl, refl, refl)
  tres true true false h = cc h
  tres true false c h = cc h
  tres false b c h = cc h

  pub es_exitosa-Exitosa :
      (v : Valor E A)
      → es_exitosa py f v ≡ true
      → (campos : Campos E A) × (v ≡ objeto "ResultadoUnidad" campos) × Exitosa campos
  unfolding es_exitosa
  es_exitosa-Exitosa (objeto n c) h =
      let (es, reg, val) =
        tres (n == "ResultadoUnidad") (registro_completado py f (campo py f "registro" c))
          (hay_valor py f (campo py f "valor" c)) h in
      let (clase, r, er, completa) = registro_completado-objeto (campo py f "registro" c) reg in
      let (w, ew, no_none) = hay_valor-some (campo py f "valor" c) val in
      (
        c,
        ap (λ s. objeto s c) ((string_eq.refleja n "ResultadoUnidad").0 es),
        record {
          clase = clase;
          registro = r;
          valor = w;
          con_registro = er;
          completada = completa;
          con_valor = ew;
          no_es_none = no_none;
        },
      )
  es_exitosa-Exitosa (texto t) h = cc h
  es_exitosa-Exitosa (escalar e) h = cc h
  es_exitosa-Exitosa (arreglo a) h = cc h
  es_exitosa-Exitosa (seleccion c) h = cc h
  es_exitosa-Exitosa (mapa c) h = cc h
  es_exitosa-Exitosa (tupla vs) h = cc h
  es_exitosa-Exitosa (lista vs) h = cc h
  es_exitosa-Exitosa (generico e) h = cc h
  es_exitosa-Exitosa (otro t) h = cc h

  pub Exitosa-es_exitosa :
      (campos : Campos E A)
      → Exitosa campos
      → es_exitosa py f (objeto "ResultadoUnidad" campos) ≡ true
  unfolding es_exitosa
  Exitosa-es_exitosa campos e =
      rw (e.con_registro, e.completada, e.con_valor, some-hay_valor e.valor e.no_es_none) refl
