-- ===== src/Enrutador/Registros.antt =====
-- registro.py: what a registration does, and what a lookup can find.

use pred_engine.Prelude.{
  String, ◌≡◌, ◌≢◌, refl, Bool, true, false, Option, none, some, ap, ◌∙◌, arith, not, ◌==◌, ◌&&◌,
  sym, subst, Bool-cases, inl, inr,
}
use pred_engine.Prelude.Result.{ok, >>=-eq-ok, raise_if-ok, ok_injective}
use pred_engine.Enrutador.Contratos.{Familia, familia_eq, familia_beq_iff, leer_familia}
use pred_engine.Enrutador.Registro.{
  Estrategia, StrategyRegistry, es_de, exigir_familia, register, resolve, ocupada,
  anotar_estrategia, resolve_familia,
}

es_cierto : (b : Bool) → not b ≡ false → b ≡ true
es_cierto b h = ground arith

module _ {Json Wf : Type 0} where
  -- Every strategy of the registry satisfies the contract and declares the family it stands under.
  abbrev pub es_fiel : Familia → Option (Estrategia Json Wf) → Bool
  es_fiel f none = true
  es_fiel f (some e) = e.satisface && es_de f (leer_familia e.family)

  abbrev pub EsFiel : StrategyRegistry Json Wf → Type 0
  EsFiel r = (f : Familia) → es_fiel f (r f) ≡ true

  -- What a registration that returned has checked and done.
  pub record Registrado (family : String) (s : Estrategia Json Wf) (replace : Bool)
      (r r' : StrategyRegistry Json Wf) : Type 0 where
    pub familia : Familia
    pub valida : exigir_familia family ≡ ok familia
    pub satisface : s.satisface ≡ true
    pub declarada : es_de familia (leer_familia s.family) ≡ true
    pub libre : (ocupada (r familia) && not replace) ≡ false
    pub escrita : r' ≡ anotar_estrategia familia s r

  pub register-Registrado :
      (family : String) (s : Estrategia Json Wf) (replace : Bool) (r r' : StrategyRegistry Json Wf)
      → register family s replace r ≡ ok r'
      → Registrado family s replace r r'
  unfolding register
  register-Registrado family s replace r r' h =
      let (f, valida, h1) = >>=-eq-ok (exigir_familia family) _ h in
      let (a, h2) = raise_if-ok _ _ _ h1 in
      let (b, h3) = raise_if-ok _ _ _ h2 in
      let (c, h4) = raise_if-ok _ _ _ h3 in
      record {
        familia = f;
        valida = valida;
        satisface = es_cierto _ a;
        declarada = es_cierto _ b;
        libre = c;
        escrita = sym (ok_injective h4);
      }

  anotar-EsFiel :
      (f : Familia) (s : Estrategia Json Wf) (r : StrategyRegistry Json Wf)
      → EsFiel r
      → s.satisface ≡ true
      → es_de f (leer_familia s.family) ≡ true
      → EsFiel (anotar_estrategia f s r)
  anotar-EsFiel f s r fiel a b g = elim (Bool-cases (f == g)) [
    | inl igual ↦
        let fg : f ≡ g = (familia_beq_iff f g).0 igual in
        rw igual
          (subst (λ k. (s.satisface && es_de k (leer_familia s.family)) ≡ true) fg (rw (a, b) refl))
    | inr otra ↦ rw otra (fiel g)
  ]

  -- Whatever is registered, in whatever order and with `replace` or not, a lookup finds only
  -- strategies that satisfy the contract and declare the family under which they stand.
  pub register-EsFiel :
      (family : String) (s : Estrategia Json Wf) (replace : Bool) (r r' : StrategyRegistry Json Wf)
      → EsFiel r
      → register family s replace r ≡ ok r'
      → EsFiel r'
  register-EsFiel family s replace r r' fiel h =
      let p = register-Registrado family s replace r r' h in
      rw p.escrita (anotar-EsFiel p.familia s r fiel p.satisface p.declarada)

  resolve_familia-anotar_ne :
      (f g : Familia) (s : Estrategia Json Wf) (r : StrategyRegistry Json Wf)
      → f ≢ g
      → resolve_familia g (anotar_estrategia f s r) ≡ resolve_familia g r
  unfolding resolve_familia
  resolve_familia-anotar_ne f g s r d = elim (Bool-cases (f == g)) [
    | inl e ↦ absurd (d ((familia_beq_iff f g).0 e))
    | inr e ↦ rw e
  ]

  resolve-anotar_self :
      (family : String) (f : Familia) (s : Estrategia Json Wf) (r : StrategyRegistry Json Wf)
      → exigir_familia family ≡ ok f
      → resolve family (anotar_estrategia f s r) ≡ ok s
  unfolding resolve
  resolve-anotar_self family f s r e = rw (e, (familia_beq_iff f f).1 refl)

  -- After a registration that returned, the lookup of its family gives the new strategy.
  pub resolve-register :
      (family : String) (s : Estrategia Json Wf) (replace : Bool) (r r' : StrategyRegistry Json Wf)
      → register family s replace r ≡ ok r'
      → resolve family r' ≡ ok s
  resolve-register family s replace r r' h =
      let p = register-Registrado family s replace r r' h in
      ap (resolve family) p.escrita ∙ resolve-anotar_self family p.familia s r p.valida

  -- A registration that returned leaves the lookup of every other family as it was.
  pub resolve_familia-register :
      (family : String) (s : Estrategia Json Wf) (replace : Bool) (r r' : StrategyRegistry Json Wf)
      (g : Familia)
      → register family s replace r ≡ ok r'
      → exigir_familia family ≢ ok g
      → resolve_familia g r' ≡ resolve_familia g r
  resolve_familia-register family s replace r r' g h otra =
      let p = register-Registrado family s replace r r' h in
      ap (resolve_familia g) p.escrita
      ∙ resolve_familia-anotar_ne p.familia g s r (λ e. otra (p.valida ∙ ap ok e))
