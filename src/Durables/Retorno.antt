-- ===== src/Durables/Retorno.antt =====
-- unit_checkpoints.py: a result that was saved is loaded again.
use Prim.Native.String.{◌++◌ as ◌<>◌}
use pred_engine.Prelude.{
  String, ◌≡◌, refl, sym, ap, subst, ◌∙◌, true, some, ◌==◌, string_eq, string_eq_refl,
  if◌then◌else◌, ◌&&◌,
}
use pred_engine.Prelude.Result.{Result, ok, err}
use pred_engine.Prelude.Exec.{continue}
use pred_engine.Reanudacion.Contratos.{ReanudacionError}
use pred_engine.Reanudacion.Almacen.{
  Disco, manifiesto, con_suceso, mkdir_con, escribir_atomico, es_ok, ficheros-escribir_atomico,
}
use pred_engine.Durables.Codec.{Valor, Json, Python, encode}
use pred_engine.Durables.IdaVuelta.{EsGuardable, decode-encode}
use pred_engine.Durables.Unidades.{
  Camino, Formato, es_exitosa, reutilizada, datos, sobre, del_disco, save_result, load_result,
}

module _ (py : Python) (f : Formato py) where
  open py use {E, A}

  escrito :
      (id t : String) (m : Result ReanudacionError (Unit {0}) × Disco) (d : Disco)
      → del_disco py f (continue m (λ _. escribir_atomico id t)) ≡ (ok tt, d)
      → d.ficheros (manifiesto id) ≡ some t
  escrito id t (err e, s) d h = cc h
  escrito id t (ok u, s) d h = segun (escribir_atomico id t s) refl h
    where
      segun :
          (r : Result ReanudacionError (Unit {0}) × Disco)
          → escribir_atomico id t s ≡ r
          → del_disco py f r ≡ (ok tt, d)
          → d.ficheros (manifiesto id) ≡ some t
      segun (err e, s') es k = cc k
      segun (ok v, s') es k =
          let hecho : s'.ficheros (manifiesto id) ≡ (
              if es_ok (escribir_atomico id t s).0 && id == id
              then some t
              else s.ficheros (manifiesto id)) =
            ap (λ r. r.1.ficheros (manifiesto id)) (sym es) ∙ ficheros-escribir_atomico id t id s in
          let son : s' ≡ d = ap (λ r. r.1) k in
          subst (λ u. u.ficheros (manifiesto id) ≡ some t) son
            (hecho ∙ rw (es, string_eq_refl id) refl)

  -- With a JSON that reads back the envelope as it was printed: after `save_result` has returned for a
  -- completed result with a value that can be stored, `load_result` of the same file returns that
  -- result, marked as used again.
  pub load_result-save_result :
      (p : Camino) (r : Valor E A) (d d' : Disco)
      → ((j : Json E)
          → encode py r ≡ ok j
          → f.loads (f.dumps (sobre py f (datos py f p.clave j)) <> "\n")
            ≡ some (sobre py f (datos py f p.clave j)))
      → EsGuardable py r
      → es_exitosa py f r ≡ true
      → save_result py f (some p) r d ≡ (ok tt, d')
      → load_result py f (some p) d' ≡ ok (some (reutilizada py f r))
  unfolding save_result load_result
  load_result-save_result p r d d' lee guardable exitosa guarda =
      let (j, ida, vuelta) = decode-encode py r guardable in
      let hecho =
        escrito (f.ruta p) (f.dumps (sobre py f (datos py f p.clave j)) <> "\n")
          (con_suceso mkdir_con d) d' (sym (rw (exitosa, ida) refl) ∙ guarda) in
      rw
        (
          hecho,
          lee j ida,
          string_eq_refl p.clave,
          string_eq_refl (f.sha256 (f.dumps (datos py f p.clave j))),
          vuelta,
          exitosa,
        )
        refl
