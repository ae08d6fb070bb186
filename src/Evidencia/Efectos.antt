-- ===== src/Evidencia/Efectos.antt =====
-- What one operation of persistencia_evidencia writes: the rows of one run, in the state that allows them.
use pred_engine.Prelude.{
  String, ◌≡◌, refl, sym, ap, ◌∙◌, Bool, true, false, ℕ, Option, none, some, List, [], ◌∷◌, ◌++◌,
  string_eq, Bool-cases, inl, inr, Todos,
}
use mathlib.Core.List.{append-nil, append_assoc}
use pred_engine.Prelude.Sorted.{any}
use pred_engine.Prelude.Result.{Result, ok, err}
use pred_engine.Prelude.Exec.{continue, ◌>>=◌}
use pred_engine.Candidatos.Contratos.{FalloCandidato}
use pred_engine.Veredictos.Contratos.{SeleccionCategoria}
use pred_engine.Veredictos.Veredicto.{VeredictoSku}
use pred_engine.Evidencia.Contratos.{
  EstadoCorrida, en_curso, evaluada, seleccionada, publicada, rechazada, EvidenciaError, Base,
  Externo, Corrida, Ingesta, Unidad, Pronostico, Protocolo, Exclusion, FilaMetrica, Observacion,
}
use pred_engine.Evidencia.Tablas.{
  insertar, con_run, estado_en, con_estado, Accion, cerrar, transaccion, exigir_en, exigir_estado,
  o_integridad,
}
use pred_engine.Evidencia.Registro.{rechazar}
use pred_engine.Evidencia.Protocolo.{protocolo_guardado, esta_abierta}
use pred_engine.Evidencia.Marca.{confirmadas, incompleta}
use pred_engine.Evidencia.Guardado.{o_inconsistente}
use pred_engine.Evidencia.Publicacion.{sin_veredicto}

pub data Inicial : EstadoCorrida → Type 0 where
  empieza : Inicial en_curso
  se_rechaza : Inicial rechazada

module _ (x : Externo) where
  open x use {fl}

  abbrev pub Esta : String → EstadoCorrida → Base fl → Type 0
  Esta r s b = estado_en r b.corridas ≡ some s

  pub data Efecto : Base fl → Base fl → Type 0 where
    nada : {b : Base fl} → Efecto b b
    -- the first part leaves the runs as they are
    seguido : {b c d : Base fl} → Efecto b c → Efecto c d → c.corridas ≡ b.corridas → Efecto b d
    ingesta : {b : Base fl} (is : List Ingesta) → Efecto b (record b { ingestas = is })
    alta :
        {b : Base fl} (c : Corrida) (ss : List String) (fs : List FalloCandidato)
        → estado_en c.run_id b.corridas ≡ none
        → Inicial c.estado
        → Efecto b (record b {
          corridas = b.corridas ++ c ∷ [];
          skus = b.skus ++ con_run c.run_id ss;
          fallos = b.fallos ++ con_run c.run_id fs;
        })
    rechazo :
        {b : Base fl} (r : String) (causa : Option String)
        → Efecto b (record b { corridas = rechazar r causa b.corridas })
    unidad :
        {b : Base fl} (r : String) (u : Unidad) (ps : List (Pronostico fl.F))
        → Esta r en_curso b
        → u.run_id ≡ r
        → Todos (λ (p : Pronostico fl.F). p.run_id ≡ r) ps
        → Efecto b (record b { unidades = b.unidades ++ u ∷ []; pronosticos = b.pronosticos ++ ps })
    evalua :
        {b : Base fl} (r : String)
        → Esta r en_curso b
        → incompleta (protocolo_guardado r b.protocolos) (confirmadas r b.unidades) ≡ false
        → Efecto b (record b { corridas = con_estado r evaluada b.corridas })
    evidencia :
        {b : Base fl} (r : String) (ms : List (FilaMetrica fl.F))
        (cs : List (SeleccionCategoria fl.F)) (vs : List (VeredictoSku fl))
        → Esta r evaluada b
        → Efecto b (record b {
          metricas = b.metricas ++ con_run r ms;
          categorias = b.categorias ++ con_run r cs;
          veredictos = b.veredictos ++ con_run r vs;
        })
    demanda :
        {b : Base fl} (r : String) (os : List (Observacion fl.F))
        → Esta r evaluada b
        → Efecto b (record b { observaciones = b.observaciones ++ con_run r os })
    selecciona :
        {b : Base fl} (r : String)
        → Esta r evaluada b
        → Efecto b (record b { corridas = con_estado r seleccionada b.corridas })
    publica :
        {b : Base fl} (r : String)
        → Esta r seleccionada b
        → sin_veredicto x r b.veredictos b.skus ≡ false
        → Efecto b (record b { corridas = con_estado r publicada b.corridas })
    protocolo :
        {b : Base fl} (p : Protocolo)
        → protocolo_guardado p.run_id b.protocolos ≡ none
        → Efecto b (record b { protocolos = b.protocolos ++ p ∷ [] })
    corte :
        {b : Base fl} (r : String) (s : EstadoCorrida) (t : ℕ) (ts : List String)
        (es : List Exclusion)
        → Esta r s b
        → esta_abierta s ≡ true
        → Efecto b (record b {
          cortes = b.cortes ++ (r, t) ∷ [];
          tardios = b.tardios ++ con_run r ts;
          exclusiones = b.exclusiones ++ con_run r es;
        })

  -- A body that writes such things and leaves the runs as they are, when a run is in a state.
  abbrev pub Conserva : {A : Type 0} → String → EstadoCorrida → Accion x A → Type 0
  Conserva r s m = (b : Base fl) → Esta r s b → Efecto b (m b).1 × ((m b).1.corridas ≡ b.corridas)

  -- The state of a run where the runs are the same.
  pub Esta-mismas :
      (r : String) (s : EstadoCorrida) (b b' : Base fl)
      → b'.corridas ≡ b.corridas
      → Esta r s b
      → Esta r s b'
  Esta-mismas r s b b' e h = ap (estado_en r) e ∙ h

  abbrev pub Escribe : {A : Type 0} → Accion x A → Type 0
  Escribe m = (b : Base fl) → Efecto b (m b).1

  pub cerrar-Efecto :
      {A : Type 0} (b : Base fl) (p : Result EvidenciaError A × Base fl)
      → Efecto b p.1
      → Efecto b (cerrar x b p).1
  cerrar-Efecto b (ok a, b') h = h
  cerrar-Efecto b (err e, b') h = nada

  pub Conserva->>= :
      {A B : Type 0} (r : String) (s : EstadoCorrida) (m : Accion x A) (f : A → Accion x B)
      → Conserva r s m
      → ((a : A) → Conserva r s (f a))
      → Conserva r s (m >>= f)
  Conserva->>= {A} {B} r s m f hm hf b h = segun (m b) (hm b h)
    where
      segun :
          (p : Result EvidenciaError A × Base fl)
          → Efecto b p.1 × (p.1.corridas ≡ b.corridas)
          → Efecto b (continue p f).1 × ((continue p f).1.corridas ≡ b.corridas)
      segun (ok a, b') (e, k) =
          let (e', k') = hf a b' (Esta-mismas r s b b' k h) in (seguido e e' k, k' ∙ k)
      segun (err e', b') (e, k) = (e, k)

  -- The guard on the state, and then the rest in that state.
  pub exigir-Efecto :
      {A : Type 0} (r operacion : String) (permitidos : EstadoCorrida → Bool)
      (resto : EstadoCorrida → Accion x A)
      → ((s : EstadoCorrida) (b : Base fl)
          → permitidos s ≡ true
          → Esta r s b
          → Efecto b (resto s b).1)
      → Escribe (transaccion x (exigir_estado x r permitidos operacion >>= resto))
  exigir-Efecto {A} r operacion permitidos resto h b =
      cerrar-Efecto b _ (segun (estado_en r b.corridas) refl)
    where
      segun :
          (o : Option EstadoCorrida)
          → estado_en r b.corridas ≡ o
          → Efecto b (continue (exigir_en x r o permitidos operacion b) resto).1
      segun none e = nada
      segun (some s) e = elim (Bool-cases (permitidos s)) [
        | inl t ↦ rw t (h s b t e)
        | inr t ↦ rw t nada
      ]

-- A value that is read, or an exception: the database stays as it was.
module _ (x : Externo) where
  pub lift-P :
      {A B : Type 0} (P : Base x.fl → Type 0) (leido : Result EvidenciaError A) (f : A → Accion x B)
      (b : Base x.fl)
      → P b
      → ((a : A) → leido ≡ ok a → P (f a b).1)
      → P (continue (leido, b) f).1
  lift-P P (ok a) f b h k = k a refl
  lift-P P (err e) f b h k = h

  pub o_integridad-P :
      {A B : Type 0} (P : Base x.fl → Type 0) (leido : Option A) (f : A → Accion x B)
      (b : Base x.fl)
      → P b
      → ((a : A) → leido ≡ some a → P (f a b).1)
      → P (continue (o_integridad x leido b) f).1
  o_integridad-P P (some a) f b h k = k a refl
  o_integridad-P P none f b h k = h

  pub o_inconsistente-P :
      {A B : Type 0} (P : Base x.fl → Type 0) (leido : Option A) (f : A → Accion x B)
      (b : Base x.fl)
      → P b
      → ((a : A) → leido ≡ some a → P (f a b).1)
      → P (continue (o_inconsistente x leido b) f).1
  o_inconsistente-P P (some a) f b h k = k a refl
  o_inconsistente-P P none f b h k = h

pub insertar-append :
    {A : Type 0} (misma : A → A → Bool) (tabla filas : List A) {nueva : List A}
    → insertar misma tabla filas ≡ some nueva
    → nueva ≡ tabla ++ filas
insertar-append misma tabla [] e = cc (e, append-nil tabla)
insertar-append misma tabla (f ∷ fs) e = elim (Bool-cases (any (misma f) tabla)) [
  | inl b ↦ absurd (cc (e, b))
  | inr b ↦
      insertar-append misma (tabla ++ f ∷ []) fs (sym (rw b refl) ∙ e)
      ∙ append_assoc tabla (f ∷ []) fs
]
