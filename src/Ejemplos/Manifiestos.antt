-- ===== src/Ejemplos/Manifiestos.antt =====
-- A request, a backend that counts, and a text for the manifests of that request that is read back.
use Prim.Native.String.{◌∷◌ as cons, [] as vacia}
use pred_engine.Prelude.{
  ℕ, zero, suc, String, ◌≡◌, refl, true, Option, none, some, ◌==◌, string_eq, if◌then◌else◌, ap,
  arith, sym, ◌∙◌,
}
use pred_engine.Prelude.Int.{pos}
use pred_engine.Prelude.Result.{ok}
use pred_engine.Reanudacion.Contratos.{
  EstadoCorrida, nueva, en_progreso, interrumpida, completada, fallida, SolicitudCorrida,
  ManifiestoCorrida, media, BackendHpo, optuna, schema_version,
}
use pred_engine.Reanudacion.Almacen.{Codec}
use pred_engine.Reanudacion.Huella.{calcular_huella}
use pred_engine.Reanudacion.Controlador.{Externo}
use pred_engine.Reanudacion.Apertura.{LeyesCodec, EsDe}

abbrev pub unario : ℕ → String → String
unario zero r = cons "e" r
unario (suc n) r = cons "u" (unario n r)

abbrev mas_uno : Option (ℕ × String) → Option (ℕ × String)
mas_uno none = none
mas_uno (some (n, r)) = some (suc n, r)

abbrev leer_unario : String → Option (ℕ × String)
leer_unario vacia = none
leer_unario (cons c t) = if cons c vacia == "e" then some (0, t) else mas_uno (leer_unario t)

leer_unario-unario : (n : ℕ) (r : String) → leer_unario (unario n r) ≡ some (n, r)
leer_unario-unario zero r = refl
leer_unario-unario (suc n) r = ap mas_uno (leer_unario-unario n r)

abbrev numero : EstadoCorrida → ℕ
numero nueva = 0
numero en_progreso = 1
numero interrumpida = 2
numero completada = 3
numero fallida = 4

abbrev estado_de : ℕ → EstadoCorrida
estado_de zero = nueva
estado_de (suc zero) = en_progreso
estado_de (suc (suc zero)) = interrumpida
estado_de (suc (suc (suc zero))) = completada
estado_de (suc (suc (suc (suc n)))) = fallida

estado_de-numero : (e : EstadoCorrida) → estado_de (numero e) ≡ e
estado_de-numero nueva = refl
estado_de-numero en_progreso = refl
estado_de-numero interrumpida = refl
estado_de-numero completada = refl
estado_de-numero fallida = refl

abbrev marca : Option String → String
marca none = unario 0 ""
marca (some r) = unario 1 r

abbrev referencia_de : ℕ × String → Option String
referencia_de (zero, r) = none
referencia_de (suc n, r) = some r

abbrev pub solicitud : SolicitudCorrida ℕ ℕ
solicitud = record {
  run_id = "r1";
  familia = "classical";
  sku_id = "A";
  seed = pos 7;
  metrica_objetivo = "rmse";
  validacion = record { min_train = 10; horizonte = 2; paso = 1; estacionalidad = 7 };
  espacio_busqueda = 0;
  optimizador = record {
    n_trials_objetivo = 5;
    muestreador = "tpe";
    min_ventanas = 1;
    agregacion = media;
    proporcion_recorte = 0;
    factor_reduccion = 2;
    habilitar_poda_semantica = true;
  };
  n_observaciones = 20;
  huella_serie = "s";
  backend = optuna;
}

abbrev pub plantilla : ManifiestoCorrida
plantilla = record {
  version_esquema = schema_version;
  run_id = "r1";
  estado = nueva;
  familia = "classical";
  sku_id = "A";
  seed = pos 7;
  metrica_objetivo = "rmse";
  configuracion_validacion = solicitud.validacion;
  fingerprint_configuracion = "h";
  backend = optuna;
  backend_checkpoint = none;
  n_trials_objetivo = 5;
  n_trials_finalizados = 0;
}

abbrev pub con_avance : ℕ → ℕ → ℕ × String → ManifiestoCorrida
con_avance e n r = record plantilla {
  estado = estado_de e;
  backend_checkpoint = referencia_de r;
  n_trials_finalizados = n;
}

abbrev imprimir : ManifiestoCorrida → String
imprimir m = unario (numero m.estado) (unario m.n_trials_finalizados (marca m.backend_checkpoint))

abbrev con_marca : ℕ → ℕ → Option (ℕ × String) → Option ManifiestoCorrida
con_marca e n none = none
con_marca e n (some r) = some (con_avance e n r)

abbrev con_trials : ℕ → Option (ℕ × String) → Option ManifiestoCorrida
con_trials e none = none
con_trials e (some (n, t)) = con_marca e n (leer_unario t)

abbrev con_estado : Option (ℕ × String) → Option ManifiestoCorrida
con_estado none = none
con_estado (some (e, t)) = con_trials e (leer_unario t)

abbrev leer : String → Option ManifiestoCorrida
leer t = con_estado (leer_unario t)

abbrev pub codec : Codec
codec = record {
  Json = ManifiestoCorrida;
  dump = imprimir;
  loads = leer;
  es_objeto = λ m. true;
  version = λ m. some m.version_esquema;
  model_validate = λ m. some m;
}

-- A backend that counts the handles and the checkpoints that it gave.
abbrev pub externo : Externo
externo = record {
  Flotante = ℕ;
  Espacio = ℕ;
  Handle = ℕ;
  Motor = ℕ;
  codec = codec;
  sha256_json = λ p. "h";
  crear = λ n. (ok n, suc n);
  persistir = λ h n. (ok (unario n ""), suc n);
  restaurar = λ r n. (ok n, suc n);
}

marca_lem :
    (o : Option String) (e n : ℕ)
    → con_marca e n (leer_unario (marca o))
      ≡ some (record plantilla {
        estado = estado_de e;
        backend_checkpoint = o;
        n_trials_finalizados = n;
      })
marca_lem none e n = refl
marca_lem (some r) e n = refl

abbrev leido : ManifiestoCorrida → ManifiestoCorrida
leido m = record plantilla {
  estado = m.estado;
  backend_checkpoint = m.backend_checkpoint;
  n_trials_finalizados = m.n_trials_finalizados;
}

leer-imprimir : (m : ManifiestoCorrida) → leer (imprimir m) ≡ some (leido m)
leer-imprimir m =
    ap con_estado (leer_unario-unario (numero m.estado) _)
    ∙ ap (con_trials (numero m.estado)) (leer_unario-unario m.n_trials_finalizados _)
    ∙ marca_lem m.backend_checkpoint (numero m.estado) m.n_trials_finalizados
    ∙ ap (λ e. some (record (leido m) { estado = e })) (estado_de-numero m.estado)

backend_unico : (b : BackendHpo) → b ≡ optuna
backend_unico optuna = refl

leido_lem : (m : ManifiestoCorrida) → EsDe externo solicitud m → leido m ≡ m
unfolding calcular_huella
leido_lem m d = ground (
  arith,
  d.run_id,
  d.version,
  d.coincide.familia,
  d.coincide.sku_id,
  d.coincide.seed,
  d.coincide.metrica_objetivo,
  d.coincide.validacion,
  d.coincide.huella,
  d.coincide.n_trials_objetivo,
  backend_unico m.backend,
)

pub leyes : LeyesCodec externo solicitud
leyes = record {
  json_de = leido;
  loads-dump = λ m d. leer-imprimir m;
  es_objeto_lem = λ m d. refl;
  version_lem = λ m d. ap some (sym d.version);
  model_validate_lem = λ m d. ap some (leido_lem m d);
}
