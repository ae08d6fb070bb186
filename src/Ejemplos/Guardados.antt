-- ===== src/Ejemplos/Guardados.antt =====
-- A completed unit with an array, a dictionary and a nested list, saved and loaded.
use pred_engine.Prelude.{
  ℕ, ◌≡◌, refl, ap, sym, ◌∙◌, ◌↔◌, true, none, some, [], ◌∷◌, ◌==◌, string_eq, if◌then◌else◌,
  nat_beq,
}
use pred_engine.Prelude.Result.{Result, ok, err, ok_injective}
use pred_engine.Reanudacion.Almacen.{Disco, bien, con_suceso, mkdir_con, escribir_atomico}
use pred_engine.Durables.Codec.{
  CheckpointError, type_error, Valor, texto, escalar, arreglo, objeto, mapa, tupla, lista,
  sin_valores, y_valor, sin_campos, y_campo, Json, jescalar, jtexto, jlista, jobjeto, Python,
  encode, decode, permitido, tipado, sin_elementos, y_elemento, sin_entradas, y_entrada,
}
use pred_engine.Durables.IdaVuelta.{EsGuardable, decode-encode}
use pred_engine.Durables.Unidades.{
  Camino, Formato, es_exitosa, reutilizada, sobre, datos, save_result, load_result,
}
use pred_engine.Durables.Retorno.{load_result-save_result}
use pred_engine.Durables.Confianza.{Fiable, load_result_iff}

abbrev como_arreglo : Json ℕ → Result CheckpointError ℕ
como_arreglo (jescalar n) = ok n
como_arreglo _ = err type_error

-- The scalars are numbers: 0 for None and 1 for True.
abbrev python : Python
python = record {
  E = ℕ;
  A = ℕ;
  tolist = λ a. jescalar a;
  asarray = como_arreglo;
  model_validate = λ v. err type_error;
  construir = λ n c. ok (objeto n c);
  iterar_texto = λ t. sin_valores;
}

abbrev unidad : Valor ℕ ℕ
unidad = objeto "ResultadoUnidad" (
    y_campo "registro" (objeto "RegistroUnidad" (y_campo "estado" (texto "completada") sin_campos))
      (y_campo "reutilizado" (escalar 2) (
        y_campo "valor"
          (tupla (
            y_valor (arreglo 7) (
              y_valor (mapa (y_campo "a" (lista (y_valor (escalar 3) sin_valores)) sin_campos))
                sin_valores)))
          sin_campos)))

es_guardable : EsGuardable python unidad
unfolding EsGuardable permitido
es_guardable = (refl, ((refl, (tt, tt), refl), (tt, ((refl, (((tt, tt), tt), tt)), tt))), refl)

decode-encode_example : (j : Json ℕ) × (encode python unidad ≡ ok j) × (decode python j ≡ ok unidad)
decode-encode_example = decode-encode python unidad es_guardable

abbrev codificada : Json ℕ
codificada = tipado "ResultadoUnidad" (
    jobjeto (
      y_entrada "registro"
        (tipado "RegistroUnidad" (jobjeto (y_entrada "estado" (jtexto "completada") sin_entradas)))
        (y_entrada "reutilizado" (jescalar 2) (
          y_entrada "valor"
            (tipado "tuple" (
              jlista (
                y_elemento (tipado "array" (jescalar 7)) (
                  y_elemento
                    (tipado "mapping" (
                      jobjeto (
                        y_entrada "a" (jlista (y_elemento (jescalar 3) sin_elementos))
                          sin_entradas)))
                    sin_elementos))))
            sin_entradas))))

abbrev guardado : Json ℕ
guardado = jobjeto (
    y_entrada "data"
      (jobjeto (
        y_entrada "key" (jtexto "k1") (
          y_entrada "result" codificada
            (y_entrada "schema" (jtexto "pred-engine.unidad/1") sin_entradas))))
      (y_entrada "sha256" (jtexto "suma") sin_entradas))

-- A JSON that prints each value alike, and reads back the one that is stored.
abbrev formato : Formato python
formato = record {
  dumps = λ j. "{}";
  loads = λ t. if t == "{}\n" then some guardado else none;
  sha256 = λ t. "suma";
  ruta = λ p. p.clave;
  es_none = λ e. nat_beq e 0;
  verdadero = 1;
}

abbrev camino : Camino
camino = record { carpeta = "L2"; clave = "k1" }

abbrev disco : Disco
disco = record { ficheros = λ r. none; sucesos = bien ∷ bien ∷ bien ∷ bien ∷ [] }

abbrev disco_final : Disco
disco_final = (save_result python formato (some camino) unidad disco).1

se_codifica : encode python unidad ≡ ok codificada
unfolding encode permitido
se_codifica = refl

es_buena : es_exitosa python formato unidad ≡ true
unfolding es_exitosa
es_buena = refl

se_guarda : save_result python formato (some camino) unidad disco ≡ (ok tt, disco_final)
unfolding save_result es_exitosa encode permitido con_suceso mkdir_con escribir_atomico
se_guarda = refl

se_relee :
    load_result python formato (some camino) disco_final
    ≡ ok (some (reutilizada python formato unidad))
unfolding load_result decode es_exitosa permitido save_result encode con_suceso mkdir_con
    escribir_atomico
se_relee = refl

load_result-save_result_example :
    load_result python formato (some camino) disco_final
    ≡ ok (some (reutilizada python formato unidad))
load_result-save_result_example =
    load_result-save_result python formato camino unidad disco disco_final
      (λ j h.
        ap (λ r. some (sobre python formato (datos python formato "k1" r)))
          (ok_injective (sym se_codifica ∙ h)))
      es_guardable es_buena se_guarda

load_result_iff_example :
    (load_result python formato (some camino) disco_final
      ≡ ok (some (reutilizada python formato unidad)))
    ↔ Fiable python formato camino disco_final (reutilizada python formato unidad)
load_result_iff_example =
    load_result_iff python formato camino disco_final (reutilizada python formato unidad)

disco_final-Fiable : Fiable python formato camino disco_final (reutilizada python formato unidad)
disco_final-Fiable =
    (load_result_iff python formato camino disco_final (reutilizada python formato unidad)).0
      se_relee
