-- ===== src/Veredictos/Bloques.antt =====
-- bloques.py: the block of selection and the block of test of the reserve (ADR-023).
-- A day is its number, counted from a fixed date.
use pred_engine.Prelude.{
  ℕ, suc, ◌+◌, ◌-◌, ◌≤◌, ◌<◌, ◌≡◌, Bool, true, false, Option, none, some, List, [], ◌∷◌, length,
  get_elem?, ltb, leb, not, if◌then◌else◌,
}
use pred_engine.Prelude.Result.{Result, ok, ◌>>◌, raise_if}

pub data Bloque : Type 0 where
  seleccion : Bloque
  embargo : Bloque
  prueba : Bloque

-- What is used of pandas and of floats: `pd.date_range(inicio, periods=n, freq="D")`,
-- `0 < f < 1`, and `floor(round(f * dias, 9))`.
pub record Calendario (F : Type 0) : Type 0 where
  pub date_range : ℕ → ℕ → List ℕ
  pub es_fraccion : F → Bool
  pub parte : F → ℕ → ℕ

-- `date_range` gives `n` days in a row. A fraction of the days is not more than the days.
pub record LeyesCalendario {F : Type 0} (c : Calendario F) : Type 0 where
  pub dia : (inicio n i : ℕ) → i < n → get_elem? (c.date_range inicio n) i ≡ some (inicio + i)
  pub fuera : (inicio n i : ℕ) → n ≤ i → get_elem? (c.date_range inicio n) i ≡ none
  pub menos : (f : F) (dias : ℕ) → c.es_fraccion f ≡ true → c.parte f dias ≤ dias

pub record BloquesReserva (F : Type 0) : Type 0 where
  pub t_star : ℕ
  pub dias_reserva : ℕ
  pub horizonte : ℕ
  pub fraccion_seleccion : F

pub data BloquesError : Type 0 where
  dias_invalidos : BloquesError
  horizonte_invalido : BloquesError
  fraccion_invalida : BloquesError

pub record Rango : Type 0 where
  pub n : ℕ
  pub primero : Option ℕ
  pub ultimo : Option ℕ

abbrev ultimo_de : List ℕ → Option ℕ
ultimo_de [] = none
ultimo_de (x ∷ []) = some x
ultimo_de (x ∷ (y ∷ ys)) = ultimo_de (y ∷ ys)

abbrev pub rango : List ℕ → Rango
rango fechas = record { n = length fechas; primero = get_elem? fechas 0; ultimo = ultimo_de fechas }

pub record Limites (F : Type 0) : Type 0 where
  pub fraccion_seleccion : F
  pub dias_reserva : ℕ
  pub horizonte : ℕ
  pub dias_seleccion : ℕ
  pub origenes_de : Bloque → Rango
  pub fechas_seleccion : Rango
  pub fechas_prueba : Rango

module _ {F : Type 0} (c : Calendario F) where
  -- `BloquesReserva(...)` with its `__post_init__`
  unfoldable pub bloques_reserva : ℕ → ℕ → ℕ → F → Result BloquesError (BloquesReserva F)
  bloques_reserva t_star dias_reserva horizonte fraccion = do
    raise_if (ltb dias_reserva 1) dias_invalidos
    raise_if (ltb horizonte 1) horizonte_invalido
    raise_if (not (c.es_fraccion fraccion)) fraccion_invalida
    ok (record {
      t_star = t_star;
      dias_reserva = dias_reserva;
      horizonte = horizonte;
      fraccion_seleccion = fraccion;
    })

  abbrev pub dias_seleccion : BloquesReserva F → ℕ
  dias_seleccion b = c.parte b.fraccion_seleccion b.dias_reserva

  -- `k <= S - H` and `k < S` for `k = (origen - t_star).days`, with each term taken to the side
  -- where it is added, so that an origin before t* and a block shorter than the horizon are right.
  unfoldable pub bloque : BloquesReserva F → ℕ → Bloque
  bloque b origen =
      if leb (origen + b.horizonte) (b.t_star + dias_seleccion b)
      then seleccion
      else if ltb origen (b.t_star + dias_seleccion b)
      then embargo
      else prueba

  -- The first day after t* and the number of days. `max(0, ...)` is the subtraction that stops at 0.
  abbrev primero_y_dias : BloquesReserva F → Bloque → ℕ × ℕ
  primero_y_dias b seleccion = (0, suc (dias_seleccion b) - b.horizonte)
  primero_y_dias b embargo = (
    suc (dias_seleccion b) - b.horizonte,
    dias_seleccion b - (suc (dias_seleccion b) - b.horizonte),
  )
  primero_y_dias b prueba =
      (dias_seleccion b, suc b.dias_reserva - (b.horizonte + dias_seleccion b))

  unfoldable pub origenes : BloquesReserva F → Bloque → List ℕ
  origenes b cual = c.date_range (b.t_star + (primero_y_dias b cual).0) (primero_y_dias b cual).1

  -- `dias`, with `es_seleccion` for its two literals
  unfoldable pub dias : BloquesReserva F → Bool → List ℕ
  dias b es_seleccion =
      if es_seleccion
      then c.date_range (b.t_star + 1) (dias_seleccion b)
      else c.date_range (b.t_star + (dias_seleccion b + 1)) (b.dias_reserva - dias_seleccion b)

  unfoldable pub limites : BloquesReserva F → Limites F
  unfolding origenes dias
  limites b = record {
    fraccion_seleccion = b.fraccion_seleccion;
    dias_reserva = b.dias_reserva;
    horizonte = b.horizonte;
    dias_seleccion = dias_seleccion b;
    origenes_de = λ cual. rango (origenes b cual);
    fechas_seleccion = rango (dias b true);
    fechas_prueba = rango (dias b false);
  }
