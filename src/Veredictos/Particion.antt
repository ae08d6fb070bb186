-- ===== src/Veredictos/Particion.antt =====
-- bloques.py: the blocks of the reserve share no day and leave no origin out.
use pred_engine.Prelude.{
  ℕ, ◌+◌, ◌-◌, ◌≤◌, ◌<◌, ◌≡◌, ◌↔◌, Bool, true, false, some, arith, get_elem?, Bool-cases, inl, inr,
  ltb, if◌then◌else◌,
}
use pred_engine.Prelude.Result.{ok}
use pred_engine.Veredictos.Bloques.{
  Bloque, seleccion, embargo, prueba, Calendario, LeyesCalendario, BloquesReserva, dias_seleccion,
  bloque, origenes, dias, bloques_reserva,
}

module _ {F : Type 0} (c : Calendario F) (l : LeyesCalendario c) where
  -- What the constructor checks.
  abbrev pub EsValida : BloquesReserva F → Type 0
  EsValida b =
      (1 ≤ b.dias_reserva) × (1 ≤ b.horizonte) × (c.es_fraccion b.fraccion_seleccion ≡ true)

  bloques_reserva-EsValida :
      (t r h : ℕ) (f : F) (b : BloquesReserva F) → bloques_reserva c t r h f ≡ ok b → EsValida b
  unfolding bloques_reserva
  bloques_reserva-EsValida t r h f b e = ground (arith, e)

  en_rango :
      (inicio n i d : ℕ) → get_elem? (c.date_range inicio n) i ≡ some d → (i < n) × (d ≡ inicio + i)
  en_rango inicio n i d e = elim (Bool-cases (ltb i n)) [
    | inl b ↦ ground (arith, l.dia inicio n i (ground arith))
    | inr b ↦ ground (arith, l.fuera inicio n i (ground arith))
  ]

  -- The days that the forecast of an origin covers are all in its block, or it is in the embargo.
  abbrev pub EstaDentro : BloquesReserva F → Bloque → ℕ → Type 0
  EstaDentro b seleccion d = (b.t_star ≤ d) × (d + b.horizonte ≤ b.t_star + dias_seleccion c b)
  EstaDentro b embargo d =
      (b.t_star ≤ d)
      × (d < b.t_star + dias_seleccion c b)
      × (b.t_star + dias_seleccion c b < d + b.horizonte)
  EstaDentro b prueba d =
      (b.t_star + dias_seleccion c b ≤ d) × (d + b.horizonte ≤ b.t_star + b.dias_reserva)

  origenes-EstaDentro :
      (b : BloquesReserva F) (cual : Bloque) (i d : ℕ)
      → EsValida b
      → get_elem? (origenes c b cual) i ≡ some d
      → EstaDentro b cual d
  unfolding origenes
  origenes-EstaDentro b seleccion i d v e = ground (arith, en_rango _ _ i d e)
  origenes-EstaDentro b embargo i d v e = ground (arith, en_rango _ _ i d e)
  origenes-EstaDentro b prueba i d v e = ground (arith, en_rango _ _ i d e)

  bloque-EstaDentro :
      (b : BloquesReserva F) (cual : Bloque) (d : ℕ)
      → EsValida b
      → EstaDentro b cual d
      → bloque c b d ≡ cual
  unfolding bloque
  bloque-EstaDentro b seleccion d v e = ground arith
  bloque-EstaDentro b embargo d v e = ground arith
  bloque-EstaDentro b prueba d v e = ground arith

  indice :
      (inicio n d : ℕ)
      → inicio ≤ d
      → d < inicio + n
      → (i : ℕ) × (get_elem? (c.date_range inicio n) i ≡ some d)
  indice inicio n d a z = (d - inicio, grind (arith, l.dia inicio n (d - inicio) (omega arith)))

  EstaDentro-origenes :
      (b : BloquesReserva F) (cual : Bloque) (d : ℕ)
      → EsValida b
      → EstaDentro b cual d
      → (i : ℕ) × (get_elem? (origenes c b cual) i ≡ some d)
  unfolding origenes
  EstaDentro-origenes b seleccion d v e = indice _ _ d (omega arith) (omega arith)
  EstaDentro-origenes b embargo d v e = indice _ _ d (omega arith) (omega arith)
  EstaDentro-origenes b prueba d v e = indice _ _ d (omega arith) (omega arith)

  EstaDentro-bloque :
      (b : BloquesReserva F) (cual : Bloque) (d : ℕ)
      → b.t_star ≤ d
      → d + b.horizonte ≤ b.t_star + b.dias_reserva
      → bloque c b d ≡ cual
      → EstaDentro b cual d
  unfolding bloque
  EstaDentro-bloque b seleccion d z m e = ground arith
  EstaDentro-bloque b embargo d z m e = ground arith
  EstaDentro-bloque b prueba d z m e = ground arith

  -- With the calendar's laws and valid blocks, an origin from t* on whose horizon ends within the reserve stands in the list
  -- of origins of a block just when `bloque` says that this is its block.
  pub origenes_iff :
      (t_star dias_reserva horizonte : ℕ) (fraccion : F) (b : BloquesReserva F) (cual : Bloque)
      (d : ℕ)
      → bloques_reserva c t_star dias_reserva horizonte fraccion ≡ ok b
      → b.t_star ≤ d
      → d + b.horizonte ≤ b.t_star + b.dias_reserva
      → (bloque c b d ≡ cual) ↔ ((i : ℕ) × (get_elem? (origenes c b cual) i ≡ some d))
  origenes_iff t r h f b cual d e z m =
      let v = bloques_reserva-EsValida t r h f b e in
      (
        λ q. EstaDentro-origenes b cual d v (EstaDentro-bloque b cual d z m q),
        λ q. bloque-EstaDentro b cual d v (origenes-EstaDentro b cual q.0 d v q.1),
      )

  -- With the calendar's laws and valid blocks, each day that the forecast of an origin of selection covers is one of the days
  -- of selection, and each that of an origin of test covers is one of the days of test.
  pub origenes-dias :
      (t_star dias_reserva horizonte : ℕ) (fraccion : F) (b : BloquesReserva F)
      (es_seleccion : Bool) (i d j : ℕ)
      → bloques_reserva c t_star dias_reserva horizonte fraccion ≡ ok b
      → get_elem? (origenes c b (if es_seleccion then seleccion else prueba)) i ≡ some d
      → 1 ≤ j
      → j ≤ b.horizonte
      → (k : ℕ) × (get_elem? (dias c b es_seleccion) k ≡ some (d + j))
  unfolding dias
  origenes-dias t r h f b true i d j e o z m =
      let v = bloques_reserva-EsValida t r h f b e in
      let w = origenes-EstaDentro b seleccion i d v o in
      indice _ _ (d + j) (omega arith) (omega arith)
  origenes-dias t r h f b false i d j e o z m =
      let v = bloques_reserva-EsValida t r h f b e in
      let w = origenes-EstaDentro b prueba i d v o in
      let w2 = l.menos b.fraccion_seleccion b.dias_reserva v.2 in
      indice _ _ (d + j) (omega arith) (omega arith)

  -- With the calendar's laws and valid blocks, every day of selection is before every day of test.
  pub dias_separados :
      (t_star dias_reserva horizonte : ℕ) (fraccion : F) (b : BloquesReserva F) (i j x y : ℕ)
      → bloques_reserva c t_star dias_reserva horizonte fraccion ≡ ok b
      → get_elem? (dias c b true) i ≡ some x
      → get_elem? (dias c b false) j ≡ some y
      → x < y
  unfolding dias
  dias_separados t r h f b i j x y e p q = ground (arith, en_rango _ _ i x p, en_rango _ _ j y q)
