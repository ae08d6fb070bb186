-- ===== src/Veredictos.antt =====
-- src/pred_engine/forecasting/evaluaciones: the blocks of the reserve, the rule that picks the
-- champion of a category, and the verdict of a SKU.
pub mod Bloques
pub mod Particion
pub mod Contratos
pub mod Seleccion
pub mod Empates
pub mod Campeona
pub mod Veredicto
pub mod Sustento
