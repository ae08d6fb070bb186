-- ===== src/Enrutador.antt =====
-- src/pred_engine/optimizacion/router: which model families a product is sent to, and how the
-- answers of their strategies are checked.
pub mod Contratos
pub mod Politica
pub mod Registro
pub mod Router
pub mod Manifiesto
pub mod Matriz
pub mod Registros
pub mod Rutas
pub mod Entrega
