-- ===== src/Reanudacion.antt =====
-- src/pred_engine/optimizacion/control_reanudacion: the life cycle of an HPO run that can be resumed.
pub mod Contratos
pub mod Transiciones
pub mod Huella
pub mod Almacen
pub mod Controlador
pub mod Avance
pub mod Apertura
pub mod Compatibilidad
pub mod Ciclo
pub mod Retorno
