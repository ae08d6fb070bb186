-- ===== src/Hpo.antt =====
-- src/pred_engine/optimizacion/optimizadores/HPO: pruning of trials, and how one trial is run.
pub mod Asha
pub mod Escalones
pub mod Ordenados
pub mod Supervivencia
pub mod Trial
pub mod Espacio
pub mod Declaracion
pub mod Activos
pub mod Configuraciones
pub mod Sugeridas
pub mod Muestras
pub mod Estudio
pub mod Intentos
pub mod Conteo
pub mod Sesiones
pub mod Desenlace
pub mod Sugerencia
pub mod Cierre
pub mod Terminacion
