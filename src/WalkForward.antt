-- ===== src/WalkForward.antt =====
-- src/pred_engine/comun/walkforward and comun/dataclasses/validacion_temporal.py: the causal
-- partition of a series, the metrics of a window, and the two ways to run through all windows.
pub mod Ventanas
pub mod Numeros
pub mod Metricas
pub mod Ejecucion
pub mod Recorridos
pub mod Causalidad
pub mod Equivalencia
pub mod Cierre
