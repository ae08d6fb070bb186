-- ===== src/Candidatos.antt =====
-- forecasting/adaptador_candidatos: what M2 hands over is validated, the batch and then each candidate.
pub mod Contratos
pub mod Lote
pub mod Validacion
pub mod Destinos
