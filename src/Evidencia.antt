-- ===== src/Evidencia.antt =====
-- forecasting/persistencia_evidencia: the runs of M3 and their evidence in the tables `m3_*`.
pub mod Contratos
pub mod Tablas
pub mod Registro
pub mod Unidades
pub mod Protocolo
pub mod Recuperacion
pub mod Evaluacion
pub mod Guardado
pub mod Marca
pub mod Publicacion
pub mod Efectos
pub mod Escrituras
pub mod Pasos
pub mod Altas
pub mod Fijados
pub mod Congelados
pub mod Ordenes
pub mod Avances
pub mod Estados
pub mod Congelada
pub mod Protocolos
pub mod Intactas
pub mod Completas
pub mod Retornos
pub mod Repetidas
pub mod Lecturas
pub mod Nuevas
pub mod Vuelta
pub mod Relectura
pub mod Derivada
