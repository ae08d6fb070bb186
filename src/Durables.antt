-- ===== src/Durables.antt =====
-- unit_checkpoints.py: the results of units, kept as files from which a later run takes them.
pub mod Codec
pub mod IdaVuelta
pub mod Unidades
pub mod Retorno
pub mod Exitosas
pub mod Confianza
