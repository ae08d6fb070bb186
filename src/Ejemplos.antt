-- ===== src/Ejemplos.antt =====
-- Concrete inputs: each theorem of the library that has hypotheses is applied to one.
mod Manifiestos
mod Corridas
mod Rutas
mod Ventanas
mod Podas
mod Ensayos
mod Campeonas
mod Unidades
mod Espacios
mod Estudios
mod Guardados
mod Entregas
mod Evidencias
mod Publicadas
mod Releidas
