-- ===== src/Paralelo.antt =====
-- comun/ejecucion_paralela.py and comun/errores_codigo.py.
pub mod Codigos
pub mod Conocidos
pub mod Unidades
pub mod Pool
pub mod Orden
pub mod EnVuelo
pub mod Resultados
pub mod Equivalencia
pub mod Anuncio
