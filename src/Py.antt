-- ===== src/Py.antt =====
-- The parts of Python that the program's modules share: texts, dicts and JSON values.
pub mod Text
pub mod Number
pub mod Order
pub mod Dict
pub mod Value
