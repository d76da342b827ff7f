-- ===== src/Python.antt =====
-- What the program takes from Python: floats, dynamically typed values, exceptions, and the
-- string conversions of the interpreter.
--
-- Every finite double is a whole number of units of 2^-1074, so `finite k` is that number, and
-- comparison, `math.floor`, `int` and `math.isfinite` are exact. The sign of a zero is not kept:
-- the program never reads it.
pub mod Floats
pub mod Values
pub mod Actions
