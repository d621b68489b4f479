-- ===== src/Trade.antt =====
-- What every part says of a trade.

-- The two sides: a component is evaluated for each on its own.
pub data Side : Type 0 where
  long short : Side
