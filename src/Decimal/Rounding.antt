-- ===== src/Decimal/Rounding.antt =====
-- `multiplyRounded` on amounts that are not negative: the exact product, rounded half up.
