-- ===== src/SafeJson/Tests.antt =====
-- Texts that the scanner takes and refuses.
use direct_trade_protocol.Prelude.{
  ◌≡◌, refl, true, false, [], ◌∷◌, ◌++◌, Text, codes, includes, ◌===◌, err,
}
use direct_trade_protocol.SafeJson.{
  unsafe_member_name, duplicate_member_name, non_integer_number, assert_safe_json_text,
}

-- `{'a`, with the quotation mark given.
abbrev opened : Text
opened = 123 ∷ 34 ∷ codes "a"

scans :
    (assert_safe_json_text false (opened ++ (92 ∷ 34 ∷ [])) ≡ err (unsafe_member_name, 3))
    × (assert_safe_json_text false (opened ++ (34 ∷ codes ":1.5," ++ (34 ∷ 97 ∷ 34 ∷ [])))
        ≡ err (duplicate_member_name, 9))
    × (assert_safe_json_text true (opened ++ (34 ∷ codes ":-1.5}")) ≡ err (non_integer_number, 5))
unfolding assert_safe_json_text includes ◌===◌
scans = (refl, refl, refl)
