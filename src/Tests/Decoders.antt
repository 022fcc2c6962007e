-- ===== src/Tests/Decoders.antt =====
-- A decoder of five bytes.
use expert_spoon.Prelude.{◌≡◌, arith, refl, not, some, [], ◌∷◌, Str}
use expert_spoon.SortedSet.{same_str, str_less}
use expert_spoon.Bytes.{Decoder, skip, read_8_data, lt, gt, le, ge, eq, ne}
use expert_spoon.Bytes.Order.{operators_lem}
use expert_spoon.Bytes.Reads.{no_read, after_skip, after_8_data, Inside, Run-Inside}

abbrev five : Decoder
five = record { block = 9 ∷ 2 ∷ b'a' ∷ b'b' ∷ 7 ∷ []; p = 0; size = 5 }

read_runs : (read_8_data (skip 1 five).1).0 ≡ some (b'a' ∷ b'b' ∷ [])
unfolding read_8_data skip
read_runs = refl

Run-Inside_example : Inside five (read_8_data (skip 1 five).1).1
Run-Inside_example = Run-Inside (after_8_data (after_skip 1 no_read)) (omega arith)

abbrev left : Str
left = b'a' ∷ []

abbrev right : Str
right = b'a' ∷ b'b' ∷ []

operators_lem_example :
    (lt left right ≡ str_less left right)
    × (gt left right ≡ str_less right left)
    × (le left right ≡ not (str_less right left))
    × (ge left right ≡ not (str_less left right))
    × (eq left right ≡ same_str left right)
    × (ne left right ≡ not (same_str left right))
operators_lem_example = operators_lem left right
