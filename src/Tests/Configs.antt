-- ===== src/Tests/Configs.antt =====
-- A tree that two paths are set in.
use expert_spoon.Prelude.{◌≡◌, refl, [], ◌∷◌, Str, if◌then◌else◌}
use expert_spoon.Config.{
  Config, config, no_child, fields, fields_from, is_field_separator, set, get_str,
}
use expert_spoon.Config.Lookup.{same_path, get_str-set}

abbrev root : Config
root = config (b'r' ∷ []) [] no_child

-- "a.b" and "a/b"
abbrev dotted : Str
dotted = b'a' ∷ b'.' ∷ b'b' ∷ []

abbrev slashed : Str
slashed = b'a' ∷ b'/' ∷ b'b' ∷ []

fields_from_runs : fields_from [] dotted ≡ (b'a' ∷ []) ∷ (b'b' ∷ []) ∷ []
unfolding fields_from is_field_separator
fields_from_runs = refl

get_str-set_example :
    get_str slashed (set dotted (b'v' ∷ []) root)
    ≡ (if same_path (fields dotted) (fields slashed) then b'v' ∷ [] else get_str slashed root)
get_str-set_example = get_str-set dotted (b'v' ∷ []) slashed root
