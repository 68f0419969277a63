-- ===== src/Valws/Tests/Lines.antt =====
-- The tests on lines at concrete inputs; a space has the code 32.
use c380_1code.Base.{ℕ, ◌≡◌, ◌↔◌, refl, Bool, true, false, [], ◌∷◌, ◌++◌, ◌==◌}
use c380_1code.Notapp.Args.{Str, str_eq}
use c380_1code.Valws.Lines.{is_empty_line, is_empty_line_lem, is_valid_code}

abbrev space : ℕ → Bool
space c = c == 32

is_empty_line_lem_example : (is_empty_line space (32 ∷ 73 ∷ []) ≡ true) ↔ (
    (before : Str) × (c : ℕ) × (after : Str) × (32 ∷ 73 ∷ [] ≡ before ++ c ∷ after)
    × (space c ≡ false))
is_empty_line_lem_example = is_empty_line_lem space (32 ∷ 73 ∷ [])

-- "M" is a code and "X" is none
is_valid_code_output : is_valid_code (77 ∷ []) ≡ true
unfolding is_valid_code str_eq
is_valid_code_output = refl

is_valid_code_none_output : is_valid_code (88 ∷ []) ≡ false
unfolding is_valid_code str_eq
is_valid_code_none_output = refl
