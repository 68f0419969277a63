-- ===== src/Valws/Lines.antt =====
-- Assignment03/valws379_base.c: the tests on the lines of the input. A string is the list of its
-- character codes. `isspace` is not part of the repository: it is a parameter.
use c380_1code.Base.{
  ℕ, ◌≡◌, ◌↔◌, refl, Bool, true, false, Bool-cases, inl, inr, List, [], ◌∷◌, ◌++◌, if◌then◌else◌,
  arith,
}
use c380_1code.Notapp.Args.{Str, str_eq}

module _ (isspace : ℕ → Bool) where
  unfoldable pub is_empty_line : Str → Bool
  is_empty_line [] = false
  is_empty_line (c ∷ line) = let rest = is_empty_line line in if isspace c then rest else true

  find_text :
      (line : Str)
      → is_empty_line line ≡ true
      → (before : Str) × (c : ℕ) × (after : Str) × (line ≡ before ++ c ∷ after)
        × (isspace c ≡ false)
  unfolding is_empty_line
  find_text [] h = absurd (ground arith)
  find_text (d ∷ line) h = elim (Bool-cases (isspace d)) [
    | inr p ↦ ([], d, line, refl, p)
    | inl p ↦
        let (before, c, after, e, q) = find_text line (rw p at h) in
        (d ∷ before, c, after, rw e refl, q)
  ]

  reach_text :
      (before : Str) (c : ℕ) (after : Str)
      → isspace c ≡ false
      → is_empty_line (before ++ c ∷ after) ≡ true
  unfolding is_empty_line
  reach_text [] c after p = rw p refl
  reach_text (d ∷ before) c after p = ground (arith, reach_text before c after p)

  -- `is_empty_line` is true exactly on the lines that have a character which is no white space.
  pub is_empty_line_lem :
      (line : Str)
      → (is_empty_line line ≡ true) ↔ (
          (before : Str) × (c : ℕ) × (after : Str) × (line ≡ before ++ c ∷ after)
          × (isspace c ≡ false))
  is_empty_line_lem line =
      (find_text line, λ (before, c, after, e, p). rw e (reach_text before c after p))

-- the loop over "I", "S", "L" and "M"
pub valid_loop : Str → List Str → Bool
valid_loop key [] = false
valid_loop key (code ∷ codes) =
    let rest = valid_loop key codes in if str_eq key code then true else rest

unfoldable pub is_valid_code : Str → Bool
unfolding valid_loop
is_valid_code key = valid_loop key ((73 ∷ []) ∷ (83 ∷ []) ∷ (76 ∷ []) ∷ (77 ∷ []) ∷ [])
