-- ===== src/Skills/Commands/Scores.antt =====
-- How a command's score and its techniques depend on each other.
use apate.Prelude.{
  ◌+◌, ◌*◌, ◌≤◌, String, ◌≡◌, ◌↔◌, inl, inr, Bool, List, [], ◌∷◌, arith, if◌then◌else◌, nat_eq,
  string_eq, Bool-cases, length, All, length-append, ℕ, refl,
}
use apate.Skills.Commands.{
  Patterns, Category, categories, Findings, calculate_risk_level, found, scan, scan_all, is_complex,
  analyze, nothing_found, benign,
}

-- As many indicators as techniques, and a score between 5 and 35 for each.
abbrev IsScored : Findings → Type 0
IsScored f =
    (length f.indicators ≡ length f.techniques)
    × (length f.techniques * 5 ≤ f.risk_score)
    × (f.risk_score ≤ length f.techniques * 35)

abbrev IsPriced : Category → Type 0
IsPriced c = (5 ≤ c.risk) × (c.risk ≤ 35)

found-IsScored :
    (c : Category) (technique : String) (f : Findings)
    → IsPriced c
    → IsScored f
    → IsScored (found c technique f)
unfolding found
found-IsScored c technique f priced scored = simp length-append (ground arith)

-- How many pipes of more than 50 characters the command counts as.
abbrev pub complex_count : String → ℕ
complex_count command = if is_complex command then 1 else 0

benign_lem : (score : ℕ) → (calculate_risk_level score ≡ benign) ↔ (score ≡ 0)
unfolding calculate_risk_level
benign_lem score = ground arith

module _ (search : String → String → Bool) where
  scan-IsScored :
      (c : Category) (ps : Patterns) (command : String) (f : Findings)
      → IsPriced c
      → IsScored f
      → IsScored (scan search c ps command f)
  unfolding scan
  scan-IsScored c [] command f priced scored = scored
  scan-IsScored c ((t, p) ∷ ps) command f priced scored = elim (Bool-cases (search p command)) [
    | inl e ↦
        rw e (scan-IsScored c ps command (found c t f) priced (found-IsScored c t f priced scored))
    | inr e ↦ rw e (scan-IsScored c ps command f priced scored)
  ]

  scan_all-IsScored :
      (cs : List Category) (command : String) (f : Findings)
      → All IsPriced cs
      → IsScored f
      → IsScored (scan_all search cs command f)
  unfolding scan_all
  scan_all-IsScored [] command f priced scored = scored
  scan_all-IsScored (c ∷ cs) command f (priced, all) scored =
      scan_all-IsScored cs command (scan search c c.patterns command f) all
        (scan-IsScored c c.patterns command f priced scored)

  categories-IsPriced : All IsPriced categories
  categories-IsPriced = (
    (omega arith, omega arith),
    (
      (omega arith, omega arith),
      (
        (omega arith, omega arith),
        (
          (omega arith, omega arith),
          (
            (omega arith, omega arith),
            (
              (omega arith, omega arith),
              ((omega arith, omega arith), ((omega arith, omega arith), tt)),
            ),
          ),
        ),
      ),
    ),
  )

  -- Each technique of a command adds between 5 and 35 to its score, a complex pipe 5 more and
  -- nothing else; the level is benign just when the score is 0, and the indicators are as many
  -- as the techniques, with one more for a complex pipe.
  pub analyze-IsScored :
      (command : String)
      → let a = analyze search command in
        let extra = complex_count command in
        (length a.indicators ≡ length a.techniques + extra)
        × (length a.techniques * 5 + extra * 5 ≤ a.risk_score)
        × (a.risk_score ≤ length a.techniques * 35 + extra * 5)
        × ((a.risk_level ≡ benign) ↔ (a.risk_score ≡ 0))
  unfolding analyze
  analyze-IsScored command =
      let f = scan_all search categories command nothing_found in
      let scored =
        scan_all-IsScored categories command nothing_found categories-IsPriced
          (refl, omega arith, omega arith) in
      elim (Bool-cases (is_complex command)) [
        | inl e ↦ ground (
          arith,
          benign_lem (f.risk_score + 5),
          length-append f.indicators ("Complex piped command" ∷ []),
        )
        | inr e ↦ ground (arith, benign_lem f.risk_score)
      ]
