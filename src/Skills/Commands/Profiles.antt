-- ===== src/Skills/Commands/Profiles.antt =====
-- A session's profile and its commands' analyses.
use apate.Prelude.{
  ◌+◌, ◌*◌, ◌≤◌, String, ◌≡◌, inl, inr, Bool, true, List, [], ◌∷◌, ◌++◌, arith, nat_eq, string_eq,
  Bool-cases, length,
}
use apate.Skills.Commands.{
  analyze, batch_analyze, is_nonempty, is_malicious, get_session_risk_profile,
}
use apate.Skills.Commands.Scores.{analyze-IsScored}

length-nonempty : (ts : List String) → is_nonempty ts ≡ true → 1 ≤ length ts
length-nonempty [] h = ground arith
length-nonempty (t ∷ ts) h = omega arith

module _ (search : String → String → Bool) where
  malicious_score :
      (command : String)
      → is_malicious (analyze search command) ≡ true
      → 5 ≤ (analyze search command).risk_score
  unfolding is_malicious
  malicious_score command h =
      let some_technique = length-nonempty (analyze search command).techniques h in
      let scored = (analyze-IsScored search command).1 in omega arith

  -- A session's profile counts its malicious commands among its commands, and each of them with 5
  -- or more in the total; the counts of two stretches of a session add up to those of the whole.
  profile_counts :
      (xs ys : List String)
      → let p = get_session_risk_profile search xs in
        let q = get_session_risk_profile search ys in
        let r = get_session_risk_profile search (xs ++ ys) in
        (p.malicious_commands ≤ p.total_commands)
        × (p.malicious_commands * 5 ≤ p.total_risk_score)
        × (r.total_commands ≡ p.total_commands + q.total_commands)
        × (r.malicious_commands ≡ p.malicious_commands + q.malicious_commands)
        × (r.total_risk_score ≡ p.total_risk_score + q.total_risk_score)
  unfolding get_session_risk_profile batch_analyze
  profile_counts [] ys = (omega arith, omega arith, omega arith, omega arith, omega arith)
  profile_counts (x ∷ xs) ys =
      let (few, scored, commands, malicious, risk) = profile_counts xs ys in
      elim (Bool-cases (is_malicious (analyze search x))) [
        | inl e ↦
            let s = malicious_score x e in
            rw e (omega arith, omega arith, omega arith, omega arith, omega arith)
        | inr e ↦ rw e (omega arith, omega arith, omega arith, omega arith, omega arith)
      ]
