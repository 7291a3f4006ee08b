-- ===== src/Simulation/Services/Chains.antt =====
-- The events of a service tell its history.
use apate.Prelude.{
  ℕ, ◌≡◌, refl, ◌≢◌, inl, inr, Bool, List, [], ◌∷◌, nat_beq, nat_eq, string_eq, Bool-cases, subst,
  sym, arith, nat_beq_iff,
}
use apate.Simulation.Services.{on_tick, on_ticks}

module _ {State : Type 0} (next : Bool → State → State) (code : State → ℕ) where
  -- The events lead from the first state to the last, each beginning where the one before it ended,
  -- and each changes the state.
  abbrev pub IsChain : State → List (State × State) → State → Type 0
  IsChain s [] last = s ≡ last
  IsChain s ((old, new) ∷ events) last = (s ≡ old) × (code old ≢ code new) × IsChain new events last

  -- Where states of one number are one state, the events that a service publishes in any run of
  -- ticks lead from the state that it began in to the one that it ends in, without a gap and
  -- without an event that changes nothing.
  pub on_ticks-IsChain :
      (injective : (x y : State) → code x ≡ code y → x ≡ y) (draws : List Bool) (s : State)
      → let (last, events) = on_ticks next code draws s in IsChain s events last
  unfolding on_ticks on_tick
  on_ticks-IsChain injective [] s = refl
  on_ticks-IsChain injective (draw ∷ draws) s =
      let new = next draw s in
      let rest = on_ticks-IsChain injective draws new in
      elim (Bool-cases (nat_beq (code s) (code new))) [
        | inl h ↦
            let same = injective s new (ground (arith, nat_beq_iff (code s) (code new))) in
            let (last, events) = on_ticks next code draws new in
            rw h (subst (λ x. IsChain x events last) (sym same) rest)
        | inr h ↦ rw h (refl, λ e. ground (arith, nat_beq_iff (code s) (code new)), rest)
      ]
