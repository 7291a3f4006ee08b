-- ===== src/Intelligence/Generation/Budget.antt =====
-- What a generation spends.
use apate.Prelude.{
  ℕ, suc, ◌+◌, ◌≤◌, String, ◌≡◌, ◌↔◌, Bool, true, false, List, [], ◌∷◌, arith, nat_eq, string_eq,
  length, Option, take, length-take,
}
use apate.Intelligence.Generation.{
  Bytes, Quota, quota, fallback, ModelCall, Facts, retry_quota, try_model, produce,
}

abbrev pub IsWithin : ℕ → Quota → Type 0
IsWithin limit q = (q.session_calls ≤ limit) × (q.global_calls ≤ 60)

quota-IsWithin : (limit : ℕ) (q : Quota) → IsWithin limit q → IsWithin limit (quota limit q).1
unfolding quota
quota-IsWithin limit q within = ground arith

retry_quota-IsWithin :
    (first : Bool) (limit : ℕ) (q : Quota)
    → IsWithin limit q
    → IsWithin limit (retry_quota first limit q).1
unfolding retry_quota
retry_quota-IsWithin true limit q within = within
retry_quota-IsWithin false limit q within = quota-IsWithin limit q within

-- A call was paid for, the first one beforehand.
abbrev allowance : Bool → ℕ
allowance true = 1
allowance false = 0

-- What the loop over the calls spends, of the counters within their limits.
abbrev IsSpent : ℕ → Bool → ℕ → Quota → Option Bytes × ℕ × Quota → Type 0
IsSpent limit first n q (content, asked, q') =
    IsWithin limit q'
    × (q.session_calls + asked ≤ q'.session_calls + allowance first)
    × (q.session_calls ≤ q'.session_calls)
    × (asked ≤ n)

paid_quota :
    (limit : ℕ) (q : Quota)
    → (q.session_calls ≤ (quota limit q).1.session_calls)
      × ((quota limit q).0 ≡ true → (quota limit q).1.session_calls ≡ suc q.session_calls)
unfolding quota
paid_quota limit q = (ground arith, λ h. ground arith)

-- Once the model was asked again, with what the rest of the loop spends.
try_model-step :
    (limit : ℕ) (first : Bool) (c : ModelCall) (rest : List ModelCall) (q : Quota)
    → IsWithin limit q
    → IsSpent limit false
        (length rest)
        (retry_quota first limit q).1
        (try_model limit false rest (retry_quota first limit q).1)
    → IsSpent limit first (suc (length rest)) q (try_model limit first (c ∷ rest) q)
unfolding try_model retry_quota
try_model-step limit true c rest q within spent = ground arith
try_model-step limit false c rest q within spent =
    ground (arith, paid_quota limit q, quota-IsWithin limit q within)

try_model-IsSpent :
    (limit : ℕ) (first : Bool) (calls : List ModelCall) (q : Quota)
    → IsWithin limit q
    → IsSpent limit first (length calls) q (try_model limit first calls q)
unfolding try_model
try_model-IsSpent limit first [] q within = (within, omega arith, omega arith, omega arith)
try_model-IsSpent limit first (c ∷ rest) q within =
    let q' = (retry_quota first limit q).1 in
    try_model-step limit first c rest q within
      (try_model-IsSpent limit false rest q' (retry_quota-IsWithin first limit q within))

-- A generation calls the model at most twice, and no more often than it raised the session's
-- counter; no counter passes its limit; and the content is marked as not validated just when it is
-- the fallback's.
pub produce-IsBudgeted :
    (limit : ℕ) (facts : Facts) (calls : List ModelCall) (manifest_class : String) (q : Quota)
    → IsWithin limit q
    → let p = produce limit facts calls manifest_class q in
      (p.calls ≤ 2)
      × (q.session_calls + p.calls ≤ p.quota.session_calls)
      × IsWithin limit p.quota
      × ((p.validated ≡ false) ↔ (p.source ≡ fallback))
unfolding produce
produce-IsBudgeted limit facts calls manifest_class q within =
    let q' = (quota limit q).1 in
    ground (
      arith,
      paid_quota limit q,
      quota-IsWithin limit q within,
      length-take 2 calls,
      try_model-IsSpent limit true (take 2 calls) q' (quota-IsWithin limit q within),
    )
