-- ===== src/Intelligence/Generation/Production.antt =====
-- src/chronos/intelligence/orchestrator.py: the quota and the calls of the model that make a content.
use apate.Prelude.{
  ℕ, suc, String, Bool, true, false, not, ◌||◌, Option, none, some, List, [], ◌∷◌, leb,
  if◌then◌else◌, ◌==◌, nat_eq, string_eq, is_some, take,
}
use apate.Core.Content.{Bytes}

-- The two counters of `_quota` in one minute, of the session and of all sessions.
pub record Quota : Type 0 where
  pub session_calls : ℕ
  pub global_calls : ℕ

-- The script of `_quota`.
unfoldable pub quota : ℕ → Quota → Bool × Quota
quota limit q =
    if leb limit q.session_calls || leb 60 q.global_calls
    then (false, q)
    else (true, record { session_calls = suc q.session_calls; global_calls = suc q.global_calls })

pub data GenerationSource : Type 0 where
  template llm fallback : GenerationSource

-- One pass of the model's loop: whether time was left, and what the model answered, if it did, with
-- the validator's verdict.
pub record ModelCall : Type 0 where
  pub time_left : Bool
  pub raw : Option Bytes
  pub accepted : Bool

-- The renderer's content, the policy's `skip_generation`, and the fallback's content.
pub record Facts : Type 0 where
  pub rendered : Bytes
  pub skip_generation : Bool
  pub degraded : Bytes

pub record Product : Type 0 where
  pub content : Bytes
  pub source : GenerationSource
  pub validated : Bool
  pub calls : ℕ
  pub quota : Quota

abbrev answer_of : ModelCall → Option Bytes
answer_of c = if c.accepted then c.raw else none

-- A retry asks for quota again, the first call does not.
unfoldable pub retry_quota : Bool → ℕ → Quota → Bool × Quota
retry_quota true limit q = (true, q)
retry_quota false limit q = quota limit q

-- The loop over the calls: its content, how often the model was called, and the quota after it.
unfoldable pub try_model : ℕ → Bool → List ModelCall → Quota → Option Bytes × ℕ × Quota
try_model limit first [] q = (none, 0, q)
try_model limit first (c ∷ rest) q =
    let (granted, q') = retry_quota first limit q in
    let (content, calls, q'') = try_model limit false rest q' in
    if not c.time_left
    then (none, 0, q)
    else if not granted
    then (none, 0, q')
    else if is_some (answer_of c)
    then (answer_of c, 1, q')
    else (content, suc calls, q'')

abbrev pub deterministic : String
deterministic = "deterministic"

-- From the class of the file to `content`, `source` and `validated`.
unfoldable pub produce : ℕ → Facts → List ModelCall → String → Quota → Product
produce limit facts calls manifest_class q =
    let (granted, q') = quota limit q in
    let (content, asked, q'') = try_model limit true (take 2 calls) q' in
    if manifest_class == deterministic
    then record {
      content = facts.rendered;
      source = template;
      validated = true;
      calls = 0;
      quota = q;
    }
    else if facts.skip_generation
    then record { content = []; source = template; validated = true; calls = 0; quota = q }
    else if not granted
    then record {
      content = facts.degraded;
      source = fallback;
      validated = false;
      calls = 0;
      quota = q';
    }
    else elim content [
      | some c ↦ record { content = c; source = llm; validated = true; calls = asked; quota = q'' }
      | none ↦ record {
        content = facts.degraded;
        source = fallback;
        validated = false;
        calls = asked;
        quota = q'';
      }
    ]
