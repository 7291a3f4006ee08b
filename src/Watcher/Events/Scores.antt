-- ===== src/Watcher/Events/Scores.antt =====
-- What an analysis counts.
use apate.Prelude.{
  ℕ, suc, ◌*◌, ◌≤◌, String, ◌≡◌, refl, ◌↔◌, Bool, true, false, List, arith, nat_eq, string_eq,
  length, length-append,
}
use apate.Watcher.Events.{
  AuditEvent, info, Analysis, EventProcessor, recorded, flag, detect_enumeration,
  detect_privilege_escalation, detect_data_exfiltration, detect_persistence,
  detect_lateral_movement, calculate_risk_level, no_analysis, detect_all, process_event,
}

-- At most `k` patterns, a tag for each, and a score between 10 and 40 for each.
abbrev IsScored : ℕ → Analysis → Type 0
IsScored k a =
    (length a.patterns ≤ k)
    × (length a.tags ≡ length a.patterns)
    × (length a.patterns * 10 ≤ a.risk_score)
    × (a.risk_score ≤ length a.patterns * 40)

flag-IsScored :
    (met : Bool) (pattern : String) (score : ℕ) (tag : String) (k : ℕ) (a : Analysis)
    → 10 ≤ score
    → score ≤ 40
    → IsScored k a
    → IsScored (suc k) (flag met pattern score tag a)
unfolding flag
flag-IsScored true pattern score tag k a least most scored = simp length-append (ground arith)
flag-IsScored false pattern score tag k a above below (few, tags, least, most) =
    (omega arith, tags, least, most)

detect_enumeration-IsScored :
    (window : List AuditEvent) (event : AuditEvent) (k : ℕ) (a : Analysis)
    → IsScored k a
    → IsScored (suc (suc k)) (detect_enumeration window event a)
unfolding detect_enumeration
detect_enumeration-IsScored window event k a h =
    flag-IsScored _ _ _ _ (suc k) _ (omega arith) (omega arith)
      (flag-IsScored _ _ _ _ k _ (omega arith) (omega arith) (h))

detect_privilege_escalation-IsScored :
    (event : AuditEvent) (k : ℕ) (a : Analysis)
    → IsScored k a
    → IsScored (suc (suc k)) (detect_privilege_escalation event a)
unfolding detect_privilege_escalation
detect_privilege_escalation-IsScored event k a h =
    flag-IsScored _ _ _ _ (suc k) _ (omega arith) (omega arith)
      (flag-IsScored _ _ _ _ k _ (omega arith) (omega arith) (h))

detect_data_exfiltration-IsScored :
    (window : List AuditEvent) (event : AuditEvent) (k : ℕ) (a : Analysis)
    → IsScored k a
    → IsScored (suc (suc k)) (detect_data_exfiltration window event a)
unfolding detect_data_exfiltration
detect_data_exfiltration-IsScored window event k a h =
    flag-IsScored _ _ _ _ (suc k) _ (omega arith) (omega arith)
      (flag-IsScored _ _ _ _ k _ (omega arith) (omega arith) (h))

detect_persistence-IsScored :
    (event : AuditEvent) (k : ℕ) (a : Analysis)
    → IsScored k a
    → IsScored (suc (suc (suc k))) (detect_persistence event a)
unfolding detect_persistence
detect_persistence-IsScored event k a h =
    flag-IsScored _ _ _ _ (suc (suc k)) _ (omega arith) (omega arith) (
      flag-IsScored _ _ _ _ (suc k) _ (omega arith) (omega arith)
        (flag-IsScored _ _ _ _ k _ (omega arith) (omega arith) (h)))

detect_lateral_movement-IsScored :
    (event : AuditEvent) (k : ℕ) (a : Analysis)
    → IsScored k a
    → IsScored (suc k) (detect_lateral_movement event a)
unfolding detect_lateral_movement
detect_lateral_movement-IsScored event k a h =
    flag-IsScored _ _ _ _ k _ (omega arith) (omega arith) (h)

detect_all-IsScored :
    (window : List AuditEvent) (event : AuditEvent) → IsScored 10 (detect_all window event)
unfolding detect_all
detect_all-IsScored window event = detect_lateral_movement-IsScored event 9 _ (
    detect_persistence-IsScored event 6 _ (
      detect_data_exfiltration-IsScored window event 4 _ (
        detect_privilege_escalation-IsScored event 2 _ (
          detect_enumeration-IsScored window event 0 (no_analysis event)
            (omega arith, refl, omega arith, omega arith)))))

info_lem : (score : ℕ) → (calculate_risk_level score ≡ info) ↔ (score ≡ 0)
unfolding calculate_risk_level
info_lem score = ground arith

-- An event shows at most ten patterns, with a tag for each; each pattern adds between 10 and 40 to
-- the score, nothing else does, and the level is `info` just when there is no pattern.
pub process_event-IsScored :
    (event : AuditEvent) (p : EventProcessor)
    → let a = (process_event event p).0 in
      (length a.patterns ≤ 10)
      × (length a.tags ≡ length a.patterns)
      × (length a.patterns * 10 ≤ a.risk_score)
      × (a.risk_score ≤ length a.patterns * 40)
      × ((a.risk_level ≡ info) ↔ (length a.patterns ≡ 0))
unfolding process_event
process_event-IsScored event p =
    let a = detect_all (recorded event p).event_window event in
    let scored = detect_all-IsScored (recorded event p).event_window event in
    ground (arith, info_lem a.risk_score)
