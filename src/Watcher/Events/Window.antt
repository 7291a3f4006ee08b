-- ===== src/Watcher/Events/Window.antt =====
-- The window and the sessions' activity from event to event.
use apate.Prelude.{
  subst, ℕ, ◌≤◌, String, ◌≡◌, sym, Bool, true, false, ◌||◌, Option, none, some, List, [], ◌∷◌, ◌++◌,
  arith, ◌==◌, nat_eq, string_eq, get_or, length, All, length-append, length-drop, is_empty, refl,
  inl, inr, Bool-cases, ap, if◌then◌else◌,
}
use apate.Dict
use apate.Dict.{Dict, get-put}
use apate.Watcher.Events.{
  AuditEvent, EventProcessor, window_limit, append_bounded, recorded, process_event, clear_old_data,
  get_session_summary, clear_window, added, appended, path_of,
}

abbrev pub process_all : List AuditEvent → EventProcessor → EventProcessor
process_all [] p = p
process_all (e ∷ es) p = process_all es (process_event e p).1

recorded-window :
    (e : AuditEvent) (p : EventProcessor)
    → (recorded e p).event_window ≡ append_bounded window_limit p.event_window e
unfolding recorded
recorded-window e p = ground arith

length-append_bounded {ℓ} :
    {A : Type ℓ} (n : ℕ) (xs : List A) (x : A) → length (append_bounded n xs x) ≤ n
unfolding append_bounded
length-append_bounded n xs x = simp (length-drop, length-append) (omega arith)

-- Whatever events come, a window of at most 10,000 events stays one.
window_bounded :
    (events : List AuditEvent) (p : EventProcessor)
    → length p.event_window ≤ window_limit
    → length (process_all events p).event_window ≤ window_limit
unfolding process_event
window_bounded [] p h = h
window_bounded (e ∷ es) p h = window_bounded es (recorded e p) (
    subst (λ (w : List AuditEvent). length w ≤ window_limit) (sym (recorded-window e p))
      (length-append_bounded window_limit p.event_window e))

activity_other :
    (event : AuditEvent) (p : EventProcessor) (other : String)
    → (get_or "" event.session_id == other) ≡ false
    → (Dict.get (recorded event p).session_activity other ≡ Dict.get p.session_activity other)
      × (Dict.get (recorded event p).file_access_patterns other
          ≡ Dict.get p.file_access_patterns other)
unfolding recorded appended
activity_other event p other h =
    let s = get_or "" event.session_id in
    let events = get_or [] (Dict.get p.session_activity s) ++ event ∷ [] in
    let files = added (path_of event) (get_or [] (Dict.get p.file_access_patterns s)) in
    (
      ground (arith, get-put p.session_activity s other events),
      ground (arith, get-put p.file_access_patterns s other files),
    )

-- An event of one session changes no other session's summary.
summary_other :
    (event : AuditEvent) (p : EventProcessor) (other : String)
    → (get_or "" event.session_id == other) ≡ false
    → get_session_summary other (process_event event p).1 ≡ get_session_summary other p
unfolding process_event get_session_summary
summary_other event p other h =
    let (events, files) = activity_other event p other h in rw (events, files) refl

-- Is the event dropped by `clear_old_data` when it is the oldest?
abbrev pub is_stale : (String → Option Bool) → AuditEvent → Bool
is_stale is_old e = elim e.timestamp [
  | none ↦ true
  | some text ↦ is_empty text || get_or true (is_old text)
]

abbrev pub HeadFresh : (String → Option Bool) → List AuditEvent → Type 0
HeadFresh is_old [] = Unit
HeadFresh is_old (e ∷ es) = is_stale is_old e ≡ false

clear_window-step :
    (is_old : String → Option Bool) (e : AuditEvent) (es : List AuditEvent)
    → clear_window is_old (e ∷ es) ≡ (if is_stale is_old e then clear_window is_old es else e ∷ es)
unfolding clear_window
clear_window-step is_old e es = ground arith

clear_window-cuts :
    (is_old : String → Option Bool) (window : List AuditEvent)
    → (dropped : List AuditEvent) × (dropped ++ clear_window is_old window ≡ window)
      × All (λ e. is_stale is_old e ≡ true) dropped
      × HeadFresh is_old (clear_window is_old window)
unfolding clear_window
clear_window-cuts is_old [] = ([], refl, tt, tt)
clear_window-cuts is_old (e ∷ es) =
    let (dropped, whole, stale, fresh) = clear_window-cuts is_old es in
    elim (Bool-cases (is_stale is_old e)) [
      | inl h ↦
          rw (clear_window-step, h)
            (e ∷ dropped, ap (λ (l : List AuditEvent). e ∷ l) whole, (h, stale), fresh)
      | inr h ↦ rw (clear_window-step, h) ([], refl, tt, h)
    ]

-- `clear_old_data` drops from the front events that are stale, all of them up to the first that is
-- not, and nothing after it.
clear_old_data-cuts :
    (is_old : String → Option Bool) (p : EventProcessor)
    → (dropped : List AuditEvent) × (dropped ++ (clear_old_data is_old p).event_window
        ≡ p.event_window)
      × All (λ e. is_stale is_old e ≡ true) dropped
      × HeadFresh is_old (clear_old_data is_old p).event_window
unfolding clear_old_data
clear_old_data-cuts is_old p = clear_window-cuts is_old p.event_window
