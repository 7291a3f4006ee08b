-- ===== src/Watcher/Streamer/CatchUp.antt =====
-- log_streamer.py: polls that see the whole log get through it, where no subscriber raises.
use apate.Prelude.{
  size, ℕ, zero, suc, ◌-◌, ◌≤◌, String, ◌≡◌, refl, sym, ap, ◌∙◌, Bool, true, Option, some, List, [],
  ◌∷◌, ◌++◌, arith, ltb, nat_eq, string_eq, length, take, select, length-append, subst, append-nil,
  append_assoc, ◌*◌, drop, length-drop, take-append-drop,
}
use apate.Dict.{Dict}
use apate.Watcher.Streamer.{
  LogRow, Streamer, fetch_new_events, prepared, notify_subscribers, deliver, poll,
}
use apate.Watcher.Streamer.Progress.{IsAbove, last_from, select_rest}

last_from_both :
    (n : ℕ) (rows more : List LogRow)
    → last_from n (rows ++ more) ≡ last_from (last_from n rows) more
last_from_both n [] more = refl
last_from_both n (row ∷ rows) more = last_from_both row.id rows more

take-all {ℓ} : {A : Type ℓ} (n : ℕ) (xs : List A) → length xs ≤ n → take n xs ≡ xs
take-all zero [] h = refl
take-all zero (x ∷ xs) h = absurd (omega arith)
take-all (suc n) [] h = refl
take-all (suc n) (x ∷ xs) h = ap (λ (zs : List _). x ∷ zs) (take-all n xs (omega arith))

-- A poll of the whole log fetches the next thousand rows.
fetch_next :
    (passed rest : List LogRow)
    → IsAbove 0 (passed ++ rest)
    → fetch_new_events (passed ++ rest) (last_from 0 passed) ≡ take 1000 rest
unfolding fetch_new_events
fetch_next passed rest above =
    let log = passed ++ rest in
    let n = length log in
    let size = length-append passed rest in
    ap (take 1000) (
      ap (select (λ row. ltb (last_from 0 passed) row.id)) (sym (take-all n log (omega arith)))
      ∙ select_rest 0 n passed rest above
      ∙ take-all (n - length passed) rest (omega (arith, size)))

module _ {S : Type 0} (loads : String → Option (Dict String String))
    (call : ℕ → LogRow → S → Bool × S) where
  abbrev pub NoneRaises : List ℕ → Type 0
  NoneRaises subscribers =
      (row : LogRow) (s : S)
      → (notify_subscribers loads call subscribers (prepared loads row) s).0 ≡ true

  deliver-last_from :
      (subscribers : List ℕ) (rows : List LogRow) (last_id : ℕ) (s : S)
      → NoneRaises subscribers
      → (deliver loads call subscribers rows last_id s).0 ≡ last_from last_id rows
  unfolding deliver
  deliver-last_from subscribers [] last_id s h = refl
  deliver-last_from subscribers (row ∷ rows) last_id s h =
      let told = notify_subscribers loads call subscribers (prepared loads row) s in
      rw (deliver, h row s) (deliver-last_from subscribers rows row.id told.1 h)

  -- So many polls, each of the whole log.
  abbrev pub whole_polls : ℕ → List LogRow → Streamer → S → Streamer × S
  whole_polls zero log streamer s = (streamer, s)
  whole_polls (suc n) log streamer s =
      let (streamer', s') = poll loads call (some log) streamer s in whole_polls n log streamer' s'

  poll_next :
      (passed rest : List LogRow) (streamer : Streamer) (s : S)
      → IsAbove 0 (passed ++ rest)
      → NoneRaises streamer.subscribers
      → streamer.running ≡ true
      → streamer.last_id ≡ last_from 0 passed
      → (poll loads call (some (passed ++ rest)) streamer s).0
        ≡ record streamer { last_id = last_from 0 (passed ++ take 1000 rest) }
  unfolding poll
  poll_next passed rest streamer s above h on at =
      let rows = fetch_new_events (passed ++ rest) streamer.last_id in
      let fetched : rows ≡ take 1000 rest =
        ap (fetch_new_events (passed ++ rest)) at ∙ fetch_next passed rest above in
      let last : (deliver loads call streamer.subscribers rows streamer.last_id s).0
          ≡ last_from 0 (passed ++ take 1000 rest) =
        deliver-last_from streamer.subscribers rows streamer.last_id s h
        ∙ ap (λ l. last_from l rows) at
        ∙ ap (last_from (last_from 0 passed)) fetched
        ∙ sym (last_from_both 0 passed (take 1000 rest)) in
      rw on (ap (λ l. record streamer { running = true; last_id = l }) last)

  polls_pass :
      (n : ℕ) (log passed rest : List LogRow) (streamer : Streamer) (s : S)
      → passed ++ rest ≡ log
      → length rest ≤ 1000 * n
      → IsAbove 0 log
      → NoneRaises streamer.subscribers
      → streamer.running ≡ true
      → streamer.last_id ≡ last_from 0 passed
      → (whole_polls n log streamer s).0.last_id ≡ last_from 0 log
  polls_pass zero log passed [] streamer s whole size above h on at =
      at ∙ ap (last_from 0) (sym (append-nil passed) ∙ whole)
  polls_pass zero log passed (row ∷ rest) streamer s whole size above h on at = absurd (omega arith)
  polls_pass (suc n) log passed rest streamer s whole size above h on at =
      let next = poll loads call (some log) streamer s in
      let moved : next.0 ≡ record streamer { last_id = last_from 0 (passed ++ take 1000 rest) } =
        ap (λ l. (poll loads call (some l) streamer s).0) (sym whole)
        ∙ poll_next passed rest streamer s (subst (IsAbove 0) (sym whole) above) h on at in
      polls_pass n log (passed ++ take 1000 rest) (drop 1000 rest) next.0 next.1
        (append_assoc passed (take 1000 rest) (drop 1000 rest)
          ∙ ap (λ r. passed ++ r) (take-append-drop 1000 rest)
          ∙ whole)
        (omega (arith, length-drop 1000 rest)) above
        (subst NoneRaises (sym (ap (λ (m : Streamer). m.subscribers) moved)) h)
        (ap (λ (m : Streamer). m.running) moved ∙ on) (ap (λ (m : Streamer). m.last_id) moved)

  -- Where no subscriber raises, a running streamer that starts at 0 and reads the whole of a log of
  -- at most 1000 * n rows, with growing ids, is at its last row after n polls.
  pub polls_catch_up :
      (n : ℕ) (log : List LogRow) (streamer : Streamer) (s : S)
      → length log ≤ 1000 * n
      → IsAbove 0 log
      → NoneRaises streamer.subscribers
      → streamer.running ≡ true
      → streamer.last_id ≡ 0
      → (whole_polls n log streamer s).0.last_id ≡ last_from 0 log
  polls_catch_up n log streamer s size above h on at =
      polls_pass n log [] log streamer s refl size above h on at
