-- ===== src/Metrics/Store/Paged.antt =====
-- The lists of metrics in pkg/storage/memory_adapter.go against a page of all metrics of the task or
-- proplet.
use propeller.Prelude.{
  ℕ, zero, suc, ◌+◌, ◌-◌, ◌≤◌, ◌<◌, ◌≡◌, refl, sym, ◌∙◌, ap, String, true, Option, none, some, List,
  [], ◌∷◌, ◌++◌, arith, leb, ltb, Bool-cases, inl, inr, length, take, drop, length-append,
  length-drop, length-take, take-append-drop, take_all, drop_all, drop-drop, min,
}
use propeller.Storage
use propeller.Storage.{word_mod}
use propeller.Storage.Sorted.{length-sorted_values}
use propeller.Metrics.Store.Pages.{
  append_one, append_nil, take_drop_nil, both, store_list_lem, short_page, full_page, nil_of_length,
  round_ends,
}
use propeller.Metrics.Store.{
  StoredMetrics, task_metrics_of, proplet_metrics_of, count_in, scan_page, scan_store, cut_found,
  list_picked, list_task_metrics, list_proplet_metrics,
}

prepend : {M : Type 0} → Option M → List M → List M
prepend none ms = ms
prepend (some m) ms = m ∷ ms

-- All metrics that are picked, in order.
unfoldable pub picked : {M : Type 0} → (StoredMetrics → Option M) → List StoredMetrics → List M
unfolding prepend
picked pick [] = []
picked pick (d ∷ ds) = prepend (pick d) (picked pick ds)

module _ {M : Type 0} (pick : StoredMetrics → Option M) (offset limit : ℕ) where
  -- What the loop makes of the metrics that it has found and those that are still to come.
  total_with : ℕ × List M → List M → ℕ × List M
  total_with (total, filtered) ms =
      (total + length ms, filtered ++ take (limit - length filtered) (drop (offset - total) ms))

  step_lem :
      (o : Option M) (total : ℕ) (filtered ms : List M)
      → total_with (count_in pick offset limit o (total, filtered)) ms
        ≡ total_with (total, filtered) (prepend o ms)
  unfolding total_with count_in prepend
  step_lem none total filtered ms = refl
  step_lem (some m) total filtered ms = elim (Bool-cases (leb offset total)) [
    | inl inside ↦
        let a : offset - total ≡ 0 = ground arith in
        let b : offset - (total + 1) ≡ 0 = ground arith in
        elim (Bool-cases (ltb (length filtered) limit)) [
          | inl room ↦
              let c : limit - length filtered ≡ suc (limit - length (filtered ++ m ∷ [])) =
                (let less : length filtered < limit = ground arith in
                  omega (arith, length-append filtered (m ∷ []))) in
              rw (inside, room, a, b, c) (both (omega arith) (append_one filtered _ m))
          | inr full ↦
              let c : limit - length filtered ≡ 0 = ground arith in
              rw (inside, full, a, b, c) (both (omega arith) refl)
        ]
    | inr outside ↦
        let a : offset - total ≡ suc (offset - (total + 1)) = ground arith in
        rw (outside, a) (both (omega arith) refl)
  ]

  -- The metrics of a list of values, found after others.
  scan_page_lem :
      (ds : List StoredMetrics) (found : ℕ × List M)
      → scan_page pick offset limit ds found ≡ total_with found (picked pick ds)
  unfolding scan_page picked total_with
  scan_page_lem [] (total, filtered) = both (omega arith) (
      sym (
        ap (λ l. filtered ++ l) (take_drop_nil (limit - length filtered) (offset - total))
        ∙ append_nil filtered))
  scan_page_lem (d ∷ ds) (total, filtered) =
      scan_page_lem ds (count_in pick offset limit (pick d) (total, filtered))
      ∙ step_lem (pick d) total filtered (picked pick ds)

  scan_page-append :
      (ds es : List StoredMetrics) (found : ℕ × List M)
      → scan_page pick offset limit (ds ++ es) found
        ≡ scan_page pick offset limit es (scan_page pick offset limit ds found)
  unfolding scan_page
  scan_page-append [] es found = refl
  scan_page-append (d ∷ ds) es found =
      scan_page-append ds es (count_in pick offset limit (pick d) found)

  -- The loop takes the rest of the store in.
  scan_store_lem :
      (rounds : ℕ) (s : List (String × StoredMetrics)) (scan_offset : ℕ) (found : ℕ × List M)
      → length (Storage.sorted_values s) + 100 < word_mod
      → scan_offset ≤ length (Storage.sorted_values s)
      → length (Storage.sorted_values s) < scan_offset + rounds
      → scan_store pick offset limit rounds s scan_offset found
        ≡ some (scan_page pick offset limit (drop scan_offset (Storage.sorted_values s)) found)
  unfolding scan_store
  scan_store_lem zero s scan_offset found fits inside enough = absurd (omega arith)
  scan_store_lem (suc rounds) s scan_offset found fits inside enough =
      let xs = Storage.sorted_values s in
      let page = take 100 (drop scan_offset xs) in
      let size : length page ≡ min 100 (length (drop scan_offset xs)) =
        length-take 100 (drop scan_offset xs) in
      let left_over : length (drop scan_offset xs) ≡ length xs - scan_offset =
        length-drop scan_offset xs in
      let listed = store_list_lem s scan_offset (omega arith) in
      let after = scan_page pick offset limit page found in
      let split : scan_page pick offset limit (drop scan_offset xs) found
          ≡ scan_page pick offset limit (drop (scan_offset + 100) xs) after =
        ap (λ l. scan_page pick offset limit l found)
          (sym (take-append-drop 100 (drop scan_offset xs)))
        ∙ scan_page-append page (drop 100 (drop scan_offset xs)) found
        ∙ ap (λ l. scan_page pick offset limit l after) (drop-drop 100 scan_offset xs) in
      rw (listed, scan_store)
        (round_ends page (leb (length xs) (scan_offset + length page)) _ _ _ _
          (λ e.
            let none_left : length (drop scan_offset xs) ≡ 0 =
              (let z : length page ≡ 0 = ap length e in omega arith) in
            sym (ap (λ l. some (scan_page pick offset limit l found)) (nil_of_length _ none_left)))
          (λ e.
            let short =
              short_page (length xs) scan_offset (length (drop scan_offset xs)) (length page) size
                left_over inside e in
            ap (λ l. some (scan_page pick offset limit l found))
              (take_all 100 (drop scan_offset xs) short))
          (λ e.
            let (full, below) =
              full_page (length xs) scan_offset (length (drop scan_offset xs)) (length page) size
                left_over inside e in
            scan_store_lem rounds s (scan_offset + length page) after fits below (omega arith)
            ∙ ap (λ k. some (scan_page pick offset limit (drop (scan_offset + k) xs) after)) full
            ∙ sym (ap some split)))

  cut_lem :
      (total : ℕ) (ms : List M)
      → (leb total offset ≡ true → ms ≡ [])
      → ◌≡◌ {A = List M × ℕ} (cut_found pick offset limit (total, ms)) (ms, total)
  unfolding cut_found
  cut_lem total ms h = elim (Bool-cases (leb total offset)) [
    | inl e ↦ rw e (both (sym (h e)) refl)
    | inr e ↦ rw e refl
  ]

  length_zero_cut :
      (total : ℕ) (ms : List M)
      → total ≡ length ms
      → leb total offset ≡ true
      → take limit (drop offset ms) ≡ []
  length_zero_cut total ms e l =
      let past : length ms ≤ offset = ground arith in
      ap (take limit) (drop_all offset ms past) ∙ take_drop_nil limit 0

  nothing_found : (ms : List M) → total_with (0, []) ms ≡ (length ms, take limit (drop offset ms))
  unfolding total_with
  nothing_found ms =
      let a : limit - 0 ≡ limit = omega arith in
      let b : offset - 0 ≡ offset = omega arith in
      both (omega arith)
        (ap (λ k. take k (drop (offset - 0) ms)) a ∙ ap (λ k. take limit (drop k ms)) b)

  list_picked_lem :
      (s : List (String × StoredMetrics))
      → length s + 100 < word_mod
      → list_picked pick offset limit s
        ≡ some (
          take limit (drop offset (picked pick (Storage.sorted_values s))),
          length (picked pick (Storage.sorted_values s)),
        )
  unfolding list_picked
  list_picked_lem s fits =
      let size = length-sorted_values s in
      let ms = picked pick (Storage.sorted_values s) in
      let scanned =
        scan_store_lem (suc (length s)) s 0 (0, []) (omega arith) (omega arith) (omega arith)
        ∙ ap some (scan_page_lem (Storage.sorted_values s) (0, []) ∙ nothing_found ms) in
      let result =
        ap
          (λ (o : Option (ℕ × List M)). elim o [
            | none ↦ none
            | some found ↦ some (cut_found pick offset limit found)
          ])
          scanned in
      result
      ∙ ap some
          (cut_lem (length ms) (take limit (drop offset ms)) (length_zero_cut (length ms) ms refl))

-- Where the store is so small that a page past it still has a word for its end, the lists of task and of
-- proplet metrics never fail: they hold the next `limit` metrics of the task or the proplet after
-- the first `offset`, or as many as there are, with the number of all of them, for every
-- offset and limit.
pub list_metrics_lem :
    (id : String) (offset limit : ℕ) (s : List (String × StoredMetrics))
    → length s + 100 < word_mod
    → (list_task_metrics id offset limit s
        ≡ some (
          take limit (drop offset (picked (task_metrics_of id) (Storage.sorted_values s))),
          length (picked (task_metrics_of id) (Storage.sorted_values s)),
        ))
      × (list_proplet_metrics id offset limit s
          ≡ some (
            take limit (drop offset (picked (proplet_metrics_of id) (Storage.sorted_values s))),
            length (picked (proplet_metrics_of id) (Storage.sorted_values s)),
          ))
unfolding list_task_metrics list_proplet_metrics
list_metrics_lem id offset limit s fits = (
  list_picked_lem (task_metrics_of id) offset limit s fits,
  list_picked_lem (proplet_metrics_of id) offset limit s fits,
)
