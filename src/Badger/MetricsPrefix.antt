-- ===== src/Badger/MetricsPrefix.antt =====
-- `ListTaskMetrics` of pkg/storage/badger/metrics.go looks for keys that begin with the task's id,
-- which the keys of longer ids do too.
use Prim.Native.String.{◌++◌ as ◌++ᵗ◌}
use propeller.Prelude.{
  ◌≡◌, ◌≤◌, refl, sym, ◌∙◌, ap, subst, ℕ, String, true, some, List, [], ◌∷◌, Elem, inl, inr, take,
  take_all, Option-cases, arith, eq_refl,
}
use text.Mathlib.TextLemmas.{append_assoc}
use text.Mathlib.TextPositions.{starts_with-append}
use text.Mathlib.Text.{starts_with}
use propeller.Metrics.{TaskMetrics}
use propeller.Errors.{create_error, query_error}
use propeller.Outcome.{Result, ok, err, map_ok, ok_inj, Result-cases}
use propeller.Badger.{Engine, Codec, wrap, wrap_state, encode, decode, decode_all, set, save_record}
use propeller.Badger.Laws.{IsLawful, ComesBack, Sets, Outcome, set-Outcome}
use propeller.Badger.Pages.{copies, page_under, list_records_lem}
use propeller.Badger.TaskMap.{bind_ok}
use propeller.Badger.Metrics.{key, create_task_metrics, list_task_metrics}

map_ok_inv {ℓ} :
    {A B : Type ℓ} (f : A → B) (r : Result A) (b : B)
    → map_ok f r ≡ ok b
    → (a : A) × (r ≡ ok a) × (f a ≡ b)
map_ok_inv f (ok a) b h = (a, refl, ok_inj h)
map_ok_inv f (err e) b h = cc

wrap_ok : {A : Type 0} (r : Result A) (a : A) → wrap query_error r ≡ ok a → r ≡ ok a
wrap_ok (ok b) a h = h
wrap_ok (err e) a h = cc

-- A value that can be copied is among the copies.
Elem-copies :
    (k v : String) (items : List (String × Result String)) (values : List String)
    → Elem (k, ok v) items
    → copies items ≡ ok values
    → Elem v values
unfolding copies
Elem-copies k v [] values m h = absurd m
Elem-copies k v ((j, ok w) ∷ items) values (inl e) h =
    let (rest, q, cons) = map_ok_inv (λ rest. w ∷ rest) (copies items) values h in
    let same : w ≡ v = ok_inj (ap (λ (p : String × Result String). p.1) e) in
    subst (Elem v) cons (inl same)
Elem-copies k v ((j, ok w) ∷ items) values (inr m) h =
    let (rest, q, cons) = map_ok_inv (λ rest. w ∷ rest) (copies items) values h in
    subst (Elem v) cons (inr (Elem-copies k v items rest m q))
Elem-copies k v ((j, err f) ∷ items) values m h = cc

Elem-decode_all :
    {R : Type 0} (json : Codec R) (v : String) (r : R) (values : List String) (rs : List R)
    → Elem v values
    → json.unmarshal v ≡ some r
    → decode_all json values ≡ ok rs
    → Elem r rs
unfolding decode_all decode
Elem-decode_all json v r [] rs m u h = absurd m
Elem-decode_all {R} json v r (w ∷ values) rs m u h = elim (Option-cases (json.unmarshal w)) [
  | inl e ↦ (let g = rw (decode_all, decode, e) at h in cc)
  | inr (x, e) ↦
      let (rest, q, cons) =
        map_ok_inv (λ rest. x ∷ rest) (decode_all json values) rs
          (rw (decode_all, decode, e) at h) in
      subst (Elem r) cons (place x rest e (λ n. Elem-decode_all json v r values rest n u q) m)
]
  where
    place :
        (x : R) (rest : List R)
        → json.unmarshal w ≡ some x
        → (Elem v values → Elem r rest)
        → Elem v (w ∷ values)
        → Elem r (x ∷ rest)
    place x rest e more (inl same) =
        inl (let p = sym e ∙ ap (λ y. json.unmarshal y) same ∙ u in ground arith)
    place x rest e more (inr n) = inr (more n)

key_starts :
    (decimal : ℕ → String) (id x : String) (time : ℕ)
    → starts_with (key decimal "tm:" (id ++ᵗ x) time) ("tm:" ++ᵗ id) ≡ true
key_starts decimal id x time =
    subst (λ k. starts_with k ("tm:" ++ᵗ id) ≡ true) (sym (regroup "tm:" id x ":" (decimal time)))
      (starts_with-append ("tm:" ++ᵗ id) (x ++ᵗ (":" ++ᵗ decimal time)))
  where
    regroup :
        (p a b c d : String) → ((p ++ᵗ (a ++ᵗ b)) ++ᵗ c) ++ᵗ d ≡ (p ++ᵗ a) ++ᵗ (b ++ᵗ (c ++ᵗ d))
    regroup p a b c d =
        append_assoc (p ++ᵗ (a ++ᵗ b)) c d
        ∙ ap (λ y. y ++ᵗ (c ++ᵗ d)) (sym (append_assoc p a b))
        ∙ append_assoc (p ++ᵗ a) b (c ++ᵗ d)

module _ (db : Engine) (laws : IsLawful db) (json : Codec TaskMetrics) (decimal : ℕ → String) where
  -- What is stored under the key of metrics once they are created.
  created :
      (m : TaskMetrics) (s t : db.State)
      → ComesBack json m
      → create_task_metrics db decimal json m s ≡ (ok tt, t)
      → (v : String) × (json.unmarshal v ≡ some m)
        × (db.find t (key decimal "tm:" m.task_id m.timestamp) ≡ ok (ok v))
  unfolding create_task_metrics save_record encode
  created m s t back h = elim (Option-cases (json.marshal m)) [
    | inl e ↦ (let g = rw (create_task_metrics, save_record, encode, e) at h in cc)
    | inr (v, e) ↦
        let k = key decimal "tm:" m.task_id m.timestamp in
        let g = rw (create_task_metrics, save_record, encode, e) at h in
        (
          v,
          back v e,
          stored k v (set db k v s) (set-Outcome db laws k v s) g k ∙ rw (eq_refl k) refl,
        )
  ]
    where
      stored :
          (k v : String) (out : Result (Unit {0}) × db.State)
          → Outcome db (Sets db k v s) s out
          → wrap_state db create_error out ≡ (ok tt, t)
          → Sets db k v s t
      stored k v (ok _, u) o g =
          subst (Sets db k v s) (ap (λ (p : Result (Unit {0}) × db.State). p.1) g) o
      stored k v (err e, u) o g =
          (let q = ap (λ (p : Result (Unit {0}) × db.State). p.0) g in absurd (ground arith))

  -- On a database that does what it documents, metrics that come back from their
  -- JSON and were just stored for a task are listed for every
  -- id that the task's id begins with, its own among them, where the limit takes in all there are.
  pub list_task_metrics-prefix :
      (m : TaskMetrics) (id x : String) (s t : db.State) (limit total : ℕ) (ms : List TaskMetrics)
      → ComesBack json m
      → create_task_metrics db decimal json m s ≡ (ok tt, t)
      → m.task_id ≡ id ++ᵗ x
      → list_task_metrics db json id 0 limit t ≡ ok (ms, total)
      → total ≤ limit
      → Elem m ms
  unfolding list_task_metrics page_under
  list_task_metrics-prefix m id x s t limit total ms back h named g fits =
      let (v, again, found) = created m s t back h in
      let starts =
        subst (λ i. starts_with (key decimal "tm:" i m.timestamp) ("tm:" ++ᵗ id) ≡ true) (sym named)
          (key_starts decimal id x m.timestamp) in
      let page = sym (list_records_lem db json ("tm:" ++ᵗ id) 0 limit t) ∙ g in
      elim (Result-cases (db.scan t ("tm:" ++ᵗ id))) [
        | inr (e, q) ↦ (let f = rw (page_under, q) at page in absurd (ground arith))
        | inl (items, q) ↦
            let here = (laws.scan_iff t ("tm:" ++ᵗ id) items q _ (ok v)).1 (starts, found) in
            let (values, c, f) =
              bind_ok (wrap query_error (copies (take limit items))) _ (ms, total)
                (rw (page_under, q) at page) in
            let (rs, d, k) = bind_ok (decode_all json values) _ (ms, total) f in
            let all : take limit items ≡ items =
              take_all limit items
                (ends limit (ap (λ (p : List TaskMetrics × ℕ). p.1) (ok_inj k)) fits) in
            subst (Elem m) (ap (λ (p : List TaskMetrics × ℕ). p.0) (ok_inj k)) (
              Elem-decode_all json v m values rs
                (Elem-copies _ v items values here
                  (ap copies (sym all) ∙ wrap_ok (copies (take limit items)) values c))
                again d)
      ]
    where
      ends : {a b : ℕ} (n : ℕ) → a ≡ b → b ≤ n → a ≤ n
      ends n e l = omega (arith, e, l)
