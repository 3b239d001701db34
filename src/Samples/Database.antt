-- ===== src/Samples/Database.antt =====
-- The Badger stores at a database that never fails, a list of its entries.
use package.text.Mathlib.Text.{starts_with}
use propeller.Prelude.{
  ◌≡◌, ◌↔◌, refl, sym, ◌∙◌, ap, subst, ℕ, String, true, false, Option, none, some, List, [], ◌∷◌,
  str_eq, eq_iff, if◌then◌else◌, Elem, inl, inr, Bool-cases, Option-cases, arith,
}
use propeller.Value.{Value, field, end, text}
use propeller.Task.{Task}
use propeller.Metrics.{TaskMetrics}
use propeller.Errors.{key_not_found, task_not_found}
use propeller.Outcome.{Result, ok, err, ok_inj}
use propeller.Storage
use propeller.Storage.Laws.{lookup-put, lookup-remove}
use propeller.Badger.{Engine, Codec, list_records, save_record}
use propeller.Badger.Pages.{page_under, list_records_lem}
use propeller.Badger.Tasks
use propeller.Badger.Metrics
use propeller.Badger.TaskMap.{tasks_refine_map}
use propeller.Badger.MetricsPrefix.{list_task_metrics-prefix}
use propeller.Badger.Filter.{filter_ids_iff, HasEntries}
use propeller.Samples.{first_task}
use propeller.Badger.Laws.{IsLawful, ComesBack, Outcome}

unfoldable pub found : Option String → Result (Result String)
found none = err key_not_found
found (some v) = ok (ok v)

-- The entries under a prefix, of all those that are stored.
unfoldable pub pick :
    String → List (String × String) → List (String × String) → List (String × Result String)
pick prefix all [] = []
pick prefix all ((k, _) ∷ s) = elim (Storage.lookup all k) [
  | none ↦ pick prefix all s
  | some v ↦ elim (starts_with k prefix) [
    | true ↦ (k, ok v) ∷ pick prefix all s
    | false ↦ pick prefix all s
  ]
]

abbrev pub entries : Engine
entries = record {
  State = List (String × String);
  find = λ s k. found (Storage.lookup s k);
  write = λ s k v. ok (Storage.put k v s);
  erase = λ s k. ok (Storage.remove k s);
  scan = λ s prefix. ok (pick prefix s s);
  commit = λ s t. ok tt;
}

found-put :
    (k v j : String) (s : List (String × String))
    → found (Storage.lookup (Storage.put k v s) j)
      ≡ (if str_eq k j then ok (ok v) else found (Storage.lookup s j))
unfolding found
found-put k v j s = rw (lookup-put k j v s) (ground arith)

found-remove :
    (k j : String) (s : List (String × String))
    → found (Storage.lookup (Storage.remove k s) j)
      ≡ (if str_eq k j then err key_not_found else found (Storage.lookup s j))
unfolding found
found-remove k j s = rw (lookup-remove k j s) (ground arith)

pick-Elem :
    (prefix k : String) (r : Result String) (all s : List (String × String))
    → Elem (k, r) (pick prefix all s)
    → (starts_with k prefix ≡ true) × (found (Storage.lookup all k) ≡ ok r)
unfolding pick found
pick-Elem prefix k r all [] m = absurd m
pick-Elem prefix k r all ((j, w) ∷ s) m = elim (Option-cases (Storage.lookup all j)) [
  | inl e ↦ pick-Elem prefix k r all s (rw (pick, e) at m)
  | inr (v, e) ↦ elim (Bool-cases (starts_with j prefix)) [
    | inr n ↦ pick-Elem prefix k r all s (rw (pick, e, n) at m)
    | inl y ↦ first v e y (λ n. pick-Elem prefix k r all s n) (rw (pick, e, y) at m)
  ]
]
  where
    first :
        (v : String)
        → Storage.lookup all j ≡ some v
        → starts_with j prefix ≡ true
        → (Elem (k, r) (pick prefix all s)
            → (starts_with k prefix ≡ true) × (found (Storage.lookup all k) ≡ ok r))
        → Elem (k, r) ((j, ok v) ∷ pick prefix all s)
        → (starts_with k prefix ≡ true) × (found (Storage.lookup all k) ≡ ok r)
    first v e y rest (inr n) = rest n
    first v e y rest (inl q) =
        let key : j ≡ k = ap (λ (p : String × Result String). p.0) q in
        let val : ok v ≡ r = ap (λ (p : String × Result String). p.1) q in
        (
          ap (λ z. starts_with z prefix) (sym key) ∙ y,
          ap (λ z. found (Storage.lookup all z)) (sym key) ∙ ap found e ∙ ap ok val,
        )

Elem-pick :
    (prefix k v : String) (all s : List (String × String)) (w : String)
    → Storage.lookup s k ≡ some w
    → starts_with k prefix ≡ true
    → Storage.lookup all k ≡ some v
    → Elem (k, ok v) (pick prefix all s)
unfolding pick Storage.lookup
Elem-pick prefix k v all [] w l y e = cc
Elem-pick prefix k v all ((j, u) ∷ s) w l y e = elim (Bool-cases (str_eq j k)) [
  | inl q ↦
      let same : j ≡ k = (eq_iff j k).0 q in
      let f = ap (Storage.lookup all) same ∙ e in
      let g = ap (λ z. starts_with z prefix) same ∙ y in
      rw (pick, f, g) (inl (ap (λ z. (z, ok v)) same))
  | inr n ↦
      let rest = Elem-pick prefix k v all s w (rw n at l) y e in
      elim (Option-cases (Storage.lookup all j)) [
        | inl f ↦ rw (pick, f) rest
        | inr (x, f) ↦ elim (Bool-cases (starts_with j prefix)) [
          | inl g ↦ rw (pick, f, g) (inr rest)
          | inr g ↦ rw (pick, f, g) rest
        ]
      ]
]

found_ok :
    (o : Option String) (r : Result String)
    → found o ≡ ok r
    → (v : String) × (o ≡ some v) × (ok v ≡ r)
unfolding found
found_ok none r h = cc
found_ok (some v) r h = (v, refl, ok_inj h)

entries-IsLawful : IsLawful entries
entries-IsLawful = record {
  find-write =
      λ s t k v j h. ap (λ u. found (Storage.lookup u j)) (sym (ok_inj h)) ∙ found-put k v j s;
  find-erase =
      λ s t k j h. ap (λ u. found (Storage.lookup u j)) (sym (ok_inj h)) ∙ found-remove k j s;
  scan_iff = λ s prefix items h k r. (
    λ m. pick-Elem prefix k r s s (subst (Elem (k, r)) (sym (ok_inj h)) m),
    λ (y, f).
        let (v, e, q) = found_ok (Storage.lookup s k) r f in
        subst (Elem (k, r)) (ok_inj h)
          (subst (λ z. Elem (k, z) (pick prefix s s)) q (Elem-pick prefix k v s s v e y e)),
  );
}

-- JSON of records of which there is one.
module _ {R : Type 0} (r : R) where
  abbrev pub only : Codec R
  only = record { marshal = λ _. some "{}"; unmarshal = λ _. some r }

  only-ComesBack : ComesBack only r
  only-ComesBack bytes h = refl

abbrev no_decimal : ℕ → String
no_decimal n = "1"

-- A task of each of two ids, an entry of the index and a proplet.
abbrev pub kept : List (String × String)
kept =
    ("proplet:b", "{}")
    ∷ ("task:a", "{}")
    ∷ ("task:b", "{}")
    ∷ (Tasks.meta_idx_key "colour" "blue" "a", "")
    ∷ []

abbrev pub sprint : Value → String
sprint v = "?"

abbrev blue : Task
blue = record first_task { metadata = field "colour" (text "blue") end }

tasks_refine_map_example :
    Outcome entries
      (λ u.
        (i : String)
        → Tasks.get entries (only blue) sprint i u
          ≡ (if str_eq "a" i then ok blue else Tasks.get entries (only blue) sprint i kept))
      kept
      (Tasks.create entries (only blue) sprint blue kept)
    × Outcome entries
        (λ u.
          (i : String)
          → Tasks.get entries (only blue) sprint i u
            ≡ (if str_eq "a" i then ok blue else Tasks.get entries (only blue) sprint i kept))
        kept
        (Tasks.update entries (only blue) sprint blue kept)
    × Outcome entries
        (λ u.
          (i : String)
          → Tasks.get entries (only blue) sprint i u ≡ (
              if str_eq "b" i
              then err task_not_found
              else Tasks.get entries (only blue) sprint i kept))
        kept
        (Tasks.delete entries (only blue) sprint "b" kept)
tasks_refine_map_example =
    tasks_refine_map entries entries-IsLawful (only blue) sprint blue "b" kept (only-ComesBack blue)

list_records_example :
    list_records entries (only blue) "task:" 1 5 kept
    ≡ page_under entries (only blue) "task:" 1 5 kept
list_records_example = list_records_lem entries (only blue) "task:" 1 5 kept

filter_ids_example :
    Elem "a" (Tasks.or_none (some ("a" ∷ [])))
    ↔ HasEntries entries entries-IsLawful (only blue) sprint kept blue.metadata "a"
unfolding pick Tasks.filter_ids_by_metadata Storage.lookup
filter_ids_example =
    filter_ids_iff entries entries-IsLawful (only blue) sprint kept "colour" (text "blue") end
      (some ("a" ∷ [])) "a" refl

-- Metrics of task "ab", which the listing for task "a" has too.
abbrev metrics : TaskMetrics
metrics = record {
  task_id = "ab";
  proplet_id = "p1";
  metrics = record {
    cpu_percent = 0;
    memory_bytes = 4096;
    memory_percent = 0;
    disk_read_bytes = 0;
    disk_write_bytes = 0;
    uptime_seconds = 1;
    thread_count = 1;
    file_descriptor_count = 3;
  };
  aggregated = none;
  timestamp = 1;
}

list_task_metrics-prefix_example : Elem metrics (metrics ∷ [])
unfolding pick Metrics.create_task_metrics Metrics.list_task_metrics save_record list_records
    Storage.put Storage.lookup
list_task_metrics-prefix_example =
    list_task_metrics-prefix entries entries-IsLawful (only metrics) no_decimal metrics "a" "b" kept
      (("proplet:b", "{}")
        ∷ ("task:a", "{}")
        ∷ ("task:b", "{}")
        ∷ (Tasks.meta_idx_key "colour" "blue" "a", "")
        ∷ ("tm:ab:1", "{}")
        ∷ [])
      10 1 (metrics ∷ []) (only-ComesBack metrics) refl refl refl (omega arith)
