-- ===== src/Manager/Listing/Whole.antt =====
-- The pages of listAllTasks (manager/service.go) make up all tasks.
use propeller.Prelude.{
  ℕ, zero, suc, ◌+◌, ◌-◌, ◌<◌, ◌≤◌, min, ◌≡◌, refl, sym, ◌∙◌, ap, true, false, List, [], ◌∷◌, ◌++◌,
  arith, leb, ◌==◌, ◌||◌, length, take, drop, leb→le, ==_iff, take_all, length-drop, length-take,
  drop-drop, Bool-cases, inl, inr,
}
use mathlib.Core.List.{append_assoc}
use propeller.Task.{Task}
use propeller.Outcome.{ok}
use propeller.Storage
use propeller.Storage.{word_mod}
use propeller.Storage.Paging.{page_lem}
use propeller.Storage.Sorted.{length-sorted_values}
use propeller.Manager.State.{Env, Svc, external, asked}
use propeller.Manager.Start.Effect.{calm}
use propeller.Manager.Listing.{task_list, collect_tasks, list_all_tasks}

module _ (env : Env) where
  task_list_lem :
      (offset : ℕ) (s : Svc)
      → offset + 100 < word_mod
      → task_list (calm env) offset 100 s ≡ (
        ok (
          take 100 (drop offset (Storage.sorted_values s.tasks)),
          length (Storage.sorted_values s.tasks),
        ),
        asked s,
      )
  unfolding task_list external Storage.list
  task_list_lem offset s fits = rw (page_lem (Storage.sorted_values s.tasks) offset 100 fits) refl

take-append-drop : (n : ℕ) (xs : List Task) → take n xs ++ drop n xs ≡ xs
take-append-drop zero xs = refl
take-append-drop (suc n) [] = refl
take-append-drop (suc n) (x ∷ xs) = ap (λ ys. x ∷ ys) (take-append-drop n xs)

joined :
    (size offset : ℕ) (all xs : List Task)
    → size ≡ 100
    → (all ++ take 100 (drop offset xs)) ++ drop (offset + size) xs ≡ all ++ drop offset xs
joined size offset all xs full =
    append_assoc all (take 100 (drop offset xs)) (drop (offset + size) xs)
    ∙ ap (λ (ys : List Task). all ++ ys)
        (ap (λ (k : ℕ). take 100 (drop offset xs) ++ drop (offset + k) xs) full
          ∙ ap (λ (ys : List Task). take 100 (drop offset xs) ++ ys) (sym (drop-drop 100 offset xs))
          ∙ take-append-drop 100 (drop offset xs))

short_rest :
    (total offset rest size : ℕ)
    → size ≡ min 100 rest
    → rest ≡ total - offset
    → offset ≤ total
    → (leb total (offset + size) || (size == 0)) ≡ true
    → rest ≤ 100
short_rest total offset rest size h k i e = elim (Bool-cases (leb total (offset + size))) [
  | inl l ↦ (let le = leb→le total (offset + size) l in omega arith)
  | inr l ↦ (let z : size ≡ 0 = (==_iff size 0).0 (rw l at e) in omega arith)
]

full_page :
    (total offset rest size : ℕ)
    → size ≡ min 100 rest
    → rest ≡ total - offset
    → offset ≤ total
    → (leb total (offset + size) || (size == 0)) ≡ false
    → (size ≡ 100) × (offset + size ≤ total)
full_page total offset rest size h k i e = elim (Bool-cases (leb total (offset + size))) [
  | inl l ↦ (let z = rw l at e in absurd (ground arith))
  | inr l ↦ (let lt : offset + size < total = ground arith in (omega arith, omega arith))
]

module _ (env : Env) where
  -- From an offset on the loop takes in the rest of the list, and only counts its calls.
  collect_tasks_lem :
      (rounds offset : ℕ) (all : List Task) (s : Svc)
      → offset ≤ length (Storage.sorted_values s.tasks)
      → length (Storage.sorted_values s.tasks) < rounds + offset
      → length (Storage.sorted_values s.tasks) + 100 < word_mod
      → (n : ℕ) × (collect_tasks (calm env) rounds offset all s
          ≡ (ok (all ++ drop offset (Storage.sorted_values s.tasks)), record s { calls = n }))
  unfolding collect_tasks
  collect_tasks_lem zero offset all s inside enough fits = absurd (omega arith)
  collect_tasks_lem (suc rounds) offset all s inside enough fits =
      let xs = Storage.sorted_values s.tasks in
      let page = take 100 (drop offset xs) in
      let size : length page ≡ min 100 (length (drop offset xs)) =
        length-take 100 (drop offset xs) in
      let rest : length (drop offset xs) ≡ length xs - offset = length-drop offset xs in
      let listed = task_list_lem env offset s (omega arith) in
      elim (Bool-cases (leb (length xs) (offset + length page) || (length page == 0))) [
        | inl e ↦
            let short =
              short_rest (length xs) offset (length (drop offset xs)) (length page) size rest inside
                e in
            (
              suc s.calls,
              rw (listed, collect_tasks, e) (rw (take_all 100 (drop offset xs) short) refl),
            )
        | inr e ↦
            let (full, within) =
              full_page (length xs) offset (length (drop offset xs)) (length page) size rest inside
                e in
            let (n, later) =
              collect_tasks_lem rounds (offset + length page) (all ++ page) (asked s) (omega arith)
                (omega arith) fits in
            (
              n,
              rw (listed, collect_tasks, e)
                  (later
                    ∙ ap (λ (ys : List Task). (ok ys, record s { calls = n }))
                        (joined (length page) offset all xs full)),
            )
      ]

-- Where no call fails and the tasks are so few that a page past them still has a word for its end,
-- listAllTasks answers with the tasks of all keys, in the order of the keys.
pub list_all_tasks_lem :
    (env : Env) (s : Svc)
    → length s.tasks + 100 < word_mod
    → (n : ℕ) × (list_all_tasks (calm env) s
        ≡ (ok (Storage.sorted_values s.tasks), record s { calls = n }))
unfolding list_all_tasks
list_all_tasks_lem env s fits =
    let size = length-sorted_values s.tasks in
    collect_tasks_lem env (suc (length s.tasks)) 0 [] s (omega arith) (omega arith) (omega arith)
