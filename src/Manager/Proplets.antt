-- ===== src/Manager/Proplets.antt =====
-- The service's operations on proplets (manager/service.go): reading, listing, choosing, counting.
pub mod Choice
use propeller.Prelude.{
  ℕ, zero, suc, ◌+◌, ◌-◌, ◌^◌, String, Bool, true, false, Option, none, some, List, [], ◌∷◌, ◌++◌,
  str_eq, if◌then◌else◌, ltb, leb, ◌==◌, keep, length, ◌||◌, not,
}
use propeller.Task.{Proplet, alive_timeout, last?, set_alive}
use propeller.Task.Status.{PropletStatus, active_status, inactive_status, to_proplet_status}
use propeller.Errors.{
  conflict, invalid_value, no_match, no_active_proplets, page_out_of_range, unfinished,
}
use propeller.Storage
use propeller.Scheduler.{select_proplet}
use propeller.Manager.State.{
  Env, reading, Action, SelectResponse, ◌>>=◌, ◌>>◌, pure, throw, get, external, now,
}
use propeller.Manager.Repos.{proplet_repo_get, proplet_update, proplet_delete}
use propeller.Manager.Plugins.{proplet_matches_constraints}

-- `isAlive` of ListByAlive: the last sign of life is not before a time.
seen_since : ℕ → Option ℕ → Bool
seen_since since none = false
seen_since since (some last_alive) = leb since last_alive

is_alive_since : ℕ → Proplet → Bool
unfolding seen_since last?
is_alive_since since p = seen_since since (last? p.alive_history)

same_truth : Bool → Bool → Bool
same_truth true b = b
same_truth false b = not b

-- `ListByAlive` before its pages are cut.
unfoldable by_alive : Bool → ℕ → List (String × Proplet) → List Proplet
unfolding is_alive_since same_truth
by_alive alive since proplets =
    keep (λ p. same_truth (is_alive_since since p) alive) (Storage.sorted_values proplets)

-- A page, or the panic of its slice.
abbrev pub page_or_panic : {A : Type 0} → Option (List A × ℕ) → Action (List A × ℕ)
page_or_panic (some r) = pure r
page_or_panic none = throw page_out_of_range

has_memory : Option ℕ → Bool
has_memory none = false
has_memory (some n) = true

has_constraints : SelectResponse → Bool
unfolding has_memory
has_constraints c = not (length c.required_tags == 0) || has_memory c.min_memory_bytes

module _ (env : Env) where
  -- `proplets[i].SetAlive()` on each proplet of a page.
  unfoldable pub refresh : List Proplet → Action (List Proplet)
  unfolding set_alive now
  refresh [] = pure []
  refresh (p ∷ ps) = do t ← now env; rest ← refresh ps; pure (set_alive t p ∷ rest)

  unfoldable pub get_proplet : String → Action Proplet
  unfolding proplet_repo_get now
  get_proplet id = do p ← proplet_repo_get env id; t ← now env; pure (set_alive t p)

  unfoldable pub list_by_alive : Bool → ℕ → ℕ → ℕ → Action (List Proplet × ℕ)
  unfolding by_alive external
  list_by_alive alive since offset limit = do
    external env reading
    s ← get
    page_or_panic (Storage.page (by_alive alive since s.proplets) offset limit)

  -- The branch of ListProplets for a page of the repository.
  finish_page : List Proplet × ℕ → Action (List Proplet × ℕ)
  finish_page (ps, total) = do ps' ← refresh ps; pure (ps', total)

  list_with_status : ℕ → ℕ → Option PropletStatus → Action (List Proplet × ℕ)
  unfolding finish_page list_by_alive
  list_with_status offset limit none = throw invalid_value
  list_with_status offset limit (some active_status) = do
    t ← now env
    r ← list_by_alive true (t - alive_timeout) offset limit
    finish_page r
  list_with_status offset limit (some inactive_status) = do
    t ← now env
    r ← list_by_alive false (t - alive_timeout) offset limit
    finish_page r

  list_without_status : ℕ → ℕ → Action (List Proplet × ℕ)
  unfolding finish_page
  list_without_status offset limit = do
    external env reading
    s ← get
    r ← page_or_panic (Storage.list s.proplets offset limit)
    finish_page r

  unfoldable pub list_proplets : ℕ → ℕ → String → Action (List Proplet × ℕ)
  unfolding list_with_status list_without_status to_proplet_status
  list_proplets offset limit status =
      if str_eq status ""
      then list_without_status offset limit
      else list_with_status offset limit (to_proplet_status status)

  -- The loop of listAllActiveProplets, for the rounds that are left.
  collect_active : ℕ → ℕ → ℕ → List Proplet → Action (List Proplet)
  unfolding list_by_alive
  collect_active zero since offset all = throw unfinished
  collect_active (suc rounds) since offset all = do
    r ← list_by_alive true since offset 100
    ps ← refresh r.0
    let all' = all ++ ps
    let offset' = offset + length ps
    let next = collect_active rounds since offset' all'
    if leb r.1 offset' || (length ps == 0) then pure all' else next

  -- Each round but the last takes in a proplet, so a round more than there are proplets is enough.
  unfoldable pub list_all_active_proplets : Action (List Proplet)
  unfolding collect_active
  list_all_active_proplets = do
    t ← now env
    s ← get
    collect_active (suc (length s.proplets)) (t - alive_timeout) 0 []

  -- `svc.scheduler.SelectProplet`, which moves the cursor.
  unfoldable pub schedule : List Proplet → Action Proplet
  schedule ps s =
      let (r, last) = select_proplet s.last_proplet ps in (r, record s { last_proplet = last })

  choose : SelectResponse → List Proplet → Action Proplet
  unfolding has_constraints schedule
  choose c candidates =
      if length candidates == 0
      then throw (if has_constraints c then no_match else no_active_proplets)
      else schedule candidates

  unfoldable pub select_proplet_with_constraints : SelectResponse → Action Proplet
  unfolding list_all_active_proplets choose
  select_proplet_with_constraints c = do
    ps ← list_all_active_proplets
    choose c (keep (λ p. proplet_matches_constraints p c) ps)

  unfoldable service_select_proplet : Action Proplet
  unfolding list_all_active_proplets schedule
  service_select_proplet = do ps ← list_all_active_proplets; schedule ps

  unfoldable pub delete_proplet : String → Action (Unit {0})
  unfolding get_proplet proplet_delete
  delete_proplet id = do
    p ← get_proplet id
    if ltb 0 p.task_count then throw conflict else proplet_delete env id

-- `max(int64(count)+1, 0)` and `max(int64(count)-1, 0)` for a word `count`, as a word: the
-- conversion reads a count from 2 ^ 63 on as negative, and the sum wraps around.
abbrev int64_mod : ℕ
int64_mod = 2 ^ 63

unfoldable pub count_up : ℕ → ℕ
count_up n = if ltb (n + 1) int64_mod then n + 1 else 0

unfoldable pub count_down : ℕ → ℕ
count_down n = if ltb n int64_mod then n - 1 else if n == int64_mod then int64_mod - 1 else 0

module _ (env : Env) where
  unfoldable pub bump_up : Proplet → Action (Unit {0})
  unfolding count_up proplet_update
  bump_up p = proplet_update env (record p { task_count = count_up p.task_count })

  unfoldable pub bump_down : Proplet → Action (Unit {0})
  unfolding count_down proplet_update
  bump_down p = proplet_update env (record p { task_count = count_down p.task_count })
