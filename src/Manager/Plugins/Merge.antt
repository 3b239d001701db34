-- ===== src/Manager/Plugins/Merge.antt =====
-- The constraints of several plugins, merged, bind as all of them do.
use propeller.Prelude.{
  ℕ, ◌≤◌, ◌≡◌, refl, ◌⊎◌, inl, inr, String, Bool, true, false, Option, none, some, List, [], ◌∷◌,
  ◌++◌, arith, contains, contains→Elem, Elem, All, Bool-cases, subst, ltb, sym, if◌then◌else◌,
}
use propeller.Task.{Task, Proplet}
use propeller.Outcome.{ok, ok_inj, Result-cases}
use propeller.Manager.State.{TaskInfo, new_task_info, SelectResponse, Plugin}
use propeller.Manager.Plugins.{
  add_tag, merge_tags, merge_memory, merge, select_loop, no_constraints,
  run_on_before_proplet_select, has_tags, enough_memory, proplet_matches_constraints,
}

-- The proplet has all the tags of a response, and at least its minimum of memory.
abbrev MemoryFits : Proplet → Option ℕ → Type 0
MemoryFits p none = Unit
MemoryFits p (some n) = n ≤ p.metadata.total_memory_bytes

abbrev TagsFit : Proplet → List String → Type 0
TagsFit p tags = (tag : String) → Elem tag tags → Elem tag p.metadata.tags

abbrev Fits : Proplet → SelectResponse → Type 0
Fits p c = TagsFit p c.required_tags × MemoryFits p c.min_memory_bytes

has_tags→ :
    (p : Proplet) (tags : List String) (tag : String)
    → has_tags p tags ≡ true
    → Elem tag tags
    → Elem tag p.metadata.tags
unfolding has_tags
has_tags→ p [] tag h m = absurd m
has_tags→ p (t ∷ ts) tag h (inl e) =
    subst (λ x. Elem x p.metadata.tags) e (contains→Elem p.metadata.tags t (ground arith))
has_tags→ p (t ∷ ts) tag h (inr m) = has_tags→ p ts tag (ground arith) m

enough_memory→ : (p : Proplet) (n : Option ℕ) → enough_memory p n ≡ true → MemoryFits p n
unfolding enough_memory
enough_memory→ p none h = tt
enough_memory→ p (some n) h = ground arith

-- A proplet that passes the test has the tags and the memory that the constraints ask for.
matches→Fits :
    (p : Proplet) (c : SelectResponse) → proplet_matches_constraints p c ≡ true → Fits p c
unfolding proplet_matches_constraints
matches→Fits p c h = (
  λ tag m. has_tags→ p c.required_tags tag (ground arith) m,
  enough_memory→ p c.min_memory_bytes (ground arith),
)

append-Elem-left : (x : String) (xs ys : List String) → Elem x xs → Elem x (xs ++ ys)
append-Elem-left x [] ys h = absurd h
append-Elem-left x (y ∷ xs) ys (inl e) = inl e
append-Elem-left x (y ∷ xs) ys (inr h) = inr (append-Elem-left x xs ys h)

append-Elem-last : (x : String) (xs : List String) → Elem x (xs ++ x ∷ [])
append-Elem-last x [] = inl refl
append-Elem-last x (y ∷ xs) = inr (append-Elem-last x xs)

merge_tags-old :
    (x : String) (merged tags : List String) → Elem x merged → Elem x (merge_tags merged tags)
unfolding merge_tags
merge_tags-old x merged [] h = h
merge_tags-old x merged (t ∷ ts) h =
    merge_tags-old x (add_tag merged t) ts (still (contains merged t))
  where
    still : (b : Bool) → Elem x (if b then merged else merged ++ t ∷ [])
    still true = h
    still false = append-Elem-left x merged (t ∷ []) h

merge_tags-new :
    (x : String) (merged tags : List String) → Elem x tags → Elem x (merge_tags merged tags)
unfolding merge_tags
merge_tags-new x merged [] h = absurd h
merge_tags-new x merged (t ∷ ts) (inr h) = merge_tags-new x (add_tag merged t) ts h
merge_tags-new x merged (t ∷ ts) (inl e) =
    merge_tags-old x (add_tag merged t) ts
      (subst (λ y. Elem y (add_tag merged t)) e (added (Bool-cases (contains merged t))))
  where
    added : (contains merged t ≡ true) ⊎ (contains merged t ≡ false) → Elem t (add_tag merged t)
    added (inl old) = rw old (contains→Elem merged t old)
    added (inr new) = rw new (append-Elem-last t merged)

merge_memory-Fits :
    (p : Proplet) (a b : Option ℕ)
    → MemoryFits p (merge_memory a b)
    → MemoryFits p a × MemoryFits p b
unfolding merge_memory
merge_memory-Fits p a none h = (h, tt)
merge_memory-Fits p none (some n) h = (tt, h)
merge_memory-Fits p (some m) (some n) h = elim (Bool-cases (ltb m n)) [
  | inl e ↦ (let k = rw e at h in (ground arith, k))
  | inr e ↦ (let k = rw e at h in (k, ground arith))
]

merge-Fits : (p : Proplet) (a b : SelectResponse) → Fits p (merge a b) → Fits p a × Fits p b
unfolding merge
merge-Fits p a b (tags, memory) =
    let (ma, mb) = merge_memory-Fits p a.min_memory_bytes b.min_memory_bytes memory in
    (
      (λ x h. tags x (merge_tags-old x a.required_tags b.required_tags h), ma),
      (λ x h. tags x (merge_tags-new x a.required_tags b.required_tags h), mb),
    )

-- A plugin allows the task, and a proplet meets what it asks for.
abbrev pub Agrees : TaskInfo → Proplet → Plugin → Type 0
Agrees info p pl =
    (resp : SelectResponse) × (pl.on_before_proplet_select info ≡ ok resp)
    × (resp.allow ≡ true)
    × Fits p resp

select_loop-Fits :
    (info : TaskInfo) (p : Proplet) (plugins : List Plugin) (merged c : SelectResponse)
    → select_loop info plugins merged ≡ ok c
    → Fits p c
    → Fits p merged × All (Agrees info p) plugins
unfolding select_loop
select_loop-Fits info p [] merged c h fits = (subst (Fits p) (ok_inj (sym h)) fits, tt)
select_loop-Fits info p (pl ∷ pls) merged c h fits =
    elim (Result-cases (pl.on_before_proplet_select info)) [
      | inr (x, e) ↦ absurd (ground arith)
      | inl (resp, e) ↦ elim (Bool-cases resp.allow) [
        | inr denied ↦ absurd (ground arith)
        | inl allowed ↦
            let (both, rest) =
              select_loop-Fits info p pls (merge merged resp) c (rw (e, allowed) at h) fits in
            let (old, new) = merge-Fits p merged resp both in (old, ((resp, e, allowed, new), rest))
      ]
    ]

-- If all plugins agree to the choice of a proplet and it passes the test of the merged constraints,
-- then each plugin has allowed the task, and the proplet has the tags and memory it asked for.
pub constraints_bind :
    (plugins : List Plugin) (t : Task) (p : Proplet) (c : SelectResponse)
    → run_on_before_proplet_select plugins t ≡ ok c
    → proplet_matches_constraints p c ≡ true
    → All (Agrees (new_task_info t) p) plugins
unfolding run_on_before_proplet_select
constraints_bind plugins t p c h m =
    (select_loop-Fits (new_task_info t) p plugins no_constraints c h (matches→Fits p c m)).1
