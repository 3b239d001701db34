-- ===== src/Repository/Index.antt =====
-- Reading the index after an entry is added or taken out.
use propeller.Prelude.{
  ◌≡◌, refl, ◌∙◌, String, Bool, true, false, List, [], ◌∷◌, arith, str_eq, eq_iff, if◌then◌else◌,
  contains, Bool-cases, Option-cases, inl, inr,
}
use propeller.Value.{Value, Fields, end, field}
use propeller.Storage
use propeller.Storage.Laws.{lookup-put, lookup-remove}
use propeller.Repository.{
  MetaIdx, or_empty, add_id, drop_id, put_unless_empty, index_entry, deindex_entry, meta_value_str,
  index_task, deindex_task,
}

-- `id` is in metaIdx[k][s].
unfoldable pub has : MetaIdx → String → String → String → Bool
has idx k s id = contains (or_empty (Storage.lookup (or_empty (Storage.lookup idx k)) s)) id

contains-add_id :
    (id i : String) (ids : List String)
    → contains (add_id id ids) i ≡ (if str_eq id i then true else contains ids i)
unfolding contains add_id
contains-add_id id i ids = ground (arith, eq_iff id i)

contains-drop_id :
    (id i : String) (ids : List String)
    → contains (drop_id id ids) i ≡ (if str_eq id i then false else contains ids i)
unfolding contains drop_id
contains-drop_id id i [] = ground arith
contains-drop_id id i (j ∷ ids) =
    ground (arith, contains-drop_id id i ids, eq_iff id i, eq_iff j id, eq_iff j i)

-- An empty inner map reads like one that is not there.
or_empty-put_unless_empty :
    {A : Type 0} (k j : String) (xs : List A) (m : List (String × List A))
    → or_empty (Storage.lookup (put_unless_empty k xs m) j)
      ≡ (if str_eq k j then xs else or_empty (Storage.lookup m j))
or_empty-put_unless_empty k j [] m = rw (lookup-remove k j m) (ground arith)
or_empty-put_unless_empty k j (x ∷ xs) m = rw (lookup-put k j (x ∷ xs) m) (ground arith)

or_empty-put :
    {A : Type 0} (k j : String) (xs : List A) (m : List (String × List A))
    → or_empty (Storage.lookup (Storage.put k xs m) j)
      ≡ (if str_eq k j then xs else or_empty (Storage.lookup m j))
or_empty-put k j xs m = rw (lookup-put k j xs m) (ground arith)

-- metaIdx[k] and metaIdx[k][s].
abbrev vals_of : MetaIdx → String → List (String × List String)
vals_of idx k = or_empty (Storage.lookup idx k)

abbrev ids_of : MetaIdx → String → String → List String
ids_of idx k s = or_empty (Storage.lookup (vals_of idx k) s)

-- One set of the index is replaced.
abbrev Replaces : String → String → List String → MetaIdx → MetaIdx → Type 0
Replaces k s ids idx new =
    (k' s' : String)
    → ids_of new k' s'
      ≡ (if (if str_eq k k' then str_eq s s' else false) then ids else ids_of idx k' s')

put-Replaces :
    (k s : String) (ids : List String) (idx : MetaIdx)
    → Replaces k s ids idx (Storage.put k (Storage.put s ids (vals_of idx k)) idx)
put-Replaces k s ids idx k' s' = elim (Bool-cases (str_eq k k')) [
  | inr n ↦ rw (or_empty-put k k' (Storage.put s ids (vals_of idx k)) idx, n) refl
  | inl e ↦
      let same : k ≡ k' = (eq_iff k k').0 e in
      rw (or_empty-put k k' (Storage.put s ids (vals_of idx k)) idx, e)
        (or_empty-put s s' ids (vals_of idx k) ∙ rw same refl)
]

drop-Replaces :
    (k s : String) (ids : List String) (idx : MetaIdx)
    → Replaces k s ids idx (put_unless_empty k (put_unless_empty s ids (vals_of idx k)) idx)
drop-Replaces k s ids idx k' s' = elim (Bool-cases (str_eq k k')) [
  | inr n ↦ rw (or_empty-put_unless_empty k k' (put_unless_empty s ids (vals_of idx k)) idx, n) refl
  | inl e ↦
      let same : k ≡ k' = (eq_iff k k').0 e in
      rw (or_empty-put_unless_empty k k' (put_unless_empty s ids (vals_of idx k)) idx, e)
        (or_empty-put_unless_empty s s' ids (vals_of idx k) ∙ rw same refl)
]

-- The key, the value and the id are those of an entry.
abbrev same_entry : String → String → String → String → String → String → Bool
same_entry k s id k' s' id' =
    if (if str_eq k k' then str_eq s s' else false) then str_eq id id' else false

has-index_entry :
    (k s id k' s' id' : String) (idx : MetaIdx)
    → has (index_entry k s id idx) k' s' id'
      ≡ (if same_entry k s id k' s' id' then true else has idx k' s' id')
unfolding has index_entry
has-index_entry k s id k' s' id' idx =
    rw (put-Replaces k s (add_id id (ids_of idx k s)) idx k' s')
      (ground (arith, contains-add_id id id' (ids_of idx k s), eq_iff k k', eq_iff s s'))

has-deindex_entry :
    (k s id k' s' id' : String) (idx : MetaIdx)
    → has (deindex_entry k s id idx) k' s' id'
      ≡ (if same_entry k s id k' s' id' then false else has idx k' s' id')
unfolding has deindex_entry contains
has-deindex_entry k s id k' s' id' idx = elim (Option-cases (Storage.lookup (vals_of idx k) s)) [
  | inl e ↦
      rw (e, deindex_entry)
        (let none_held : has idx k s id' ≡ false = (rw e refl) in
          ground (arith, none_held, eq_iff k k', eq_iff s s'))
  | inr (ids, e) ↦
      rw (e, deindex_entry)
        (rw (drop-Replaces k s (drop_id id ids) idx k' s') (
          let held : ids_of idx k s ≡ ids = (rw e refl) in
          ground (arith, contains-drop_id id id' ids, held, eq_iff k k', eq_iff s s')))
]

module _ (sprint : Value → String) where
  -- Some entry of the metadata has the key, and the value in its text.
  unfoldable pub mem_meta : Fields → String → String → Bool
  mem_meta end k s = false
  mem_meta (field k' v m) k s =
      if (if str_eq k' k then str_eq (meta_value_str sprint v) s else false)
      then true
      else mem_meta m k s

  pub has-index_task :
      (id : String) (m : Fields) (k s i : String) (idx : MetaIdx)
      → has (index_task sprint id m idx) k s i
        ≡ (if (if mem_meta m k s then str_eq id i else false) then true else has idx k s i)
  unfolding index_task mem_meta
  has-index_task id end k s i idx = refl
  has-index_task id (field k' v m) k s i idx =
      has-index_task id m k s i (index_entry k' (meta_value_str sprint v) id idx)
      ∙ rw (has-index_entry k' (meta_value_str sprint v) id k s i idx) (ground arith)

  pub has-deindex_task :
      (id : String) (m : Fields) (k s i : String) (idx : MetaIdx)
      → has (deindex_task sprint id m idx) k s i
        ≡ (if (if mem_meta m k s then str_eq id i else false) then false else has idx k s i)
  unfolding deindex_task mem_meta
  has-deindex_task id end k s i idx = refl
  has-deindex_task id (field k' v m) k s i idx =
      has-deindex_task id m k s i (deindex_entry k' (meta_value_str sprint v) id idx)
      ∙ rw (has-deindex_entry k' (meta_value_str sprint v) id k s i idx) (ground arith)
