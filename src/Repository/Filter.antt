-- ===== src/Repository/Filter.antt =====
-- The list of tasks by metadata (pkg/storage/memory_adapter.go).
use propeller.Prelude.{
  ◌≡◌, ◌≢◌, ◌↔◌, refl, sym, ◌∙◌, ap, String, Bool, true, false, Option, none, some, List, [], ◌∷◌,
  arith, eq_iff, if◌then◌else◌, Option-cases, inl, inr, contains, Elem, keep,
}
use propeller.Value.{Value, Fields, end, field}
use propeller.Task.{Task}
use propeller.Storage
use propeller.Repository.{
  Repo, MetaIdx, meta_value_str, filter_loop, intersect, matched_ids, matching,
  filter_ids_by_metadata,
}
use propeller.Repository.Index.{has, mem_meta}
use propeller.Repository.Exact.{IsExact, holds}
use propeller.Repository.Collect.{Elem-collect, collect-Elem, Elem-sort_by_id}

contains-keep :
    (ids matched : List String) (id : String)
    → contains (keep (λ i. contains ids i) matched) id
      ≡ (if contains matched id then contains ids id else false)
unfolding contains
contains-keep ids [] id = refl
contains-keep ids (i ∷ matched) id = ground (arith, contains-keep ids matched id, eq_iff i id)

module _ (sprint : Value → String) where
  -- All entries of a filter are in the index, for an id.
  abbrev all_has : Fields → MetaIdx → String → Bool
  all_has end idx id = true
  all_has (field k v m) idx id =
      if has idx k (meta_value_str sprint v) id then all_has m idx id else false

  -- All entries of a filter are among those of a task.
  abbrev pub matches_all : Fields → Fields → Bool
  matches_all end metadata = true
  matches_all (field k v m) metadata =
      if mem_meta sprint metadata k (meta_value_str sprint v) then matches_all m metadata else false

  abbrev member : Option (List String) → String → Bool
  member none id = true
  member (some ids) id = contains ids id

  abbrev found : Option (Option (List String)) → String → Bool
  found none id = false
  found (some m) id = member m id

  member-intersect :
      (matched : Option (List String)) (ids : List String) (id : String)
      → contains (intersect matched ids) id ≡ (if member matched id then contains ids id else false)
  unfolding intersect
  member-intersect none ids id = refl
  member-intersect (some old) ids id = contains-keep ids old id

  key_absent :
      (idx : MetaIdx) (k s id : String) → Storage.lookup idx k ≡ none → has idx k s id ≡ false
  unfolding has contains Storage.lookup
  key_absent idx k s id e = rw e refl

  value_absent :
      (idx : MetaIdx) (k s id : String) (vals : List (String × List String))
      → Storage.lookup idx k ≡ some vals
      → Storage.lookup vals s ≡ none
      → has idx k s id ≡ false
  unfolding has contains
  value_absent idx k s id vals e f = rw (e, f) refl

  both_present :
      (idx : MetaIdx) (k s id : String) (vals : List (String × List String)) (ids : List String)
      → Storage.lookup idx k ≡ some vals
      → Storage.lookup vals s ≡ some ids
      → has idx k s id ≡ contains ids id
  unfolding has
  both_present idx k s id vals ids e f = rw (e, f) refl

  -- The end of a round: an empty intersection ends the loop.
  after_round :
      (both : List String) (rest : Option (Option (List String))) (id : String)
      (before now next : Bool)
      → contains both id ≡ (if before then now else false)
      → found rest id ≡ (if contains both id then next else false)
      → found (elim both as (λ _. Option (Option (List String))) [ [] ↦ none | i ∷ is ↦ rest ]) id
        ≡ (if before then (if now then next else false) else false)
  unfolding contains
  after_round [] rest id before now next h k = ground arith
  after_round (i ∷ is) rest id before now next h k = k ∙ rw h (ground arith)

  -- An id is found exactly when it was there before and is in the index under each entry.
  found-filter_loop :
      (matched : Option (List String)) (m : Fields) (idx : MetaIdx) (id : String)
      → found (filter_loop sprint matched m idx) id
        ≡ (if member matched id then all_has m idx id else false)
  unfolding filter_loop
  found-filter_loop matched end idx id = ground arith
  found-filter_loop matched (field k v m) idx id =
      let s = meta_value_str sprint v in
      elim (Option-cases (Storage.lookup idx k)) [
        | inl e ↦ rw (e, filter_loop) (ground (arith, key_absent idx k s id e))
        | inr (vals, e) ↦ elim (Option-cases (Storage.lookup vals s)) [
          | inl f ↦ rw (e, f, filter_loop) (ground (arith, value_absent idx k s id vals e f))
          | inr (ids, f) ↦
              rw (e, f, filter_loop, both_present idx k s id vals ids e f)
                (after_round (intersect matched ids) _ id (member matched id) (contains ids id)
                  (all_has m idx id) (member-intersect matched ids id)
                  (found-filter_loop (some (intersect matched ids)) m idx id))
        ]
      ]

  loop_field :
      (matched : Option (List String)) (k : String) (v : Value) (m : Fields) (idx : MetaIdx)
      → ((ids : List String) → filter_loop sprint (some ids) m idx ≢ some none)
      → filter_loop sprint matched (field k v m) idx ≢ some none
  unfolding filter_loop
  loop_field matched k v m idx rest h = elim (Option-cases (Storage.lookup idx k)) [
    | inl e ↦ (let q = rw (e, filter_loop) at h in absurd (ground arith))
    | inr (vals, e) ↦ elim (Option-cases (Storage.lookup vals (meta_value_str sprint v))) [
      | inl f ↦ (let q = rw (e, f, filter_loop) at h in absurd (ground arith))
      | inr (ids, f) ↦ go (intersect matched ids) (rw (e, f, filter_loop) at h)
    ]
  ]
    where
      go :
          (both : List String)
          → (elim both as (λ _. Option (Option (List String))) [
            | [] ↦ none
            | i ∷ is ↦ filter_loop sprint (some both) m idx
          ])
            ≡ some none
          → ⊥
      go [] q = ground arith
      go (i ∷ is) q = rest (i ∷ is) q

  loop_some :
      (ids : List String) (m : Fields) (idx : MetaIdx)
      → filter_loop sprint (some ids) m idx ≢ some none
  unfolding filter_loop
  loop_some ids end idx h = ground arith
  loop_some ids (field k v m) idx h = loop_field (some ids) k v m idx (λ is. loop_some is m idx) h

  contains-matched_ids :
      (r : Option (Option (List String))) (id : String)
      → r ≢ some none
      → contains (matched_ids r) id ≡ found r id
  unfolding matched_ids contains
  contains-matched_ids none id h = refl
  contains-matched_ids (some none) id h = absurd (h refl)
  contains-matched_ids (some (some ids)) id h = refl

  contains-filter_ids :
      (k : String) (v : Value) (m : Fields) (idx : MetaIdx) (id : String)
      → contains (matched_ids (filter_ids_by_metadata sprint (field k v m) idx)) id
        ≡ all_has (field k v m) idx id
  unfolding filter_ids_by_metadata
  contains-filter_ids k v m idx id =
      contains-matched_ids (filter_loop sprint none (field k v m) idx) id
        (loop_field none k v m idx (λ is. loop_some is m idx))
      ∙ found-filter_loop none (field k v m) idx id

  all_has-matches_all :
      (r : Repo) (m : Fields) (t : Task)
      → IsExact sprint r
      → Storage.lookup r.storage t.id ≡ some t
      → all_has m r.meta_idx t.id ≡ matches_all m t.metadata
  all_has-matches_all r end t inv e = refl
  all_has-matches_all r (field k v m) t inv e =
      let s = meta_value_str sprint v in
      let held : holds sprint (Storage.lookup r.storage t.id) k s ≡ mem_meta sprint t.metadata k s =
        rw e refl in
      let here = inv.exact k s t.id ∙ held in
      rw here (ground (arith, all_has-matches_all r m t inv e))

-- On a repository whose index is exact, a filter with at least one entry finds exactly the stored
-- tasks that have each of its entries.
pub matching_iff :
    (sprint : Value → String) (r : Repo) (k : String) (v : Value) (m : Fields) (t : Task)
    → IsExact sprint r
    → Elem t (matching sprint (field k v m) r) ↔ (
        (Storage.lookup r.storage t.id ≡ some t)
        × (matches_all sprint (field k v m) t.metadata ≡ true))
unfolding matching
matching_iff sprint r k v m t inv =
    let ids = matched_ids (filter_ids_by_metadata sprint (field k v m) r.meta_idx) in
    let found = contains-filter_ids sprint k v m r.meta_idx t.id in
    let agree = all_has-matches_all sprint r (field k v m) t inv in
    (
      λ h.
          let (c, l) = Elem-collect r.storage ids t inv.keyed ((Elem-sort_by_id t _).0 h) in
          (l, sym (agree l) ∙ sym found ∙ c),
      λ (l, e).
          (Elem-sort_by_id t _).1
            (collect-Elem r.storage ids t (is_named t l) (found ∙ agree l ∙ e) l),
    )
  where
    is_named : (t : Task) → Storage.lookup r.storage t.id ≡ some t → t.id ≢ ""
    is_named t l e =
        let clash = sym inv.named ∙ ap (Storage.lookup r.storage) (sym e) ∙ l in
        absurd (ground arith)
