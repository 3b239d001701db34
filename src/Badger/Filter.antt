-- ===== src/Badger/Filter.antt =====
-- `filterIDsByMetadata` of pkg/storage/badger/tasks.go against the keys of the index.
use Prim.Native.String.{◌++◌ as ◌++ᵗ◌}
use propeller.Prelude.{
  ◌≡◌, ◌↔◌, refl, sym, ◌∙◌, ap, subst, String, Option, none, some, List, [], ◌∷◌, map, Elem, inl,
  inr, contains, contains→Elem, Elem→contains, keep-Elem, Elem-keep, Elem-map, arith,
}
use text.Mathlib.TextEquality.{starts_with_iff}
use text.Mathlib.TextPositions.{slice-append_right, len-append, starts_with-append}
use propeller.Value.{Value, Fields, end, field}
use propeller.Task.{Task}
use propeller.Outcome.{Result, ok, ok_inj, Result-cases}
use propeller.Repository.{meta_value_str, intersect}
use propeller.Badger.{Engine, Codec}
use propeller.Badger.Laws.{IsLawful}
use propeller.Badger.Tasks.{
  meta_prefix, meta_idx_key, after, or_none, ids_under, filter_loop, filter_ids_by_metadata,
}

after-append : (p x : String) → after p (p ++ᵗ x) ≡ x
after-append p x = rw (len-append p x) (slice-append_right p x)

-- An element of an image comes from one before it.
Elem-map_inv :
    {A B : Type 0} (f : A → B) (b : B) (xs : List A)
    → Elem b (map f xs)
    → (a : A) × Elem a xs × (f a ≡ b)
Elem-map_inv f b [] h = absurd h
Elem-map_inv f b (x ∷ xs) (inl e) = (x, inl refl, e)
Elem-map_inv f b (x ∷ xs) (inr h) = let (a, m, e) = Elem-map_inv f b xs h in (a, inr m, e)

Elem-intersect :
    (old ids : List String) (id : String)
    → Elem id (intersect (some old) ids) ↔ (Elem id old × Elem id ids)
unfolding intersect
Elem-intersect old ids id = (
  λ h. (let (m, c) = Elem-keep (λ i. contains ids i) id old h in (m, contains→Elem ids id c)),
  λ (m, n). keep-Elem (λ i. contains ids i) id old m (Elem→contains ids id n),
)

module _ (db : Engine) (laws : IsLawful db) (json : Codec Task) (sprint : Value → String)
    (s : db.State) where
  -- Some record stands under a key.
  abbrev Stands : String → Type 0
  Stands k = (r : Result String) × (db.find s k ≡ ok r)

  -- Each entry of a filter is in the index under an id.
  abbrev pub HasEntries : Fields → String → Type 0
  HasEntries end id = Unit
  HasEntries (field k v m) id =
      Stands (meta_idx_key k (meta_value_str sprint v) id) × HasEntries m id

  Elem-ids_under :
      (p : String) (items : List (String × Result String)) (id : String)
      → db.scan s p ≡ ok items
      → Elem id (ids_under db json sprint p items) ↔ Stands (p ++ᵗ id)
  unfolding ids_under
  Elem-ids_under p items id e = (
    λ h.
        let ((k, r), m, q) =
          Elem-map_inv (λ (item : String × Result String). after p item.0) id items h in
        let (starts, found) = (laws.scan_iff s p items e k r).0 m in
        let (rest, whole) = (starts_with_iff k p).0 starts in
        let same : rest ≡ id = sym (after-append p rest) ∙ ap (after p) whole ∙ q in
        (r, subst (λ x. db.find s x ≡ ok r) (sym whole ∙ ap (λ x. p ++ᵗ x) same) found),
    λ (r, found).
        let m = (laws.scan_iff s p items e (p ++ᵗ id) r).1 (starts_with-append p id, found) in
        subst (λ x. Elem x (map (λ (item : String × Result String). after p item.0) items))
          (after-append p id)
          (Elem-map (λ (item : String × Result String). after p item.0) (p ++ᵗ id, r) items m),
  )

  -- The ids that are left before the rest of the filter is looked at.
  abbrev Left : Option (List String) → String → Type 0
  Left none id = Unit
  Left (some ids) id = Elem id ids

  abbrev Finds : Option (List String) → Fields → Option (List String) → Type 0
  Finds matched m r = (id : String) → Elem id (or_none r) ↔ (Left matched id × HasEntries m id)

  Left-intersect :
      (matched : Option (List String)) (ids : List String) (id : String)
      → Elem id (intersect matched ids) ↔ (Left matched id × Elem id ids)
  unfolding intersect
  Left-intersect none ids id = (λ h. (tt, h), λ (_, h). h)
  Left-intersect (some old) ids id = Elem-intersect old ids id

  -- The end of a round.
  after_round :
      (both : List String) (matched : Option (List String)) (k : String) (v : Value) (m : Fields)
      (r : Option (List String))
      → ((id : String)
          → Elem id both ↔ (Left matched id × Stands (meta_idx_key k (meta_value_str sprint v) id)))
      → (elim both as (λ _. Result (Option (List String))) [
        | [] ↦ ok (some [])
        | i ∷ is ↦ filter_loop db json sprint (some (i ∷ is)) m s
      ])
        ≡ ok r
      → (filter_loop db json sprint (some both) m s ≡ ok r → Finds (some both) m r)
      → Finds matched (field k v m) r
  unfolding or_none
  after_round [] matched k v m r here h rest id =
      (λ mem. absurd (none_in r h mem), λ (l, (n, _)). absurd ((here id).1 (l, n)))
    where
      none_in : (r : Option (List String)) → ok (some []) ≡ ok r → Elem id (or_none r) → ⊥
      none_in r q mem = subst (λ o. Elem id (or_none o)) (sym (ok_inj q)) mem
  after_round (i ∷ is) matched k v m r here h rest id = (
    λ mem. let (b, n) = (rest h id).0 mem in let (l, e) = (here id).0 b in (l, (e, n)),
    λ (l, (e, n)). (rest h id).1 ((here id).1 (l, e), n),
  )

  loop-Finds :
      (matched : Option (List String)) (k : String) (v : Value) (m : Fields)
      (r : Option (List String))
      → ((both : List String)
          → filter_loop db json sprint (some both) m s ≡ ok r
          → Finds (some both) m r)
      → filter_loop db json sprint matched (field k v m) s ≡ ok r
      → Finds matched (field k v m) r
  unfolding filter_loop
  loop-Finds matched k v m r rest h =
      let p = meta_prefix k (meta_value_str sprint v) in
      elim (Result-cases (db.scan s p)) [
        | inr (e, q) ↦ (let g = rw (filter_loop, q) at h in absurd (ground arith))
        | inl (items, q) ↦
            let ids = ids_under db json sprint p items in
            after_round (intersect matched ids) matched k v m r
              (λ id.
                let (a, b) = Left-intersect matched ids id in
                let (c, d) = Elem-ids_under p items id q in
                (λ x. (let (l, e) = a x in (l, c e)), λ (l, e). b (l, d e)))
              (rw (filter_loop, q) at h) (rest (intersect matched ids))
      ]

  some-Finds :
      (both : List String) (m : Fields) (r : Option (List String))
      → filter_loop db json sprint (some both) m s ≡ ok r
      → Finds (some both) m r
  unfolding filter_loop or_none
  some-Finds both end r h id =
      let same : some both ≡ r = ok_inj h in
      subst (λ o. Elem id (or_none o) ↔ (Elem id both × Unit)) same (λ x. (x, tt), λ (x, _). x)
  some-Finds both (field k v m) r h id = loop-Finds (some both) k v m r (λ b. some-Finds b m r) h id

  -- On a database that does what it documents, a filter with at least one entry finds exactly the
  -- ids under which the index has a key for each of the entries, where the search succeeds.
  pub filter_ids_iff :
      (k : String) (v : Value) (m : Fields) (r : Option (List String)) (id : String)
      → filter_ids_by_metadata db json sprint (field k v m) s ≡ ok r
      → Elem id (or_none r) ↔ HasEntries (field k v m) id
  unfolding filter_ids_by_metadata
  filter_ids_iff k v m r id h =
      let (a, b) = loop-Finds none k v m r (λ both. some-Finds both m r) h id in
      (λ x. (a x).1, λ y. b (tt, y))
