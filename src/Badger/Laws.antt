-- ===== src/Badger/Laws.antt =====
-- pkg/storage/badger against a map: what is read back after each operation, on a database that does
-- what its documentation says.
use text.Mathlib.Text.{starts_with}
use propeller.Prelude.{
  ◌≡◌, ◌↔◌, refl, inl, inr, String, true, some, List, str_eq, if◌then◌else◌, Elem,
}
use propeller.Errors.{Err, key_not_found}
use propeller.Outcome.{Result, ok, err, Result-cases}
use propeller.Badger.{Engine, Codec, wrap_state, update_txn, set, delete}

-- What the documentation says of a transaction's own writes, and of an iterator over a prefix.
pub record IsLawful (db : Engine) : Type 0 where
  pub find-write :
      (s t : db.State) (k v j : String)
      → db.write s k v ≡ ok t
      → db.find t j ≡ (if str_eq k j then ok (ok v) else db.find s j)
  pub find-erase :
      (s t : db.State) (k j : String)
      → db.erase s k ≡ ok t
      → db.find t j ≡ (if str_eq k j then err key_not_found else db.find s j)
  pub scan_iff :
      (s : db.State) (prefix : String) (items : List (String × Result String))
      → db.scan s prefix ≡ ok items
      → (k : String) (r : Result String)
      → Elem (k, r) items ↔ ((starts_with k prefix ≡ true) × (db.find s k ≡ ok r))

-- The record comes back from the JSON that is made of it, if any is.
abbrev pub ComesBack : {R : Type 0} → Codec R → R → Type 0
ComesBack json r = (bytes : String) → json.marshal r ≡ some bytes → json.unmarshal bytes ≡ some r

module _ (db : Engine) where
  -- A call fails and leaves the database as it was, or succeeds and leaves one as described.
  abbrev pub Outcome : (db.State → Type 0) → db.State → Result (Unit {0}) × db.State → Type 0
  Outcome P s (ok _, t) = P t
  Outcome P s (err _, t) = t ≡ s

  pub update_txn-Outcome :
      (P : db.State → Type 0) (fn : db.State → Result db.State) (s : db.State)
      → ((t : db.State) → fn s ≡ ok t → P t)
      → Outcome P s (update_txn db fn s)
  unfolding update_txn
  update_txn-Outcome P fn s h = elim (Result-cases (fn s)) [
    | inr (e, q) ↦ rw (q, update_txn) refl
    | inl (t, q) ↦ elim (Result-cases (db.commit s t)) [
      | inl (u, c) ↦ rw (q, c, update_txn) (h t q)
      | inr (e, c) ↦ rw (q, c, update_txn) refl
    ]
  ]

  pub wrap_state-Outcome :
      (P : db.State → Type 0) (sentinel : Err → Err) (s : db.State)
      (out : Result (Unit {0}) × db.State)
      → Outcome P s out
      → Outcome P s (wrap_state db sentinel out)
  wrap_state-Outcome P sentinel s (ok _, t) h = h
  wrap_state-Outcome P sentinel s (err e, t) h = h

  -- What is found at every key once a key is set, and once it is deleted.
  abbrev pub Sets : String → String → db.State → db.State → Type 0
  Sets k v s t = (j : String) → db.find t j ≡ (if str_eq k j then ok (ok v) else db.find s j)

  abbrev pub Erases : String → db.State → db.State → Type 0
  Erases k s t =
      (j : String) → db.find t j ≡ (if str_eq k j then err key_not_found else db.find s j)

module _ (db : Engine) (laws : IsLawful db) where
  pub set-Outcome : (k v : String) (s : db.State) → Outcome db (Sets db k v s) s (set db k v s)
  unfolding set
  set-Outcome k v s =
      wrap_state-Outcome db (Sets db k v s) _ s (update_txn db (λ txn. db.write txn k v) s) (
        update_txn-Outcome db (Sets db k v s) (λ txn. db.write txn k v) s
          λ t q j. laws.find-write s t k v j q)

  pub delete-Outcome : (k : String) (s : db.State) → Outcome db (Erases db k s) s (delete db k s)
  unfolding delete
  delete-Outcome k s =
      wrap_state-Outcome db (Erases db k s) _ s (update_txn db (λ txn. db.erase txn k) s) (
        update_txn-Outcome db (Erases db k s) (λ txn. db.erase txn k) s
          λ t q j. laws.find-erase s t k j q)
