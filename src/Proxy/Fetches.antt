-- ===== src/Proxy/Fetches.antt =====
-- StreamHTTP of proxy/service.go: the fetches that run at once. A step is a request that the loop
-- takes from the channel, or the end of a goroutine that runs, in any order.
use propeller.Prelude.{
  ◌≡◌, ◌≤◌, refl, sym, subst, ◌∙◌, ap, suc, String, true, false, List, [], ◌∷◌, length, Elem,
  Distinct, contains, contains→Elem, Elem→contains, str_eq, eq_iff, leb, Bool-cases, inl, inr,
  arith, subst,
}
use propeller.Proxy.{
  Service, new_service, max_concurrent_fetches, request, finish, delete, drop_first,
}

pub data Step : Service → Service → Type 0 where
  requested : {s : Service} (name : String) → Step s (request name s)
  finished : {s : Service} (name : String) → contains s.running name ≡ true → Step s (finish name s)

pub data Reach : Service → Type 0 where
  here : Reach new_service
  next : {s t : Service} → Reach s → Step s t → Reach t

-- The service's count and its set are those of the goroutines that run, one for each image, within
-- the bound.
pub record IsFaithful (s : Service) : Type 0 where
  pub same : s.fetching ≡ s.running
  pub counts : s.active_fetches ≡ length s.running
  pub bound : s.active_fetches ≤ max_concurrent_fetches
  pub apart : Distinct s.running

contains-false→¬Elem : (xs : List String) (a : String) → contains xs a ≡ false → ¬ Elem a xs
contains-false→¬Elem xs a h m = let k = Elem→contains xs a m in absurd (ground arith)

request-IsFaithful : (name : String) (s : Service) → IsFaithful s → IsFaithful (request name s)
unfolding request
request-IsFaithful name s inv = elim (Bool-cases (leb max_concurrent_fetches s.active_fetches)) [
  | inl full ↦ rw (request, full) inv
  | inr room ↦ elim (Bool-cases (contains s.fetching name)) [
    | inl twice ↦ rw (request, room, twice) inv
    | inr fresh ↦
        rw (request, room, fresh)
          (record {
            same = ap (λ xs. name ∷ xs) inv.same;
            counts = ap suc inv.counts;
            bound = ground arith;
            apart = (
              contains-false→¬Elem s.running name
                  (ap (λ xs. contains xs name) (sym inv.same) ∙ fresh),
              inv.apart,
            );
          })
  ]
]

-- Taking an element out of a list without repetition takes out one element, and no other.
delete-absent : (name : String) (xs : List String) → ¬ Elem name xs → delete name xs ≡ xs
unfolding delete
delete-absent name [] h = refl
delete-absent name (x ∷ xs) h = elim (Bool-cases (str_eq x name)) [
  | inl e ↦ absurd (h (inl ((eq_iff x name).0 e)))
  | inr n ↦ rw n (ap (λ ys. x ∷ ys) (delete-absent name xs (λ m. h (inr m))))
]

delete-drop_first :
    (name : String) (xs : List String) → Distinct xs → delete name xs ≡ drop_first name xs
unfolding delete drop_first
delete-drop_first name [] d = refl
delete-drop_first name (x ∷ xs) d = elim (Bool-cases (str_eq x name)) [
  | inl e ↦ rw e (delete-absent name xs (subst (λ y. ¬ Elem y xs) ((eq_iff x name).0 e) d.0))
  | inr n ↦ rw n (ap (λ ys. x ∷ ys) (delete-drop_first name xs d.1))
]

length-drop_first :
    (name : String) (xs : List String)
    → Elem name xs
    → suc (length (drop_first name xs)) ≡ length xs
unfolding drop_first
length-drop_first name [] m = absurd m
length-drop_first name (x ∷ xs) m = elim (Bool-cases (str_eq x name)) [
  | inl e ↦ rw e refl
  | inr n ↦ rw n (ap suc (length-drop_first name xs (rest n m)))
]
  where
    rest : str_eq x name ≡ false → Elem name (x ∷ xs) → Elem name xs
    rest n (inl e) = (let q = (eq_iff x name).1 e in absurd (ground arith))
    rest n (inr m) = m

Elem-drop_first : (name y : String) (xs : List String) → Elem y (drop_first name xs) → Elem y xs
unfolding drop_first
Elem-drop_first name y [] m = absurd m
Elem-drop_first name y (x ∷ xs) m = elim (Bool-cases (str_eq x name)) [
  | inl e ↦ inr (rw e at m)
  | inr n ↦ past (Elem-drop_first name y xs) (rw n at m)
]
  where
    past :
        (Elem y (drop_first name xs) → Elem y xs)
        → Elem y (x ∷ drop_first name xs)
        → Elem y (x ∷ xs)
    past rest (inl e) = inl e
    past rest (inr m) = inr (rest m)

Distinct-drop_first :
    (name : String) (xs : List String) → Distinct xs → Distinct (drop_first name xs)
unfolding drop_first
Distinct-drop_first name [] d = tt
Distinct-drop_first name (x ∷ xs) d = elim (Bool-cases (str_eq x name)) [
  | inl e ↦ rw e d.1
  | inr n ↦ rw n (λ m. d.0 (Elem-drop_first name x xs m), Distinct-drop_first name xs d.1)
]

finish-IsFaithful :
    (name : String) (s : Service)
    → contains s.running name ≡ true
    → IsFaithful s
    → IsFaithful (finish name s)
unfolding finish
finish-IsFaithful name s runs inv =
    let fewer = length-drop_first name s.running (contains→Elem s.running name runs) in
    record {
      same = ap (delete name) inv.same ∙ delete-drop_first name s.running inv.apart;
      counts = omega (arith, fewer, inv.counts);
      bound = omega (arith, inv.bound);
      apart = Distinct-drop_first name s.running inv.apart;
    }

-- Whatever requests come in and in whatever order the fetches end: at most 50 fetches run at once,
-- no two of them for one image, and the service's count and its set of images are always those of the
-- fetches that run.
pub Reach-IsFaithful : {s : Service} → Reach s → IsFaithful s
Reach-IsFaithful here = record { same = refl; counts = refl; bound = omega arith; apart = tt }
Reach-IsFaithful (next r (requested {s} name)) = request-IsFaithful name s (Reach-IsFaithful r)
Reach-IsFaithful (next r (finished {s} name runs)) =
    finish-IsFaithful name s runs (Reach-IsFaithful r)
