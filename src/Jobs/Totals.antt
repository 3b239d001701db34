-- ===== src/Jobs/Totals.antt =====
-- What the state of a job says about its tasks (ComputeJobState of manager/service.go).
use propeller.Prelude.{
  ◌≡◌, ◌⊎◌, refl, inl, inr, Bool, true, false, List, [], ◌∷◌, All, arith, Bool-cases, ◌&&◌, ◌||◌,
  sym, ap, ◌∙◌,
}
use propeller.Task.{
  State, pending, scheduled, running, completed, failed, skipped, interrupted, Task,
}
use propeller.Jobs.{Flags, note_state, note_states, judge, no_flags, compute_job_state}

abbrev Broken : State → Type 0
Broken s = (s ≡ failed) ⊎ (s ≡ interrupted)

abbrev Busy : State → Type 0
Busy s = (s ≡ running) ⊎ (s ≡ scheduled)

abbrev Done : State → Type 0
Done s = (s ≡ completed) ⊎ (s ≡ skipped)

-- Some task is in a state of a kind.
abbrev Some : (State → Type 0) → List Task → Type 0
Some P [] = ⊥
Some P (t ∷ ts) = P t.state ⊎ Some P ts

-- What a job state says of the tasks.
abbrev pub Means : List Task → State → Type 0
Means ts failed = Some Broken ts
Means ts running = (¬ Some Broken ts) × Some Busy ts
Means ts completed = All (λ t. Done t.state) ts
Means ts pending = (¬ Some Broken ts) × (¬ Some Busy ts) × Some (λ s. s ≡ pending) ts
Means ts _ = ⊥

abbrev broken? : State → Bool
broken? failed = true
broken? interrupted = true
broken? _ = false

abbrev done? : State → Bool
done? completed = true
done? skipped = true
done? _ = false

abbrev any : (State → Bool) → List Task → Bool
any p [] = false
any p (t ∷ ts) = p t.state || any p ts

abbrev every : (State → Bool) → List Task → Bool
every p [] = true
every p (t ∷ ts) = p t.state && every p ts

abbrev running? : State → Bool
running? running = true
running? _ = false

abbrev scheduled? : State → Bool
scheduled? scheduled = true
scheduled? _ = false

abbrev skipped? : State → Bool
skipped? skipped = true
skipped? _ = false

-- What the flags hold after the loop.
record Noted (f : Flags) (ts : List Task) (g : Flags) : Type 0 where
  failures : g.has_failed ≡ (f.has_failed || any broken? ts)
  runs : g.has_running ≡ (f.has_running || any running? ts)
  schedules : g.has_scheduled ≡ (f.has_scheduled || any scheduled? ts)
  completions : g.all_completed ≡ (f.all_completed && every done? ts)
  skips : g.all_skipped ≡ (f.all_skipped && every skipped? ts)

note_state-Noted : (t : Task) (f : Flags) → Noted f (t ∷ []) (note_state t.state f)
unfolding note_state
note_state-Noted t f = ground arith

Noted-cons :
    (f g h : Flags) (t : Task) (ts : List Task)
    → Noted f (t ∷ []) g
    → Noted g ts h
    → Noted f (t ∷ ts) h
Noted-cons f g h t ts a b = record {
  failures = ground arith;
  runs = ground arith;
  schedules = ground arith;
  completions = ground arith;
  skips = ground arith;
}

note_states-Noted : (ts : List Task) (f : Flags) → Noted f ts (note_states ts f)
unfolding note_states
note_states-Noted [] f = ground arith
note_states-Noted (t ∷ ts) f =
    Noted-cons f (note_state t.state f) _ t ts (note_state-Noted t f)
      (note_states-Noted ts (note_state t.state f))

module _ (p : State → Bool) (P : State → Type 0) (sound : (s : State) → p s ≡ true → P s) where
  any-Some : (ts : List Task) → any p ts ≡ true → Some P ts
  any-Some [] h = cc
  any-Some (t ∷ ts) h = elim (Bool-cases (p t.state)) [
    | inl e ↦ inl (sound t.state e)
    | inr n ↦ inr (any-Some ts (ground arith))
  ]

  every-All : (ts : List Task) → every p ts ≡ true → All (λ t. P t.state) ts
  every-All [] h = tt
  every-All (t ∷ ts) h = (sound t.state (ground arith), every-All ts (ground arith))

module _ (p : State → Bool) (P : State → Type 0) (complete : (s : State) → P s → p s ≡ true) where
  Some-any : (ts : List Task) → Some P ts → any p ts ≡ true
  Some-any [] h = absurd h
  Some-any (t ∷ ts) (inl h) = rw (complete t.state h)
  Some-any (t ∷ ts) (inr h) = let r = Some-any ts h in ground arith

  not-Some : (ts : List Task) → any p ts ≡ false → ¬ Some P ts
  not-Some ts h s = (let e = Some-any ts s in cc)

Broken-sound : (s : State) → broken? s ≡ true → Broken s
Broken-sound s h = ground arith

Broken-complete : (s : State) → Broken s → broken? s ≡ true
Broken-complete s h = ground arith

Done-sound : (s : State) → done? s ≡ true → Done s
Done-sound s h = ground arith

Done-complete : (s : State) → Done s → done? s ≡ true
Done-complete s h = ground arith

abbrev busy? : State → Bool
busy? s = running? s || scheduled? s

Busy-sound : (s : State) → busy? s ≡ true → Busy s
Busy-sound s h = ground arith

Busy-complete : (s : State) → Busy s → busy? s ≡ true
Busy-complete s h = ground arith

any-busy : (ts : List Task) → any busy? ts ≡ (any running? ts || any scheduled? ts)
any-busy [] = refl
any-busy (t ∷ ts) = let r = any-busy ts in ground arith

skipped-done : (ts : List Task) → every skipped? ts ≡ true → every done? ts ≡ true
skipped-done [] h = refl
skipped-done (t ∷ ts) h = let r = skipped-done ts in ground arith

-- With nothing broken and nothing busy, what is not done is pending.
Some-pending :
    (ts : List Task)
    → any broken? ts ≡ false
    → any busy? ts ≡ false
    → every done? ts ≡ false
    → Some (λ s. s ≡ pending) ts
Some-pending [] b w d = cc
Some-pending (t ∷ ts) b w d = elim (Bool-cases (done? t.state)) [
  | inl e ↦ inr (Some-pending ts (ground arith) (ground arith) (ground arith))
  | inr n ↦ inl (ground arith)
]

judge-Means :
    (us : List Task) (f r s c k : Bool)
    → Noted no_flags us (record {
      has_failed = f;
      has_running = r;
      has_scheduled = s;
      all_completed = c;
      all_skipped = k;
    })
    → Means us (
        judge (record {
          has_failed = f;
          has_running = r;
          has_scheduled = s;
          all_completed = c;
          all_skipped = k;
        }))
unfolding judge
judge-Means us true r s c k n = any-Some broken? Broken Broken-sound us (sym n.failures)
judge-Means us false true s c k n = (
  not-Some broken? Broken Broken-complete us (sym n.failures),
  any-Some busy? Busy Busy-sound us (any-busy us ∙ ap (λ b. b || any scheduled? us) (sym n.runs)),
)
judge-Means us false false true c k n = (
  not-Some broken? Broken Broken-complete us (sym n.failures),
  any-Some busy? Busy Busy-sound us
      (let e = any-busy us in let x = n.schedules in let y = n.runs in ground arith),
)
judge-Means us false false false true k n = every-All done? Done Done-sound us (sym n.completions)
judge-Means us false false false false true n =
    every-All done? Done Done-sound us (skipped-done us (sym n.skips))
judge-Means us false false false false false n = (
  not-Some broken? Broken Broken-complete us (sym n.failures),
  not-Some busy? Busy Busy-complete us
      (let e = any-busy us in let x = n.schedules in let y = n.runs in ground arith),
  Some-pending us (sym n.failures)
      (let e = any-busy us in let x = n.schedules in let y = n.runs in ground arith)
      (sym n.completions),
)

-- The state of a job with tasks tells: failed, that a task failed or was interrupted; running, that
-- none was, and one is running or scheduled; completed, that all have completed or were skipped;
-- pending, that none of the first two holds of any, and one is pending. It is never another state.
pub compute_job_state-Means :
    (t : Task) (ts : List Task) → Means (t ∷ ts) (compute_job_state (t ∷ ts))
unfolding compute_job_state
compute_job_state-Means t ts = judge-Means (t ∷ ts) _ _ _ _ _ (note_states-Noted (t ∷ ts) no_flags)
