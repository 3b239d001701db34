-- ===== src/Manager/Frame.antt =====
-- What an action leaves alone: a part of the state, given by the function that reads it.
use propeller.Prelude.{◌≡◌, ◌∙◌, Bool, true, false, if◌then◌else◌}
use propeller.Outcome.{Result, ok, err}
use propeller.Manager.State.{
  Env, Call, Svc, Action, and_then, ◌>>=◌, asked, external, now, new_uuid,
}

module _ {X : Type 0} (part : Svc → X) where
  abbrev pub Keeps : {A : Type 0} → Action A → Type 0
  Keeps m = (s : Svc) → part (m s).1 ≡ part s

  pub Keeps-bind :
      {A B : Type 0} (m : Action A) (f : A → Action B)
      → Keeps m
      → ((a : A) → Keeps (f a))
      → Keeps (m >>= f)
  Keeps-bind {A} {B} m f h k s = go (m s) (h s)
    where
      go : (r : Result A × Svc) → part r.1 ≡ part s → part (and_then r f).1 ≡ part s
      go (ok a, s') e = k a s' ∙ e
      go (err x, s') e = e

  pub Keeps-if :
      {A : Type 0} (b : Bool) (m n : Action A) → Keeps m → Keeps n → Keeps (if b then m else n)
  Keeps-if true m n h k = h
  Keeps-if false m n h k = k

  -- The part does not count the calls.
  module _ (env : Env) (quiet : (s : Svc) → part (asked s) ≡ part s) where
    external-Keeps : (c : Call) → Keeps (external env c)
    unfolding external
    external-Keeps c s = quiet s

    pub now-Keeps : Keeps (now env)
    unfolding now
    now-Keeps s = quiet s

    pub new_uuid-Keeps : Keeps (new_uuid env)
    unfolding new_uuid
    new_uuid-Keeps s = quiet s
