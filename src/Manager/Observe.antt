-- ===== src/Manager/Observe.antt =====
-- manager/middleware/logging.go, metrics.go and tracing.go: the service behind the middleware that
-- watches it. The state beside that of the service is what was written so far, the newest entry
-- first. Times are left out: the duration of a call in the log and in the histogram of latencies,
-- and the beginning and end of a span.
pub mod Logging
pub mod Counting
pub mod Tracing
pub mod Transparent
use Prim.Native.String.{◌++◌ as ◌++ᵗ◌}
use propeller.Prelude.{ℕ, String, List, [], ◌∷◌, ◌++◌}
use propeller.Errors.{Err}
use propeller.Outcome.{Result, ok, err}
use propeller.Manager.Interface.{Method}

-- An attribute of a log entry or of a span; a group's name stands before the attribute's, with a
-- dot.
pub data Attr : Type 0 where
  text : (key value : String) → Attr
  number : (key : String) → (value : ℕ) → Attr

pub data Entry : Type 0 where
  info : (message : String) → List Attr → Entry
  warn : (message : String) → List Attr → Err → Entry
  -- one more on the counter with this method
  counted : (method : String) → Entry
  -- one more latency in the histogram with this method
  observed : (method : String) → Entry
  -- a span over the call
  span : (name : String) → List Attr → Entry

-- The state beside the entries.
abbrev pub Seen : Type 0 → Type 0
Seen S = S × List Entry

-- A deferred function that writes one entry, which may read the result.
unfoldable pub deferred {ℓ} :
    {S : Type 0} {A : Type ℓ} → (Result A → Entry) → Method S A → Method (Seen S) A
deferred entry m (s, seen) = let (r, t) = m s in (r, (t, entry r ∷ seen))

-- The deferred function that counts a call and then observes its latency.
unfoldable pub tallied {ℓ} : {S : Type 0} {A : Type ℓ} → String → Method S A → Method (Seen S) A
tallied method m (s, seen) = let (r, t) = m s in (r, (t, observed method ∷ counted method ∷ seen))

-- The entry of the log: its attributes, and those added where the call succeeded.
unfoldable pub log_entry {ℓ} :
    {A : Type ℓ} → String → (Result A → List Attr) → (A → List Attr) → Result A → Entry
log_entry label attrs more (ok a) =
    info (label ++ᵗ " completed successfully") (attrs (ok a) ++ more a)
log_entry label attrs more (err e) = warn (label ++ᵗ " failed") (attrs (err e)) e
