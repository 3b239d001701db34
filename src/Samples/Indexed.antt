-- ===== src/Samples/Indexed.antt =====
-- The task repository at samples: two tasks with metadata, of which one is deleted again.
use propeller.Prelude.{String, ◌≡◌, ◌↔◌, true, some, List, [], ◌∷◌, Elem}
use propeller.Value.{Value, text, field, end}
use propeller.Task.{Task}
use propeller.Storage
use propeller.Repository.{new_repo, matching}
use propeller.Repository.Exact.{IsExact, Op, creation, change, deletion, run, run-IsExact}
use propeller.Repository.Filter.{matches_all, matching_iff}
use propeller.Samples.{first_task, second_task}

abbrev sprint : Value → String
sprint v = "?"

abbrev blue : Task
blue = record first_task { metadata = field "colour" (text "blue") end }

abbrev red : Task
red = record second_task { metadata = field "colour" (text "red") end }

-- The change gives the second task the colour of the first, which is then deleted.
abbrev history : List Op
history =
    creation blue
    ∷ creation red
    ∷ change (record red { metadata = blue.metadata })
    ∷ deletion "a"
    ∷ []

run-IsExact_example : IsExact sprint (run sprint history new_repo)
run-IsExact_example = run-IsExact sprint history

matching_example :
    Elem blue (matching sprint (field "colour" (text "blue") end) (run sprint history new_repo)) ↔ (
      (Storage.lookup (run sprint history new_repo).storage "a" ≡ some blue)
      × (matches_all sprint (field "colour" (text "blue") end) blue.metadata ≡ true))
matching_example =
    matching_iff sprint (run sprint history new_repo) "colour" (text "blue") end blue
      (run-IsExact sprint history)
