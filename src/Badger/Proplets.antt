-- ===== src/Badger/Proplets.antt =====
-- pkg/storage/badger/proplets.go: the proplets, with the listing by their last sign of life.
use Prim.Native.String.{◌++◌ as ◌++ᵗ◌}
use propeller.Prelude.{
  ℕ, String, Bool, true, false, not, Option, none, some, List, ltb, if◌then◌else◌, keep,
}
use propeller.Task.{Proplet, last?}
use propeller.Errors.{create_error, update_error, proplet_not_found}
use propeller.Outcome.{Result, ok, map_ok}
use propeller.Storage.{page}
use propeller.Badger
use propeller.Badger.{
  Engine, Codec, ◌>>=◌, save_record, read_record, list_records, count_with_prefix, list_with_prefix,
  decode_all,
}

abbrev pub key : String → String
key id = "proplet:" ++ᵗ id

abbrev max_badger_scan : ℕ
max_badger_scan = 100000

-- `len(p.AliveHistory) > 0 && !p.AliveHistory[len(p.AliveHistory)-1].Before(since)`.
seen_since : ℕ → Option ℕ → Bool
seen_since since none = false
seen_since since (some last) = not (ltb last since)

same : Bool → Bool → Bool
same true b = b
same false b = not b

unfoldable is_listed : Bool → ℕ → Proplet → Bool
unfolding seen_since same last?
is_listed alive since p = same (seen_since since (last? p.alive_history)) alive

module _ (db : Engine) (json : Codec Proplet) where
  unfoldable pub create : Proplet → db.State → Result (Unit {0}) × db.State
  create p s = save_record db json create_error (key p.id) p s

  unfoldable pub get : String → db.State → Result Proplet
  get id s = read_record db json proplet_not_found (key id) s

  unfoldable pub update : Proplet → db.State → Result (Unit {0}) × db.State
  update p s = save_record db json update_error (key p.id) p s

  unfoldable pub list : ℕ → ℕ → db.State → Result (List Proplet × ℕ)
  list offset limit s = list_records db json "proplet:" offset limit s

  unfoldable pub delete : String → db.State → Result (Unit {0}) × db.State
  delete id s = Badger.delete db (key id) s

  -- The proplets that `ListByAlive` keeps.
  unfoldable pub filtered : Bool → ℕ → db.State → Result (List Proplet)
  unfolding is_listed
  filtered alive since s = do
    total ← count_with_prefix db "proplet:" s
    let scan_limit = if ltb max_badger_scan total then max_badger_scan else total
    values ← list_with_prefix db "proplet:" 0 scan_limit s
    proplets ← decode_all json values
    ok (keep (is_listed alive since) proplets)

  -- `none` is the panic of a slice whose end is before its start.
  unfoldable pub list_by_alive : ℕ → ℕ → Bool → ℕ → db.State → Result (Option (List Proplet × ℕ))
  unfolding filtered
  list_by_alive offset limit alive since s =
      map_ok (λ proplets. page proplets offset limit) (filtered alive since s)

  unfoldable pub get_alive_history : String → ℕ → ℕ → db.State → Result (Option (List ℕ × ℕ))
  unfolding get
  get_alive_history id offset limit s =
      map_ok (λ (p : Proplet). page p.alive_history offset limit) (get id s)
