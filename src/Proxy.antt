-- ===== src/Proxy.antt =====
-- proxy: the service that fetches the image of a task from a registry and sends it to the proplets in
-- chunks. createChunks and findLargestLayer of http.go, and the two loops of service.go: StreamHTTP, which
-- starts a goroutine for each image, at most `max_concurrent_fetches` at once, and StreamMQTT. The
-- registry and the broker are libraries. The chunk size is an `int` of 64 bits, with its wrap-around.
pub mod Chunks
pub mod Fetches
use propeller.Prelude.{
  ℕ, zero, suc, ◌+◌, ◌-◌, ◌*◌, ◌/◌, ◌%◌, ◌^◌, ◌&&◌, min, String, Bool, true, false, Option, none,
  some, List, [], ◌∷◌, length, take, drop, ltb, leb, ◌==◌, str_eq, contains, if◌then◌else◌, keep,
  not,
}
use propeller.Storage.{put, remove, lookup}

pub record ChunkPayload : Type 0 where
  pub app_name : String
  pub chunk_idx : ℕ
  pub total_chunks : ℕ
  pub content : List ℕ

-- An `int` is its pattern of 64 bits; the patterns from 2 ^ 63 on are the negative numbers.
unfoldable pub wrap : ℕ → ℕ
wrap n = n % 2 ^ 64

unfoldable pub is_negative : ℕ → Bool
is_negative a = leb (2 ^ 63) a

unfoldable pub magnitude : ℕ → ℕ
unfolding is_negative
magnitude a = if is_negative a then 2 ^ 64 - a else a

-- `a / b`, rounded towards 0; `none` is the panic of a division by zero.
unfoldable pub quotient : ℕ → ℕ → Option ℕ
unfolding wrap is_negative magnitude
quotient a b =
    if b == 0
    then none
    else if same_sign (is_negative a) (is_negative b)
    then some (wrap (magnitude a / magnitude b))
    else some (wrap (2 ^ 64 - magnitude a / magnitude b))
  where
    same_sign : Bool → Bool → Bool
    same_sign true b = b
    same_sign false b = not b

-- `min(a, b)` where `b` is not negative.
unfoldable pub min_int : ℕ → ℕ → ℕ
unfolding is_negative
min_int a b = if is_negative a then a else min a b

-- The rest of the loop of `createChunks`, from round `i` on. `none` is the panic of `data[start:end]`
-- where the bounds are negative or not in order.
unfoldable pub chunks_from : List ℕ → String → ℕ → ℕ → ℕ → ℕ → Option (List ChunkPayload)
unfolding wrap min_int
chunks_from content path size total i zero = some []
chunks_from content path size total i (suc rounds) =
    let start = wrap (i * size) in
    let last = min_int (wrap (start + size)) (length content) in
    let rest = chunks_from content path size total (suc i) rounds in
    if leb start last && leb last (length content)
    then elim rest [
      | none ↦ none
      | some chunks ↦ some (
          record {
            app_name = path;
            chunk_idx = i;
            total_chunks = total;
            content = take (last - start) (drop start content);
          }
          ∷ chunks)
    ]
    else none

-- The chunk size is any `int`, and so is the number of chunks; `make` panics where that is negative.
unfoldable pub create_chunks : List ℕ → String → ℕ → Option (List ChunkPayload)
unfolding chunks_from quotient wrap is_negative
create_chunks content path size =
    elim (quotient (wrap (length content + size + (2 ^ 64 - 1))) size) [
      | none ↦ none
      | some total ↦ if is_negative total then none else chunks_from content path size total 0 total
    ]

-- A layer of an image, with its size in bytes.
record Layer : Type 0 where
  pub digest : String
  pub size : ℕ

-- The loop over the layers; the zero value has no digest and size 0.
unfoldable largest_from : Layer → ℕ → List Layer → Layer
largest_from largest max_size [] = largest
largest_from largest max_size (layer ∷ layers) = elim (ltb max_size layer.size) [
  | true ↦ largest_from layer layer.size layers
  | false ↦ largest_from largest max_size layers
]

unfoldable find_largest_layer : List Layer → Option Layer
unfolding largest_from
find_largest_layer layers =
    let largest = largest_from (record { digest = ""; size = 0 }) 0 layers in
    if largest.size == 0 then none else some largest

abbrev pub max_concurrent_fetches : ℕ
max_concurrent_fetches = 50

-- The service's two fields about fetches, and the images of the goroutines that run.
pub record Service : Type 0 where
  pub fetching : List String
  pub active_fetches : ℕ
  pub running : List String

abbrev pub new_service : Service
new_service = record { fetching = []; active_fetches = 0; running = [] }

-- A round of `StreamHTTP` for an image.
unfoldable pub request : String → Service → Service
unfolding contains
request name s =
    if leb max_concurrent_fetches s.active_fetches
    then s
    else if contains s.fetching name
    then s
    else record {
      fetching = name ∷ s.fetching;
      active_fetches = suc s.active_fetches;
      running = name ∷ s.running;
    }

-- `delete(s.fetching, name)`.
unfoldable pub delete : String → List String → List String
delete name xs = keep (λ x. not (str_eq x name)) xs

-- One goroutine less.
unfoldable pub drop_first : String → List String → List String
drop_first name [] = []
drop_first name (x ∷ xs) = let rest = drop_first name xs in if str_eq x name then xs else x ∷ rest

-- The deferred function of the goroutine of an image, which ends.
unfoldable pub finish : String → Service → Service
unfolding delete drop_first
finish name s = record {
  fetching = delete name s.fetching;
  active_fetches = s.active_fetches - 1;
  running = drop_first name s.running;
}

-- A round of `StreamMQTT` for a chunk, published or not: the counts of the published chunks of each
-- image.
unfoldable count_chunk : Bool → ChunkPayload → List (String × ℕ) → List (String × ℕ)
count_chunk false chunk counts = counts
count_chunk true chunk counts =
    let n = suc (elim (lookup counts chunk.app_name) [ none ↦ 0 | some k ↦ k ]) in
    if n == chunk.total_chunks
    then remove chunk.app_name (put chunk.app_name n counts)
    else put chunk.app_name n counts
