-- ===== src/Proxy/Chunks.antt =====
-- createChunks of proxy/http.go: the chunks make up the image.
use native.Mathlib.Nat.{
  suc-mul, zero-mul, mod-add-div', mod-lt, mod-eq_of_lt, add-mod_right, div-le_self,
  mul-le-mul_right,
}
use propeller.Prelude.{
  ◌≡◌, ◌≤◌, ◌<◌, refl, sym, ◌∙◌, ap, ℕ, zero, suc, ◌+◌, ◌-◌, ◌*◌, ◌/◌, ◌%◌, ◌^◌, leb, ◌==◌, true,
  false, min, String, some, List, [], ◌∷◌, ◌++◌, length, take, drop, take-append-drop, drop-drop,
  drop_all, length-take, length-drop, arith, subst,
}
use propeller.Storage.Paging.{take-min}
use propeller.Proxy.{
  ChunkPayload, wrap, is_negative, magnitude, quotient, min_int, chunks_from, create_chunks,
}

-- The data of the chunks, one after the other.
abbrev pub joined : List ChunkPayload → List ℕ
joined [] = []
joined (c ∷ cs) = c.content ++ joined cs

-- The chunks are numbered from `i` on, know their count, and have from 1 to `size` bytes each.
abbrev pub AreNumbered : ℕ → ℕ → ℕ → List ChunkPayload → Type 0
AreNumbered size total i [] = i ≡ total
AreNumbered size total i (c ∷ cs) =
    (c.chunk_idx ≡ i)
    × (c.total_chunks ≡ total)
    × (1 ≤ length c.content)
    × (length c.content ≤ size)
    × AreNumbered size total (suc i) cs

cut :
    (start size : ℕ) (xs : List ℕ)
    → take (min (start + size) (length xs) - start) (drop start xs) ≡ take size (drop start xs)
cut start size xs =
    let same : min (start + size) (length xs) - start ≡ min size (length (drop start xs)) =
      omega (arith, length-drop start xs) in
    rw (same, take-min size (drop start xs)) refl

-- The chunks as they are where no number wraps around.
abbrev plain_chunks : List ℕ → String → ℕ → ℕ → ℕ → ℕ → List ChunkPayload
plain_chunks content path size total i zero = []
plain_chunks content path size total i (suc rounds) =
    let start = i * size in
    let last = min (start + size) (length content) in
    record {
      app_name = path;
      chunk_idx = i;
      total_chunks = total;
      content = take (last - start) (drop start content);
    }
    ∷ plain_chunks content path size total (suc i) rounds

wrap-small : (n : ℕ) → n < 2 ^ 64 → wrap n ≡ n
unfolding wrap
wrap-small n h = mod-eq_of_lt h

wrap-around : (n m : ℕ) → n + 1 ≡ m → m ≤ 2 ^ 63 → wrap (m + (2 ^ 64 - 1)) ≡ n
unfolding wrap
wrap-around n m e h =
    let same : m + (2 ^ 64 - 1) ≡ n + 2 ^ 64 = omega arith in
    rw same (add-mod_right n (2 ^ 64) ∙ mod-eq_of_lt (omega arith))

min_int-min : (a b : ℕ) → a < 2 ^ 63 → min_int a b ≡ min a b
unfolding min_int is_negative
min_int-min a b h = let plus : is_negative a ≡ false = ground arith in rw (min_int, plus) refl

module _ (xs : List ℕ) (path : String) (size total : ℕ) where
  length-plain_chunks : (i rounds : ℕ) → length (plain_chunks xs path size total i rounds) ≡ rounds
  length-plain_chunks i zero = refl
  length-plain_chunks i (suc rounds) = ap suc (length-plain_chunks (suc i) rounds)

  joined-plain_chunks :
      (i rounds : ℕ)
      → length xs ≤ (i + rounds) * size
      → joined (plain_chunks xs path size total i rounds) ≡ drop (i * size) xs
  joined-plain_chunks i zero h =
      let same : i + 0 ≡ i = omega arith in sym (drop_all (i * size) xs (rw same at h))
  joined-plain_chunks i (suc rounds) h =
      let same : i + suc rounds ≡ suc i + rounds = omega arith in
      let rest = joined-plain_chunks (suc i) rounds (rw same at h) in
      let next = rest ∙ ap (λ k. drop k xs) (suc-mul i size) ∙ sym (drop-drop size (i * size) xs) in
      rw (cut (i * size) size xs, next) (take-append-drop size (drop (i * size) xs))

  -- Each round before the last full one has something to send.
  AreNumbered-plain_chunks :
      (i rounds : ℕ)
      → i + rounds ≡ total
      → 1 ≤ size
      → total * size < length xs + size
      → AreNumbered size total i (plain_chunks xs path size total i rounds)
  AreNumbered-plain_chunks i zero e h k = omega (arith, e)
  AreNumbered-plain_chunks i (suc rounds) e h k =
      let below = mul-le-mul_right {m = suc i} {n = total} size (omega (arith, e)) in
      let bytes =
        length-take size (drop (i * size) xs) ∙ ap (min size) (length-drop (i * size) xs) in
      let (some_bytes, few_bytes) =
        room (i * size) (suc i * size) (total * size) (length (take size (drop (i * size) xs)))
          (suc-mul i size) below k bytes h in
      (
        refl,
        refl,
        rw (cut (i * size) size xs) some_bytes,
        rw (cut (i * size) size xs) few_bytes,
        AreNumbered-plain_chunks (suc i) rounds (omega (arith, e)) h k,
      )
    where
      room :
          (start next all n : ℕ)
          → next ≡ start + size
          → next ≤ all
          → all < length xs + size
          → n ≡ min size (length xs - start)
          → 1 ≤ size
          → (1 ≤ n) × (n ≤ size)
      room start next all n a b c d h = (omega (arith, a, b, c, d, h), omega (arith, d))

  -- Where the image and a chunk together fit into an `int`, no number wraps around.
  chunks_from-plain_chunks :
      (i rounds : ℕ)
      → i + rounds ≡ total
      → 1 ≤ size
      → total * size < length xs + size
      → length xs + size ≤ 2 ^ 63
      → chunks_from xs path size total i rounds ≡ some (plain_chunks xs path size total i rounds)
  unfolding chunks_from
  chunks_from-plain_chunks i zero e h k fits = refl
  chunks_from-plain_chunks i (suc rounds) e h k fits =
      let below = mul-le-mul_right {m = suc i} {n = total} size (omega (arith, e)) in
      let next = suc-mul i size in
      let start : wrap (i * size) ≡ i * size = wrap-small (i * size) (omega (arith, below, next)) in
      let last : wrap (i * size + size) ≡ i * size + size =
        wrap-small (i * size + size) (omega (arith, below, next)) in
      let pick = min_int-min (i * size + size) (length xs) (omega (arith, below, next, k, fits)) in
      let rest = chunks_from-plain_chunks (suc i) rounds (omega (arith, e)) h k fits in
      let ordered : leb (i * size) (min (i * size + size) (length xs)) ≡ true =
        ground (arith, below, next) in
      let inside : leb (min (i * size + size) (length xs)) (length xs) ≡ true = ground arith in
      rw (chunks_from, start, last, pick, ordered, inside, rest) (rw (start, last, pick) refl)

-- As many rounds as there are chunks reach the end, and the round before does not.
enough : (n q r size : ℕ) → r + q ≡ n + size - 1 → r < size → (n ≤ q) × (q < n + size)
enough n q r size e h = (omega (arith, e, h), omega (arith, e, h))

quotient-positive : (a b : ℕ) → a < 2 ^ 63 → 1 ≤ b → b < 2 ^ 63 → quotient a b ≡ some (a / b)
unfolding quotient magnitude is_negative wrap
quotient-positive a b h k l =
    let below = div-le_self a b in
    let pa : is_negative a ≡ false = ground arith in
    let pb : is_negative b ≡ false = ground arith in
    let nz : (b == 0) ≡ false = ground arith in
    let small : (a / b) % 2 ^ 64 ≡ a / b = mod-eq_of_lt (omega (arith, below)) in
    rw (quotient, nz, pa, pb, small) refl

-- The chunks of an image, for a chunk size above 0 that together with the image's size is at most
-- 2 ^ 63, so that no `int` wraps around: joined they are the image, they are numbered from 0 on, each
-- knows how many there are, and each has at least one byte and at most as many as the size.
pub create_chunks_lem :
    (xs : List ℕ) (path : String) (n : ℕ)
    → suc n < 2 ^ 63
    → length xs + suc n ≤ 2 ^ 63
    → (cs : List ChunkPayload) × (create_chunks xs path (suc n) ≡ some cs)
      × (joined cs ≡ xs)
      × AreNumbered (suc n) (length cs) 0 cs
unfolding create_chunks is_negative
create_chunks_lem xs path n positive fits =
    let size = suc n in
    let sum = length xs + size - 1 in
    let total = sum / size in
    let (reaches, below) =
      enough (length xs) (total * size) (sum % size) size (mod-add-div' sum size)
        (mod-lt sum (omega arith)) in
    let cs = plain_chunks xs path size total 0 total in
    let counted =
      AreNumbered-plain_chunks xs path size total 0 total (omega arith) (omega arith) below in
    let wrapped : wrap (length xs + size + (2 ^ 64 - 1)) ≡ sum =
      wrap-around sum (length xs + size) (omega arith) (omega arith) in
    let chunk_count : quotient sum size ≡ some total =
      quotient-positive sum size (omega arith) (omega arith) positive in
    let plus : is_negative total ≡ false = (let d = div-le_self sum size in ground arith) in
    let same =
      chunks_from-plain_chunks xs path size total 0 total (omega arith) (omega arith) below fits in
    (
      cs,
      rw (create_chunks, wrapped, chunk_count, plus) same,
      joined-plain_chunks xs path size total 0 total (rw (zero_add total) reaches)
          ∙ ap (λ k. drop k xs) (zero-mul size),
      subst (λ k. AreNumbered size k 0 cs) (sym (length-plain_chunks xs path size total 0 total))
          counted,
    )
  where
    zero_add : (k : ℕ) → 0 + k ≡ k
    zero_add k = omega arith
