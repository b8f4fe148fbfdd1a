-- ===== src/Raid/Array/Complete.antt =====
-- The lengths of what `read_blocks` of array.rs reads at level 5, from one chunk to a whole read.
use mathlib.Core.List.{append_assoc, append-nil}
use vajra_forensics_platform.Prelude.{
  ℕ, zero, suc, ◌+◌, ◌-◌, ◌*◌, ◌<◌, ◌≤◌, ◌≡◌, refl, sym, subst, ap, ◌∙◌, false, Option, none, some,
  List, [], ◌∷◌, ◌++◌, map, arith, length, length-append, get_or, u64, ◌==◌,
}
use vajra_forensics_platform.Raid.Error.{IoError, Result, ok, ◌>>=◌}
use vajra_forensics_platform.Raid.Layout.{
  RaidGeometry, DiskBlockLocation, map_lba, chunk_size_sectors, total_logical_sectors,
}
use vajra_forensics_platform.Raid.Layout.Mapping.{
  map_lba_place, map_lba_bounds, total_logical_sectors-lt,
}
use vajra_forensics_platform.Raid.Array.{
  Member, RaidArray, row_lba, take_sectors, read_loop, read_blocks,
}
use vajra_forensics_platform.Raid.Array.Rebuild.{Answers}
use vajra_forensics_platform.Raid.Array.Degraded.{
  around, IsRaid5, whole, degraded, chunk-fits, read_chunk-some, row_lba-map_lba, next_round,
  read_blocks_degraded,
}

-- A drive of an array, and the block that it answers.
record Answering (len lba count : ℕ) (here : Option Member) : Type 0 where
  drive : Member
  block : List ℕ
  present : here ≡ some drive
  answer : drive.read_blocks lba count ≡ ok block
  block_length : length block ≡ len

Answering-after :
    (len lba count : ℕ) (ms : List Member) (bs : List (List ℕ)) (i : ℕ)
    → Answers len lba count ms bs
    → i < length ms
    → Answering len lba count (get_or (map some ms) i none)
Answering-after len lba count [] bs i h k = absurd (omega arith)
Answering-after len lba count (m ∷ ms) [] i h k = absurd h
Answering-after len lba count (m ∷ ms) (b ∷ bs) zero h k = record {
  drive = m;
  block = b;
  present = refl;
  answer = h.0;
  block_length = h.1;
}
Answering-after len lba count (m ∷ ms) (b ∷ bs) (suc i) h k =
    Answering-after len lba count ms bs i h.2 (omega arith)

answering :
    (len lba count : ℕ) (pre : List Member) (before : List (List ℕ)) (lost : Member) (own : List ℕ)
    (post : List Member) (after : List (List ℕ)) (i : ℕ)
    → Answers len lba count pre before
    → lost.read_blocks lba count ≡ ok own
    → length own ≡ len
    → Answers len lba count post after
    → i < length pre + 1 + length post
    → Answering len lba count (get_or (around pre (some lost) post) i none)
answering len lba count [] before lost own post after zero h e l k b = record {
  drive = lost;
  block = own;
  present = refl;
  answer = e;
  block_length = l;
}
answering len lba count [] before lost own post after (suc i) h e l k b =
    Answering-after len lba count post after i k (omega arith)
answering len lba count (m ∷ pre) [] lost own post after i h e l k b = absurd h
answering len lba count (m ∷ pre) (d ∷ before) lost own post after zero h e l k b = record {
  drive = m;
  block = d;
  present = refl;
  answer = h.0;
  block_length = h.1;
}
answering len lba count (m ∷ pre) (d ∷ before) lost own post after (suc i) h e l k b =
    answering len lba count pre before lost own post after i h.2 e l k (omega arith)

-- The bytes of this round and of the rest.
split_bytes : (n m ss : ℕ) → n ≤ m → n * ss + (m - n) * ss ≡ m * ss
split_bytes n m ss h = omega (arith, ap (λ (t : ℕ). t * ss) (total_of n m h))
  where
    total_of : (n m : ℕ) → n ≤ m → n + (m - n) ≡ m
    total_of n m h = omega arith

suc-ne-zero : (n : ℕ) → (suc n == 0) ≡ false
suc-ne-zero n = ground arith

-- The bytes of `count` sectors from `cur` on: what the members answer, piece by piece, at the places
-- that the layout gives; a piece stays inside a chunk.
pub data IsContent (g : RaidGeometry) (ms : List (Option Member)) : ℕ → ℕ → List ℕ → Type 0 where
  content_none : {cur : ℕ} → IsContent g ms cur 0 []
  content_piece :
      {cur n more : ℕ} {block rest : List ℕ} (drive : Member)
      → 0 < n
      → n ≤ chunk_size_sectors g - (map_lba g cur).offset_in_chunk
      → get_or ms (map_lba g cur).member_idx none ≡ some drive
      → drive.read_blocks (map_lba g cur).member_lba n ≡ ok block
      → length block ≡ n * g.sector_size
      → IsContent g ms (cur + n) more rest
      → IsContent g ms cur (n + more) (block ++ rest)

-- A read that returns the bytes of its sectors behind those that are there.
abbrev Continues :
    RaidGeometry → List (Option Member) → Result IoError (List ℕ) → List ℕ → ℕ → ℕ → Type 0
Continues g ms result before cur count =
    (bytes : List ℕ) × (result ≡ ok (before ++ bytes))
    × (length bytes ≡ count * g.sector_size)
    × IsContent g ms cur count bytes

abbrev pub Returns : RaidGeometry → List (Option Member) → Result IoError (List ℕ) → ℕ → ℕ → Type 0
Returns g ms result cur count =
    (bytes : List ℕ) × (result ≡ ok bytes)
    × (length bytes ≡ count * g.sector_size)
    × IsContent g ms cur count bytes

module _ (a : RaidArray) (pre : List Member) (lost : Member) (post : List Member)
    (r : IsRaid5 a pre lost post) where
  abbrev array : RaidArray
  array = whole a pre lost post r

  chunk_answer :
      (cur count : ℕ)
      → cur < total_logical_sectors a.geometry
      → count ≤ chunk_size_sectors a.geometry - (map_lba a.geometry cur).offset_in_chunk
      → Answering
          (count * a.geometry.sector_size)
          (map_lba a.geometry cur).member_lba
          count
          (get_or (around pre (some lost) post) (map_lba a.geometry cur).member_idx none)
  chunk_answer cur count h k =
      let loc : DiskBlockLocation = map_lba a.geometry cur in
      let place = map_lba_place a.geometry r.valid cur r.capacity_fits h in
      let bounds = map_lba_bounds a.geometry r.valid cur r.capacity_fits h in
      let at = row_lba-map_lba a pre lost post r cur in
      let p = r.in_parity (row_lba a.geometry loc) count (omega arith) (omega arith) in
      let len : ℕ = count * a.geometry.sector_size in
      subst
        (λ (lba : ℕ).
          Answering len lba count (get_or (around pre (some lost) post) loc.member_idx none))
        (sym at)
        (answering len (row_lba a.geometry loc) count pre p.before lost p.own post p.after
          loc.member_idx p.before_answers p.own_answer p.own_length p.after_answers
          (omega (arith, r.members_length)))

  -- Each round takes a sector at least, so the fuel does not run out.
  round-pos :
      (cur remaining : ℕ)
      → cur < total_logical_sectors a.geometry
      → 0 < remaining
      → (0 < take_sectors array (map_lba a.geometry cur) remaining)
        × (take_sectors array (map_lba a.geometry cur) remaining ≤ remaining)
        × (take_sectors array (map_lba a.geometry cur) remaining
            ≤ chunk_size_sectors a.geometry - (map_lba a.geometry cur).offset_in_chunk)
  unfolding take_sectors
  round-pos cur remaining h p =
      let place = map_lba_place a.geometry r.valid cur r.capacity_fits h in
      omega (arith, place.2, chunk-fits a pre lost post r)

  read_loop-Continues :
      (fuel cur remaining : ℕ) (before : List ℕ)
      → remaining ≤ fuel
      → cur + remaining ≤ total_logical_sectors a.geometry
      → Continues a.geometry
          (around pre (some lost) post)
          (read_loop fuel array cur remaining before)
          before
          cur
          remaining
  unfolding read_loop
  read_loop-Continues zero cur zero before f h =
      ([], ap ok (sym (append-nil before)), omega arith, content_none)
  read_loop-Continues zero cur (suc remaining) before f h = absurd (omega arith)
  read_loop-Continues (suc fuel) cur zero before f h =
      ([], ap ok (sym (append-nil before)), omega arith, content_none)
  read_loop-Continues (suc fuel) cur (suc remaining) before f h =
      let loc : DiskBlockLocation = map_lba a.geometry cur in
      let n : ℕ = take_sectors array loc (suc remaining) in
      let steps = round-pos cur (suc remaining) (omega arith) (omega arith) in
      let piece = chunk_answer cur n (omega arith) steps.2 in
      let fits : u64 (cur + n) ≡ cur + n =
        omega (arith, steps.1, h, total_logical_sectors-lt a.geometry) in
      let (rest, read, rest_length, content) =
        read_loop-Continues fuel (u64 (cur + n)) (suc remaining - n) (before ++ piece.block)
          (omega (arith, steps.0)) (next_round a pre lost post r cur (suc remaining) h) in
      let chunk = read_chunk-some array loc n piece.present ∙ piece.answer in
      let all : n + (suc remaining - n) ≡ suc remaining = omega (arith, steps.1) in
      let behind =
        subst
          (λ (k : ℕ). IsContent a.geometry (around pre (some lost) post) k (suc remaining - n) rest)
          fits content in
      (
        piece.block ++ rest,
        rw (suc-ne-zero remaining, chunk, ◌>>=◌)
            (read ∙ ap ok (append_assoc before piece.block rest)),
        length-append piece.block rest
            ∙ ap (λ m. m + length rest) piece.block_length
            ∙ ap (λ m. n * a.geometry.sector_size + m) rest_length
            ∙ split_bytes n (suc remaining) a.geometry.sector_size steps.1,
        subst
            (λ (k : ℕ).
              IsContent a.geometry (around pre (some lost) post) cur k (piece.block ++ rest))
            all
            (content_piece piece.drive steps.0 steps.2 piece.present piece.answer piece.block_length
              behind),
      )

  -- A read inside a level 5 array with one drive lost returns the bytes of its sectors: piece by
  -- piece, what the members of the whole array, the lost one included, hold at the places that
  -- the layout gives to the sectors, under the same conditions on the array.
  pub read_blocks-Returns :
      (start count : ℕ)
      → start + count ≤ a.total_logical_blocks
      → Returns a.geometry
          (around pre (some lost) post)
          (read_blocks (degraded a pre lost post r) start count)
          start
          count
  unfolding read_blocks
  read_blocks-Returns start count h =
      let bound = total_logical_sectors-lt a.geometry in
      let (bytes, read, size, content) =
        read_loop-Continues count start count [] (omega arith) (omega (arith, r.total)) in
      (
        bytes,
        read_blocks_degraded a pre lost post r start count (omega (arith, r.total))
            ∙ ground (arith, read, r.total),
        size,
        content,
      )
