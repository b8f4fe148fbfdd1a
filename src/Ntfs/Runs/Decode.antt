-- ===== src/Ntfs/Runs/Decode.antt =====
-- decode_data_runs of mft.rs on whole run lists.
use mathlib.Core.List.{append_assoc, append-nil}
use native.Mathlib.Nat.{mod-eq_of_lt}
use vajra_forensics_platform.Prelude.{
  ℕ, zero, suc, ◌+◌, ◌-◌, ◌*◌, ◌/◌, ◌%◌, ◌^◌, ◌≤◌, ◌<◌, ◌≡◌, refl, sym, ap, ◌∙◌, subst, true, false,
  Option, some, List, [], ◌∷◌, ◌++◌, map, ltb, leb, ◌==◌, length, length-append, get_or,
  get_or-append_right, u64, Result, ok, arith,
}
use vajra_forensics_platform.Ntfs.Boot.{NtfsError, NtfsBoot, lcn_to_lba}
use vajra_forensics_platform.Ntfs.Runs.{
  or_bytes, signed_bytes, push_run, decode_from, decode_data_runs,
}
use vajra_forensics_platform.Ntfs.Runs.Numbers.{Holds, or_bytes-Holds, signed_bytes-Holds}
use vajra_forensics_platform.Ntfs.Runs.Encode.{
  Run, le_bytes, encode_run, encode, AreRuns, extent_of, length-le_bytes, placed-Holds,
}

Extents : Type 0
Extents = Option (Result NtfsError (List (ℕ × ℕ)))

decode_from-end :
    (fuel : ℕ) (boot : NtfsBoot) (before : List ℕ) (prev : ℕ) (extents : List (ℕ × ℕ))
    → decode_from (suc fuel) boot (before ++ 0 ∷ []) (length before) prev extents
      ≡ some (ok extents)
unfolding decode_from
decode_from-end fuel boot before prev extents =
    let inside : leb (length (before ++ 0 ∷ [])) (length before) ≡ false =
      rw (length-append before (0 ∷ [])) (ground arith) in
    let at_end : get_or (before ++ 0 ∷ []) (length before) 0 ≡ 0 =
      ap (λ k. get_or (before ++ 0 ∷ []) k 0) (omega arith)
      ∙ get_or-append_right before (0 ∷ []) 0 0 in
    rw (inside, at_end) refl

-- One round over a header whose numbers are known.
decode_from-round :
    (fuel : ℕ) (boot : NtfsBoot) (runlist : List ℕ) (offset prev len off lcn count : ℕ)
    → (extents : List (ℕ × ℕ)) → get_or runlist offset 0 ≡ len + 16 * off
    → len < 16
    → 1 ≤ off
    → off < 16
    → offset + 1 + len + off ≤ length runlist
    → or_bytes runlist (offset + 1) len ≡ count
    → u64 (prev + signed_bytes runlist (offset + 1 + len) off) ≡ lcn
    → lcn < 2 ^ 63
    → 0 < count
    → decode_from (suc fuel) boot runlist offset prev extents
      ≡ decode_from fuel boot runlist
          (offset + 1 + len + off)
          lcn
          (extents ++ (lcn_to_lba boot lcn, u64 (count * boot.sectors_per_cluster)) ∷ [])
unfolding decode_from push_run
decode_from-round fuel boot runlist offset prev len off lcn count extents header len_lt off_pos
      off_lt fits counted placed lcn_lt count_pos =
    let inside : leb (length runlist) offset ≡ false = ground arith in
    let low : (len + 16 * off) % 16 ≡ len = omega arith in
    let high : (len + 16 * off) / 16 % 16 ≡ off = omega arith in
    let started : (len + 16 * off == 0) ≡ false = ground arith in
    let held : ltb (length runlist) (offset + 1 + len + off) ≡ false = ground arith in
    let dense : (off == 0) ≡ false = ground arith in
    let here : ltb lcn (2 ^ 63) ≡ true = ground arith in
    let some_clusters : ltb 0 count ≡ true = ground arith in
    rw (inside, header, low, high, started, held, dense, counted, placed, here, some_clusters) refl

-- A run, read where it was written, and the rest of the list after it.
decode_from-run :
    (fuel : ℕ) (boot : NtfsBoot) (before rest : List ℕ) (prev : ℕ) (r : Run)
    → (extents : List (ℕ × ℕ)) → prev < 2 ^ 63
    → AreRuns prev (r ∷ [])
    → decode_from
        (suc fuel)
        boot
        (before ++ (encode_run prev r ++ rest))
        (length before)
        prev
        extents
      ≡ decode_from fuel boot
          ((before ++ encode_run prev r) ++ rest)
          (length (before ++ encode_run prev r))
          r.lcn
          (extents ++ extent_of boot r ∷ [])
decode_from-run fuel boot before rest prev r extents prev_lt
      ((len_pos, len_le, off_pos, off_le, count_pos, count_lt, lcn_lt, above, below), end) =
    let header = r.len_bytes + 16 * r.off_bytes in
    let lens = le_bytes r.len_bytes r.cluster_count in
    let offs = le_bytes r.off_bytes (r.lcn + 2 ^ 64 - prev) in
    let runlist = before ++ (encode_run prev r ++ rest) in
    let at_lens : (before ++ header ∷ []) ++ (lens ++ (offs ++ rest)) ≡ runlist =
      append_assoc before (header ∷ []) (lens ++ (offs ++ rest))
      ∙ ap (λ l. before ++ (header ∷ l)) (sym (append_assoc lens offs rest)) in
    let at_offs : (before ++ (header ∷ lens)) ++ (offs ++ rest) ≡ runlist =
      append_assoc before (header ∷ lens) (offs ++ rest)
      ∙ ap (λ l. before ++ (header ∷ l)) (sym (append_assoc lens offs rest)) in
    let lens_held =
      subst (λ (l : List ℕ). Holds l (length before + 1) r.len_bytes r.cluster_count) at_lens
        (placed-Holds (before ++ header ∷ []) (offs ++ rest) (length before + 1) r.len_bytes
          r.cluster_count (length-append before (header ∷ []))) in
    let offs_held =
      subst
        (λ (l : List ℕ).
          Holds l (length before + 1 + r.len_bytes) r.off_bytes (r.lcn + 2 ^ 64 - prev))
        at_offs
        (placed-Holds (before ++ (header ∷ lens)) rest (length before + 1 + r.len_bytes) r.off_bytes
          (r.lcn + 2 ^ 64 - prev)
          (omega (
            arith,
            length-append before (header ∷ lens),
            length-le_bytes r.len_bytes r.cluster_count,
          ))) in
    let counted =
      or_bytes-Holds runlist (length before + 1) r.len_bytes r.cluster_count len_le lens_held
      ∙ mod-eq_of_lt count_lt in
    let placed =
      signed_bytes-Holds runlist (length before + 1 + r.len_bytes) r.off_bytes prev r.lcn off_pos
        off_le offs_held prev_lt lcn_lt above below in
    let measured : length (before ++ encode_run prev r)
        ≡ length before + 1 + r.len_bytes + r.off_bytes =
      omega (
        arith,
        length-append before (encode_run prev r),
        length-append lens offs,
        length-le_bytes r.len_bytes r.cluster_count,
        length-le_bytes r.off_bytes (r.lcn + 2 ^ 64 - prev),
      ) in
    let whole = append_assoc before (encode_run prev r) rest in
    let first : get_or runlist (length before) 0 ≡ header =
      ap (λ k. get_or runlist k 0) (omega arith)
      ∙ get_or-append_right before (encode_run prev r ++ rest) 0 0 in
    let fits : length before + 1 + r.len_bytes + r.off_bytes ≤ length runlist = omega (
      arith,
      measured,
      ap (λ (l : List ℕ). length l) whole,
      length-append (before ++ encode_run prev r) rest,
    ) in
    rw (whole, measured)
      (decode_from-round fuel boot runlist (length before) prev r.len_bytes r.off_bytes r.lcn
        r.cluster_count extents first (omega arith) off_pos (omega arith) fits counted placed lcn_lt
        count_pos)

decode_from-encode :
    (fuel : ℕ) (boot : NtfsBoot) (before : List ℕ) (prev : ℕ) (runs : List Run)
    → (extents : List (ℕ × ℕ)) → prev < 2 ^ 63
    → length runs < fuel
    → AreRuns prev runs
    → decode_from fuel boot (before ++ encode prev runs) (length before) prev extents
      ≡ some (ok (extents ++ map (extent_of boot) runs))
decode_from-encode zero boot before prev runs extents prev_lt lt good = absurd (omega arith)
decode_from-encode (suc fuel) boot before prev [] extents prev_lt lt good =
    decode_from-end fuel boot before prev extents
    ∙ ap (λ (l : List (ℕ × ℕ)). some (ok l)) (sym (append-nil extents))
decode_from-encode (suc fuel) boot before prev (r ∷ rs) extents prev_lt lt (good, rest) =
    decode_from-run fuel boot before (encode r.lcn rs) prev r extents prev_lt (good, tt)
    ∙ decode_from-encode fuel boot (before ++ encode_run prev r) r.lcn rs
        (extents ++ extent_of boot r ∷ []) good.6 (omega arith) rest
    ∙ ap (λ (l : List (ℕ × ℕ)). some (ok l))
        (append_assoc extents (extent_of boot r ∷ []) (map (extent_of boot) rs))

runs-encode : (prev : ℕ) (runs : List Run) → length runs < length (encode prev runs)
runs-encode prev [] = omega arith
runs-encode prev (r ∷ rs) =
    omega (arith, runs-encode r.lcn rs, length-append (encode_run prev r) (encode r.lcn rs))

-- A list of runs that is written out is decoded to the extents of the runs, in order: each run in
-- numbers of one to eight bytes that hold its length, which is not zero, and its signed distance
-- from the run before, with starts below 2 ^ 63.
pub decode_data_runs-encode :
    (boot : NtfsBoot) (runs : List Run)
    → AreRuns 0 runs
    → decode_data_runs (encode 0 runs) boot ≡ some (ok (map (extent_of boot) runs))
unfolding decode_data_runs
decode_data_runs-encode boot runs good =
    decode_from-encode (length (encode 0 runs) + 1) boot [] 0 runs [] (omega arith)
      (omega (arith, runs-encode 0 runs)) good
