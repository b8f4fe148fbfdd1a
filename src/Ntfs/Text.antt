-- ===== src/Ntfs/Text.antt =====
-- The texts and times of crates/vajra-fs-ntfs/src/mft.rs. A text is the list of its code points.
use vajra_forensics_platform.Prelude.{
  ℕ, zero, suc, ◌+◌, ◌-◌, ◌*◌, ◌/◌, ◌%◌, ◌&&◌, Bool, Option, none, some, List, [], ◌∷◌, ◌++◌, ltb,
  leb, ◌==◌, if◌then◌else◌, le16,
}

-- The 16-bit numbers from a position on.
abbrev pub u16_chars : List ℕ → ℕ → ℕ → List ℕ
u16_chars buf pos zero = []
u16_chars buf pos (suc n) = le16 buf pos ∷ u16_chars buf (pos + 2) n

abbrev pub is_high : ℕ → Bool
is_high unit = leb 55296 unit && ltb unit 56320

abbrev pub is_low : ℕ → Bool
is_low unit = leb 56320 unit && ltb unit 57344

-- A unit that stands alone; a low surrogate is replaced, and a high one waits for the next unit.
abbrev pub lone_unit : ℕ → List ℕ × Option ℕ
lone_unit unit =
    if is_high unit
    then ([], some unit)
    else if is_low unit
    then (65533 ∷ [], none)
    else (unit ∷ [], none)

-- The code points that a unit completes, and the high surrogate that waits after it.
abbrev pub next_unit : Option ℕ → ℕ → List ℕ × Option ℕ
next_unit none unit = lone_unit unit
next_unit (some high) unit =
    if is_low unit
    then ((65536 + (high - 55296) * 1024 + (unit - 56320)) ∷ [], none)
    else (65533 ∷ (lone_unit unit).0, (lone_unit unit).1)

pub utf16_from : Option ℕ → List ℕ → List ℕ
utf16_from none [] = []
utf16_from (some high) [] = 65533 ∷ []
utf16_from waiting (unit ∷ units) =
    (next_unit waiting unit).0 ++ utf16_from (next_unit waiting unit).1 units

-- `String::from_utf16_lossy`.
pub from_utf16_lossy : List ℕ → List ℕ
unfolding utf16_from
from_utf16_lossy units = utf16_from none units

-- `timestamp_opt` makes a time of seconds and nanoseconds since 1970, where it can.
pub filetime_to_datetime : {DateTime : Type 0} → (ℕ → ℕ → Option DateTime) → ℕ → Option DateTime
filetime_to_datetime timestamp_opt filetime =
    let since_1970 = filetime - 116444736000000000 in
    if filetime == 0
    then none
    else if ltb filetime 116444736000000000
    then none
    else timestamp_opt (since_1970 / 10000000) (since_1970 % 10000000 * 100)
