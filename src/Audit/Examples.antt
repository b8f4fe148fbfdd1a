-- ===== src/Audit/Examples.antt =====
-- A hasher without collisions and a JSON form that reads back, and a log of two entries.
use vajra_forensics_platform.Prelude.{
  ℕ, zero, suc, ◌≡◌, ◌↔◌, true, refl, ap, sym, ◌∙◌, Option, none, some, ◌==◌, if◌then◌else◌, ok,
  arith,
}
use Prim.Native.String.{String, [], ◌∷◌, ◌++◌ as append}
use text.Mathlib.TextLemmas.{cons-append, nil-append}
use Prim.Native.Char.{Char, code}
use mathlib.Core.List.{List, [] as nil, ◌∷◌ as cons, ◌++◌}
use mathlib.Core.Option.{some-injective}
use vajra_forensics_platform.Audit.Entry.{
  AuditEntry, HashablePayload, Hasher, genesis_prev_hash, new_entry,
}
use vajra_forensics_platform.Audit.Table.{AuditLogRecord}
use vajra_forensics_platform.Audit.Chain.{
  EntryJson, ChainReport, append as append_entry, event, row_of, verify_entries, verify_db,
  load_entries,
}
use vajra_forensics_platform.Audit.Anchor.{
  AnchorCheckpoint, AnchorVerificationReport, Pki, checkpoint_of, export_anchor, verify_anchor,
}
use vajra_forensics_platform.Audit.Anchor.History.{verify_anchor_history}
use vajra_forensics_platform.Audit.Chain.Sound.{
  IsLinked, report_of, verify_entries_iff, verify_entries_complete,
}
use vajra_forensics_platform.Audit.Chain.Tamper.{IsBinding, verify_entries_injective}
use vajra_forensics_platform.Audit.Chain.Log.{IsLog, IsJson, stored_nil, append-IsLog}
use vajra_forensics_platform.Audit.Chain.Runs.{run_empty, run_append, Run-verify_db}

abbrev mark_end : Char
mark_end = "0"

abbrev mark_char : Char
mark_char = "1"

-- A text with its end marked: every character after a `1`, and a `0` at the end.
enc : String → String → String
enc [] rest = mark_end ∷ rest
enc (c ∷ s) rest = mark_char ∷ c ∷ enc s rest

dec : String → Option (String × String)
dec [] = none
dec (m ∷ []) = if code m == 48 then some ([], []) else none
dec (m ∷ c ∷ s) =
    let rest = dec s in
    if code m == 48
    then some ([], c ∷ s)
    else elim rest [ none ↦ none | some (t, r) ↦ some (c ∷ t, r) ]

dec-enc : (s rest : String) → dec (enc s rest) ≡ some (s, rest)
unfolding dec enc
dec-enc [] [] = refl
dec-enc [] (c ∷ rest) = refl
dec-enc (c ∷ s) rest = rw (dec-enc s rest) refl

append-enc : (s r t : String) → append (enc s r) t ≡ enc s (append r t)
unfolding enc
append-enc [] r t = cons-append mark_end r t
append-enc (c ∷ s) r t =
    cons-append mark_char (c ∷ enc s r) t
    ∙ ap (λ x. mark_char ∷ x) (cons-append c (enc s r) t)
    ∙ ap (λ x. mark_char ∷ c ∷ x) (append-enc s r t)

unary : ℕ → String
unary zero = []
unary (suc n) = mark_char ∷ unary n

size : String → ℕ
size [] = zero
size (c ∷ s) = suc (size s)

size-unary : (n : ℕ) → size (unary n) ≡ n
unfolding size unary
size-unary zero = refl
size-unary (suc n) = ap suc (size-unary n)

pay : HashablePayload → String → String
pay p rest = enc (unary p.seq) (
    enc p.timestamp_utc (
      enc p.operator_id
        (enc p.case_id (enc p.operation (enc p.target_descriptor (enc p.result rest))))))

-- Reads one text and goes on with it.
next {ℓ} : {A : Type ℓ} → String → (String → String → Option A) → Option A
next text go = elim (dec text) [ none ↦ none | some (s, rest) ↦ go s rest ]

next-enc {ℓ} :
    {A : Type ℓ} (s rest : String) (go : String → String → Option A)
    → next (enc s rest) go ≡ go s rest
unfolding next
next-enc s rest go = rw (next, dec-enc s rest) refl

payload_of : String → String → String → String → String → String → String → HashablePayload
payload_of seq ts op case operation target result = record {
  seq = size seq;
  timestamp_utc = ts;
  operator_id = op;
  case_id = case;
  operation = operation;
  target_descriptor = target;
  result = result;
}

unpay : String → Option (HashablePayload × String)
unpay text = next text λ seq r₁. next r₁ λ ts r₂. next r₂ λ op r₃. next r₃ λ case r₄.
    next r₄ λ operation r₅.
      next r₅ λ target r₆.
        next r₆ λ result r₇. some (payload_of seq ts op case operation target result, r₇)

unpay-pay : (p : HashablePayload) (rest : String) → unpay (pay p rest) ≡ some (p, rest)
unfolding unpay pay payload_of
unpay-pay p rest =
    next-enc (unary p.seq) _ _
    ∙ next-enc p.timestamp_utc _ _
    ∙ next-enc p.operator_id _ _
    ∙ next-enc p.case_id _ _
    ∙ next-enc p.operation _ _
    ∙ next-enc p.target_descriptor _ _
    ∙ next-enc p.result rest _
    ∙ ap
        (λ n. some (
          record {
            seq = n;
            timestamp_utc = p.timestamp_utc;
            operator_id = p.operator_id;
            case_id = p.case_id;
            operation = p.operation;
            target_descriptor = p.target_descriptor;
            result = p.result;
          },
          rest,
        ))
        (size-unary p.seq)

append-pay : (p : HashablePayload) (r t : String) → append (pay p r) t ≡ pay p (append r t)
unfolding pay
append-pay p r t = simp append-enc

abbrev hasher : Hasher
hasher = record { to_json = λ p. pay p []; sha256_hex = λ s. s }

hasher_binds : IsBinding hasher
hasher_binds = record {
  no_collision = λ s t h. h;
  self_delimiting = λ p q s t h.
      let same : ◌≡◌ {A = Option (HashablePayload × String)} (some (p, append [] s))
          (some (q, append [] t)) =
        sym (unpay-pay p (append [] s))
        ∙ ap unpay (sym (append-pay p [] s) ∙ h ∙ append-pay q [] t)
        ∙ unpay-pay q (append [] t) in
      (cc same, sym (nil-append s) ∙ cc same ∙ nil-append t);
}

write_entry : AuditEntry → String
write_entry e = pay e.payload (enc e.prev_hash (enc e.entry_hash []))

entry_of : HashablePayload → String → String → AuditEntry
entry_of p prev hash = record { payload = p; prev_hash = prev; entry_hash = hash }

read_entry : String → Option AuditEntry
read_entry text = elim (unpay text) [
  | none ↦ none
  | some (p, rest) ↦ next rest λ prev r₁. next r₁ λ hash r₂. some (entry_of p prev hash)
]

read_entry-write_entry : (e : AuditEntry) → read_entry (write_entry e) ≡ some e
unfolding read_entry write_entry entry_of
read_entry-write_entry e =
    rw (read_entry, unpay-pay e.payload (enc e.prev_hash (enc e.entry_hash [])))
      (next-enc e.prev_hash (enc e.entry_hash []) _ ∙ next-enc e.entry_hash [] _)

abbrev json : EntryJson
json = record { encode = λ e. some (write_entry e); decode = read_entry }

json_reads : IsJson json
json_reads = record {
  writes = λ e. (write_entry e, refl);
  reads = λ e text h. ap read_entry (sym (some-injective _ _ h)) ∙ read_entry-write_entry e;
}

empty_log : IsLog hasher json nil
unfolding IsLinked
empty_log = record { entries = nil; stored = stored_nil; linked = tt }

append-IsLog_example :
    (e : AuditEntry) × (table : List AuditLogRecord) × (append_entry hasher json "now" "case"
        "operator" "Erase" "sda" "SUCCESS" nil
      ≡ ok (e, table))
    × (e.payload ≡ event "now" "case" "operator" "Erase" "sda" "SUCCESS" 1)
    × (after : IsLog hasher json table) × (after.entries ≡ cons e nil)
unfolding empty_log
append-IsLog_example =
    append-IsLog hasher json json_reads "now" "case" "operator" "Erase" "sda" "SUCCESS" nil
      empty_log (omega arith)

first_entry : AuditEntry
unfolding new_entry
first_entry =
    new_entry hasher (event "now" "case" "operator" "Erase" "sda" "SUCCESS" 1) genesis_prev_hash

first_row : AuditLogRecord
unfolding write_entry first_entry
first_row = record {
  seq = 1;
  entry_json = write_entry first_entry;
  entry_hash = first_entry.entry_hash;
  prev_hash = genesis_prev_hash;
}

first_append :
    append_entry hasher json "now" "case" "operator" "Erase" "sda" "SUCCESS" nil
    ≡ ok (first_entry, cons first_row nil)
unfolding append_entry row_of first_row
first_append = refl

Run-verify_db_example :
    (report : ChainReport) × (verify_db hasher json (cons first_row nil) ≡ ok report)
    × (report.total_entries ≡ 1)
Run-verify_db_example =
    Run-verify_db hasher json json_reads 1 (cons first_row nil)
      (run_append run_empty "now" "case" "operator" "Erase" "sda" "SUCCESS" first_entry
        (cons first_row nil) first_append)
      (omega arith)

first-IsLinked : IsLinked hasher 0 genesis_prev_hash (cons first_entry nil)
unfolding IsLinked first_entry
first-IsLinked = (refl, refl, refl, tt)

verify_entries_iff_example :
    (verify_entries hasher (cons first_entry nil) ≡ ok (report_of hasher (cons first_entry nil)))
    ↔ (IsLinked hasher 0 genesis_prev_hash (cons first_entry nil)
        × (report_of hasher (cons first_entry nil) ≡ report_of hasher (cons first_entry nil)))
verify_entries_iff_example =
    verify_entries_iff hasher (cons first_entry nil) (report_of hasher (cons first_entry nil))

first_verified :
    verify_entries hasher (cons first_entry nil) ≡ ok (report_of hasher (cons first_entry nil))
first_verified = verify_entries_complete hasher (cons first_entry nil) first-IsLinked

verify_entries_injective_example : cons first_entry nil ≡ cons first_entry nil
verify_entries_injective_example =
    verify_entries_injective hasher hasher_binds (cons first_entry nil) (cons first_entry nil)
      (report_of hasher (cons first_entry nil)) first_verified first_verified

-- A log that grew by an entry after its anchor was exported.
second_entry : AuditEntry
unfolding new_entry first_entry
second_entry =
    new_entry hasher (event "later" "case" "operator" "Seize" "sdb" "SUCCESS" 2)
      first_entry.entry_hash

second_row : AuditLogRecord
unfolding write_entry second_entry
second_row = record {
  seq = 2;
  entry_json = write_entry second_entry;
  entry_hash = second_entry.entry_hash;
  prev_hash = second_entry.prev_hash;
}

grown-IsLinked : IsLinked hasher 0 genesis_prev_hash (cons first_entry (cons second_entry nil))
unfolding IsLinked first_entry second_entry
grown-IsLinked = (refl, refl, refl, (refl, refl, refl, tt))

-- Keys and signatures that are always accepted.
abbrev pki : Pki
pki = record {
  to_decimal = λ n. "1";
  sign_hex = λ text. text;
  public_key_hex = "key";
  generate_self_signed_cert = λ operator. none;
  decode_hex = λ text. some nil;
  verify_signature = λ key text signature. ok true;
}

anchor : AnchorCheckpoint
unfolding checkpoint_of
anchor = checkpoint_of hasher pki json "now" "case" "operator" first_entry

loads_first : load_entries hasher json (cons first_row nil) ≡ ok (cons first_entry nil)
unfolding load_entries first_row read_entry unpay next dec pay enc unary entry_of payload_of size
loads_first = refl

loads_grown :
    load_entries hasher json (cons first_row (cons second_row nil))
    ≡ ok (cons first_entry (cons second_entry nil))
unfolding load_entries first_row second_row read_entry unpay next dec pay enc unary entry_of
    payload_of size
loads_grown = refl

exported : export_anchor hasher pki json "now" "case" "operator" (cons first_row nil) ≡ ok anchor
unfolding export_anchor first_row anchor read_entry unpay next dec pay enc unary entry_of payload_of
    size
exported = refl

anchor_report : AnchorVerificationReport
unfolding anchor
anchor_report = record {
  case_id = "case";
  anchored_sequence = 1;
  anchored_hash = first_entry.entry_hash;
  is_signature_valid = true;
  is_chain_consistent = true;
}

accepted :
    verify_anchor hasher pki json anchor (cons first_row (cons second_row nil)) ≡ ok anchor_report
unfolding verify_anchor first_row second_row anchor first_entry second_entry anchor_report
    read_entry unpay next dec pay enc unary entry_of payload_of size
accepted = refl

verify_anchor_history_example :
    (after : List AuditEntry) × (cons first_entry (cons second_entry nil)
      ≡ cons first_entry nil ++ after)
verify_anchor_history_example =
    verify_anchor_history hasher hasher_binds pki json "now" "case" "operator" (cons first_row nil)
      (cons first_row (cons second_row nil)) (cons first_entry nil)
      (cons first_entry (cons second_entry nil)) _ _ loads_first loads_grown first_verified
      (verify_entries_complete hasher _ grown-IsLinked) (omega arith) (omega arith) anchor exported
      anchor_report accepted
