-- ===== src/Lib.antt =====
-- Verification of the Vajra forensics platform, a Rust workspace that images, repairs, reads and
-- erases storage media and keeps the records that a court asks for.
--
-- Parts, and the files that model them:
-- In Raid: crates/vajra-raid. Raid/Galois.antt is src/galois.rs, the tables of GF(2^8) and the P and Q
--   parity of a stripe; Raid/Layout.antt is src/layout.rs, where a sector of the array lies on its
--   members; Raid/Array.antt is src/array.rs, the array that rebuilds what a lost drive held.
-- In Audit: crates/vajra-audit. Audit/Entry.antt is src/entry.rs, Audit/Chain.antt is src/chain.rs,
--   Audit/Anchor.antt is src/anchor.rs, and Audit/Table.antt is the table of
--   crates/vajra-case-db/src/db.rs that `append` writes to.
-- In Custody: crates/vajra-custody. Custody/Events.antt is src/events.rs, Custody/Tracker.antt is
--   src/tracker.rs, and Custody/Store.antt the tables of crates/vajra-case-db that it uses.
-- In Acquire: crates/vajra-acquire. Acquire/BadSector.antt is src/bad_sector.rs, Acquire/Engine.antt is
--   src/profile.rs and the copy of src/engine.rs.
-- In Files: crates/vajra-core/src/fs.rs, the types that the parsers of file systems share.
-- In Fat: crates/vajra-fs-fat. Fat/Bpb.antt is src/bpb.rs, Fat/Table.antt is src/fat_table.rs,
--   Fat/Extents.antt and Fat/Entry.antt are what src/parser.rs makes of a directory entry.
-- In Ntfs: crates/vajra-fs-ntfs. Ntfs/Boot.antt is src/boot.rs; Ntfs/Fixup.antt, Ntfs/Runs.antt,
--   Ntfs/Text.antt, Ntfs/Attribute.antt and Ntfs/Record.antt are src/mft.rs; Ntfs/Bitmap.antt is
--   src/bitmap.rs, Ntfs/Vss.antt is src/vss.rs, and Ntfs/Entry.antt and Ntfs/Parser.antt are
--   src/parser.rs.
-- In Erase: crates/vajra-erase. Erase/Gate.antt is src/gate.rs, the confirmations before
--   an erasure, Erase/Decision.antt is src/decision_engine.rs, the choice of its method,
--   Erase/Overwrite.antt and Erase/Methods.antt are src/methods, which carry it out, and
--   Erase/Assurance.antt is src/verify, the layers that check it.
-- In Verify: crates/vajra-verify, the independent verifier of reports, src/models.rs and
--   src/verifier.rs: Verify/Chain.antt is the check of the audit segment, which repeats that of
--   Audit/Chain.antt, Verify/Base64.antt and Verify/Certificate.antt find the key of a certificate, and
--   Verify/Envelope.antt checks the whole report.
-- Prelude holds the shared helpers. Definitions keep the names of the source in snake case. The folder
-- of a component holds its proofs, in files named for what they prove, and Examples.antt the concrete
-- inputs on which they apply. Acquisition appends to the audit log and to the chain of custody; each
-- of them is verified as a component, and the calls that only log are left out of the copy loop.
--
-- Numbers are natural numbers; a 32- or 64-bit result is taken modulo 2 ^ 32 or 2 ^ 64, as a release
-- build does. A panic is a value of the result type. Loops over data recurse on the data. `fill` runs
-- the 255 rounds of the source, `read_loop` takes a round per sector at most, so fuel for each sector
-- is enough; `follow_chain` has fuel for each byte of the table and two more, since every cluster but
-- the first has its entry in the table; the copy loop needs fuel for each block and one more; a
-- run list and the attributes of a record take a byte at least in each round; an overwrite takes a
-- block at least in each round.
--
-- Code outside the repository is a parameter: SHA-256, hex, Ed25519, JSON, the clock, RFC 3339
-- parsing, SQLite where it sorts and where it runs text as SQL, the calendar of chrono, the
-- generator and the shuffle of the rand crates, and the floating-point formula of the sample size.
-- So are block devices, and what the parts use of crates that are not modelled: the image writers
-- of crates/vajra-image, and the artifacts that the carver finds, which are given to the
-- verification of an erasure. What is relied on is a record of hypotheses: IsBinding, IsJson,
-- IsSqlite, IsStorage, IsWriter.
--
-- Not modelled: superblock detection, level 6 beyond the recovery of its stripes and the
-- translation of the array's code, the keys of operators, the walk over FAT directories, the free
-- clusters and the journal of NTFS, resuming an acquisition, the certificate of an erasure, the
-- files that anchors and reports are kept in, failures of the database other than a key that is
-- taken, and the other crates of the workspace (carving, ext4, images, encrypted volumes, devices,
-- the user interfaces).
mod Prelude
pub mod Raid
pub mod Audit
pub mod Custody
pub mod Acquire
pub mod Files
pub mod Fat
pub mod Ntfs
pub mod Erase
pub mod Verify
