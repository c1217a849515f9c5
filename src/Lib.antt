-- ===== src/Lib.antt =====
-- A model of the offline verifier of VertRule receipts, and proofs of what its verdicts mean.
--
-- The program takes raw JSON bytes and decides whether they are a receipt, a chain of receipts, a
-- signed receipt, or a pack of receipts that it accepts. A verdict is a record with a status, flags
-- and the list of the errors as text. There is no global state and no input besides the arguments.
--
-- How the parts work together: raw bytes pass the resource limits, the canonical admission and the
-- schema profile before they are converted to an envelope (ingestion); an envelope is checked by
-- itself (version, algorithm markers, event hash), with its neighbours (chain), and with a signature
-- bundle and an authority set (signature, trust); the entry points of src/verify.rs put these
-- together, and the verifiers of packs and bundles call the entry point for one receipt on each text
-- of a pack. An external receipt takes another way, without admission and profile. The command line
-- and the bindings for WebAssembly read an input, call one verifier and write its result.
--
-- The files:
-- - External: the parameters, everything that other crates define, with the laws that equality of
--   digests and of versions decides equality. Support: those that only the packs use. Json: the
--   values of serde_json, as data, over an abstract type of numbers.
-- - Error: src/error.rs. Result: src/result.rs.
-- - Limits: src/limits.rs, `walk` and `check_structure`; Limits/Structure.
-- - Canon: src/canon.rs. SchemaProfile: src/schema_profile.rs; SchemaProfile/Conformance.
-- - Ingestion: src/ingestion.rs; Ingestion/Admission for one envelope, Ingestion/Elements for a chain.
-- - Envelope: src/envelope.rs; Envelope/Checks.
-- - Chain: src/chain.rs; Chain/Spec says what a chain is, Chain/Loops and Chain/Validity.
-- - Signature: src/signature.rs; Signature/KeyIds and Signature/Soundness.
-- - Trust: src/trust.rs; Trust/Decision.
-- - Verify: src/verify.rs; Verify/Accumulate, Receipts, Chains, Signed,
--   Reports, and Raised on larger limits.
-- - Support/Reads: what a JSON text says of its event hash and its payload.
-- - LayeredPack: src/layered_pack.rs; Report, Edges, Supply, Root and Verdict. DecisionPack:
--   src/decision_pack.rs; Report, Supply, Members, Payload and Verdict.
-- - ClosureGraph: the graph and `walk` of src/closure_bundle.rs; Extent, Fuel, Edges and Reach, then
--   Settled, Depth and Closed on what a walk reaches, Grounded, Descent, Acyclic and Quiet on when it
--   is quiet, and Ordered.
--   ClosureBundle: the rest of it; Report, Manifest, Notes, Closed, Verdict, Closure.
-- - Identity: src/identity.rs and src/canonical_identity.rs. Bundle: src/bundle.rs; Sidecars,
--   Verdict.
-- - Rbh: src/rbh.rs; Rbh/Receipts and Rbh/Projection.
-- - Formats: the serialised forms of the results, over what serde derives.
-- - Cli: src/bin/vr_verify.rs; Cli/Terminal is what is written, Cli/Args reads the flags, Cli/Exit,
--   Reports, Main and Codes are on the exit codes, Cli/RoundTrip on the flags. Wasm: src/wasm.rs;
--   Wasm/Canonical.
-- - MriProfile: src/mri_profile.rs; MriProfile/Shapes and MriProfile/Payloads.
-- - Prelude: results, lists, texts, maps and sets. Tests: concrete inputs.
--
-- How the code is read: `Result` and `?` are a result type with its bind, a vector that is pushed to
-- is a list passed on, a `BTreeMap` is an association list of which look-up and insertion are
-- observed, a `BTreeSet` is an ascending list, `for` loops are recursion on the list. A `usize` that
-- counts things in memory is a natural number. The conversions by serde of the pack formats and of
-- the signature bundle are arguments: an entry point takes the result of the conversion. That of the
-- signature bundle contains the hand-written one of `KeyId`, which only calls `from_hex`.
--
-- Fuel: only `walk` of ClosureGraph has one, for its depth. It is given one more than the number of
-- nodes of the graph; a call descends only into a node that was not reached before, and such a node
-- is in the graph, so the calls that are nested cannot be more.
--
-- Not modelled: the generators in examples, which write test vectors and are no part of the verifier;
-- src/lib.rs, which only passes names on. The conversions that serde derives are parameters, with
-- `KeyId::deserialize` inside one of them; so are `String::from_utf8`, and the files and the terminal
-- of the command line, of which a failed write leaves nothing known.
mod Prelude
pub mod Json
pub mod Limits
pub mod External
pub mod Error
pub mod Envelope
pub mod Chain
pub mod SchemaProfile
pub mod Canon
pub mod Ingestion
pub mod Signature
pub mod Trust
pub mod Result
pub mod Verify
pub mod Rbh
pub mod Identity
pub mod Bundle
pub mod Support
pub mod LayeredPack
pub mod DecisionPack
pub mod ClosureGraph
pub mod ClosureBundle
pub mod MriProfile
pub mod Formats
pub mod Cli
pub mod Wasm
mod Tests
