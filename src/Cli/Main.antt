-- ===== src/Cli/Main.antt =====
-- src/bin/vr_verify.rs: the whole program, from its arguments to its exit code.
use vertrule_verifier.Prelude.{
  ℕ, ◌≡◌, ◌↔◌, refl, sym, subst, String, Option, none, some, List, [], ◌∷◌, Result, ok, err, true,
  false, ↔_trans, ok-injective,
}
use vertrule_verifier.External.{External}
use vertrule_verifier.Result.{VerificationStatus}
use vertrule_verifier.Support.{Packs}
use vertrule_verifier.Rbh.{Metadata, verify_external_receipt}
use vertrule_verifier.Formats.{Formats}
use vertrule_verifier.Cli.Args.{parse_limit_args, parse_trust_arg}
use vertrule_verifier.Cli.Exit.{command_of-some_iff, exit_code-ne-two}
use vertrule_verifier.Cli.{
  with_file, run_command, dispatch, main, run_receipt, run_chain, run_signed, run_bundle,
  run_layered, run_decision, run_closure, run_external,
}
use vertrule_verifier.Cli.Terminal.{
  Host, Output, Command, receipt, chain, signed, bundle, layered, decision, closure, external,
  command_name, command_of, flagged, sole,
}
use vertrule_verifier.Cli.Reports.{
  Says, Reports, with_file-Says_iff, emit_canonical-Says_iff, signed_output-Says_iff,
  external_output-Says_iff,
}

Σ_iff :
    {A : Type 0} {R P Q : A → Type 0}
    → ((a : A) → P a ↔ Q a)
    → ((a : A) × R a × P a) ↔ ((a : A) × R a × Q a)
Σ_iff f = (λ h. (h.0, h.1, (f h.0).0 h.2), λ h. (h.0, h.1, (f h.0).1 h.2))

flagged-Says_iff :
    {A : Type 0} (run : A → Output) (r : Result String A) (s : VerificationStatus)
    → Says (flagged run r) s ↔ ((a : A) × (r ≡ ok a) × Says (run a) s)
flagged-Says_iff run (ok a) s =
    (λ q. (a, refl, q), λ q. subst (λ b. Says (run b) s) (sym (ok-injective q.1)) q.2)
flagged-Says_iff run (err e) s = (λ q. absurd (exit_code-ne-two s q), λ q. cc q.1)

sole-Says_iff :
    (name : String) (rest : List String) (run : Output) (s : VerificationStatus)
    → Says (sole name rest run) s ↔ ((rest ≡ []) × Says run s)
sole-Says_iff name [] run s = (λ q. (refl, q), λ q. q.1)
sole-Says_iff name (extra ∷ rest) run s = (λ q. absurd (exit_code-ne-two s q), λ q. cc q.0)

sole_iff :
    {P : Type 0} (name : String) (rest : List String) (run : Output) (s : VerificationStatus)
    → Says run s ↔ P
    → Says (sole name rest run) s ↔ ((rest ≡ []) × P)
sole_iff name rest run s f =
    ↔_trans (sole-Says_iff name rest run s) (λ q. (q.0, f.0 q.1), λ q. (q.0, f.1 q.1))

module _ ⦃h : Host⦄ ⦃x : External⦄ ⦃f : Formats⦄ ⦃p : Packs⦄ ⦃m : Metadata⦄ where
  open h use {read}
  open x use {to_canon_bytes_from_slice}
  open m use {VerifiedReceiptMetadata, metadata_to_vec}

  read_iff :
      {P : List ℕ → Type 0} (path : String) (rest : List ℕ → Output) (s : VerificationStatus)
      → ((bytes : List ℕ) → Says (rest bytes) s ↔ P bytes)
      → Says (with_file path rest (read path)) s
        ↔ ((bytes : List ℕ) × (read path ≡ ok bytes) × P bytes)
  read_iff path rest s f = ↔_trans (with_file-Says_iff path rest (read path) s) (Σ_iff f)

  run_command-Says_iff :
      (c : Command) (path : String) (rest : List String) (s : VerificationStatus)
      → Says (run_command c path rest) s ↔ Reports c path rest s
  run_command-Says_iff receipt path rest s =
      ↔_trans (flagged-Says_iff (run_receipt path) (parse_limit_args rest false) s)
        (Σ_iff (λ limits. read_iff path _ s (λ bytes. emit_canonical-Says_iff _ _ _ s)))
  run_command-Says_iff chain path rest s =
      ↔_trans (flagged-Says_iff (run_chain path) (parse_limit_args rest true) s)
        (Σ_iff (λ limits. read_iff path _ s (λ bytes. emit_canonical-Says_iff _ _ _ s)))
  run_command-Says_iff signed path [] s = (λ q. absurd (exit_code-ne-two s q), λ q. absurd q)
  run_command-Says_iff signed path (sig ∷ flags) s =
      ↔_trans (flagged-Says_iff (run_signed path sig) (parse_trust_arg flags) s) (
        Σ_iff (λ trust.
          read_iff path _ s
            (λ raw. read_iff sig _ s (λ bytes. signed_output-Says_iff trust raw bytes s))))
  run_command-Says_iff bundle path rest s =
      sole_iff "bundle" rest (run_bundle path) s
        (read_iff path _ s (λ bytes. emit_canonical-Says_iff _ _ _ s))
  run_command-Says_iff layered path rest s =
      sole_iff "layered" rest (run_layered path) s
        (read_iff path _ s (λ bytes. emit_canonical-Says_iff _ _ _ s))
  run_command-Says_iff decision path rest s =
      sole_iff "decision" rest (run_decision path) s
        (read_iff path _ s (λ bytes. emit_canonical-Says_iff _ _ _ s))
  run_command-Says_iff closure path rest s =
      sole_iff "closure" rest (run_closure path) s
        (read_iff path _ s (λ bytes. emit_canonical-Says_iff _ _ _ s))
  run_command-Says_iff external path rest s =
      sole_iff "external" rest (run_external path) s
        (read_iff path _ s (λ bytes. external_output-Says_iff (verify_external_receipt bytes) s))

  -- The program is run with a command, its arguments and a report.
  pub record IsReported (args : List String) (s : VerificationStatus) : Type 0 where
    pub program : String
    pub command : Command
    pub path : String
    pub rest : List String
    pub is_args : args ≡ program ∷ command_name command ∷ path ∷ rest
    pub reports : Reports command path rest s

  dispatch-Says_iff :
      (name : String) (found : Option Command) (path : String) (rest : List String)
      (s : VerificationStatus)
      → Says (dispatch name found path rest) s
        ↔ ((c : Command) × (found ≡ some c) × Reports c path rest s)
  dispatch-Says_iff name none path rest s = (λ q. absurd (exit_code-ne-two s q), λ q. cc q.1)
  dispatch-Says_iff name (some d) path rest s =
      let run = run_command-Says_iff d path rest s in
      (λ q. (d, refl, run.0 q), λ q. run.1 (subst (λ c. Reports c path rest s) (cc q.1) q.2))

  -- The program exits with 0 for a valid and with 1 for an invalid verdict exactly when its arguments
  -- are a known command with a path and well-formed further arguments, every file that these name is
  -- read, the verdict of that command on what is read is the given one, and its canonical form, which
  -- an external receipt has only if it is verified, is made and written.
  pub main-Says_iff :
      (args : List String) (s : VerificationStatus) → Says (main args) s ↔ IsReported args s
  unfolding main
  main-Says_iff [] s = (λ q. absurd (exit_code-ne-two s q), λ q. cc q.is_args)
  main-Says_iff (program ∷ []) s = (λ q. absurd (exit_code-ne-two s q), λ q. cc q.is_args)
  main-Says_iff (program ∷ name ∷ []) s = (λ q. absurd (exit_code-ne-two s q), λ q. cc q.is_args)
  main-Says_iff (program ∷ name ∷ path ∷ rest) s =
      let run = dispatch-Says_iff name (command_of name) path rest s in
      (
        λ q.
            let (c, found, reports) = run.0 q in
            record {
              program = program;
              command = c;
              path = path;
              rest = rest;
              is_args = let named = (command_of-some_iff name c).0 found in cc named;
              reports = reports;
            },
        λ q.
            let named : name ≡ command_name q.command = cc q.is_args in
            let same_path : q.path ≡ path = cc q.is_args in
            let same_rest : q.rest ≡ rest = cc q.is_args in
            run.1 (
              q.command,
              (command_of-some_iff name q.command).1 named,
              subst (λ t. Reports q.command t rest s) same_path
                  (subst (λ t. Reports q.command q.path t s) same_rest q.reports),
            ),
      )
