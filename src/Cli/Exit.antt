-- ===== src/Cli/Exit.antt =====
-- src/bin/vr_verify.rs: the texts of the commands, and the exit codes.
use vertrule_verifier.Prelude.{
  ℕ, ◌≡◌, ◌↔◌, refl, subst, String, Option, none, some, str_eq, eq_iff, Bool-cases, inl, inr, arith,
  if◌then◌else◌,
}
use vertrule_verifier.Result.{VerificationStatus, valid, invalid}
use vertrule_verifier.Cli.Terminal.{
  Command, receipt, chain, signed, bundle, layered, decision, closure, external, command_name,
  command_of, exit_code,
}

-- An arm of the match on the command.
arm :
    (s name : String) (d c : Command) (rest : Option Command)
    → name ≡ command_name d
    → (rest ≡ some c → s ≡ command_name c)
    → (if str_eq s name then some d else rest) ≡ some c
    → s ≡ command_name c
arm s name d c rest named others h = elim (Bool-cases (str_eq s name)) [
  | inl p ↦
      let same : d ≡ c = ground (arith, p, h) in
      subst (λ k. s ≡ command_name k) same (cc ((eq_iff s name).0 p, named))
  | inr p ↦ others (ground (arith, p, h))
]

command_of-name : (c : Command) → command_of (command_name c) ≡ some c
unfolding command_of
command_of-name receipt = refl
command_of-name chain = refl
command_of-name signed = refl
command_of-name bundle = refl
command_of-name layered = refl
command_of-name decision = refl
command_of-name closure = refl
command_of-name external = refl

pub command_of-some_iff :
    (s : String) (c : Command) → (command_of s ≡ some c) ↔ (s ≡ command_name c)
unfolding command_of
command_of-some_iff s c = (
  arm s "receipt" receipt c _ refl (
      arm s "chain" chain c _ refl (
        arm s "signed" signed c _ refl (
          arm s "bundle" bundle c _ refl (
            arm s "layered" layered c _ refl (
              arm s "decision" decision c _ refl (
                arm s "closure" closure c _ refl
                  (arm s "external" external c none refl (λ h. cc h)))))))),
  λ h. rw h (command_of-name c),
)

pub exit_code-ne-two : (s : VerificationStatus) → ¬ (◌≡◌ {A = ℕ} 2 (exit_code s))
exit_code-ne-two valid h = cc
exit_code-ne-two invalid h = cc

pub exit_code-injective : (s t : VerificationStatus) → exit_code s ≡ exit_code t → s ≡ t
exit_code-injective valid valid h = refl
exit_code-injective valid invalid h = cc
exit_code-injective invalid valid h = cc
exit_code-injective invalid invalid h = refl
