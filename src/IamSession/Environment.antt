-- ===== src/IamSession/Environment.antt =====
-- The environment in which iam/session/main.go runs its command.
use awstools.Prelude.{
  ◌≡◌, refl, sym, ap, ◌∙◌, Bool, true, false, List, [], ◌∷◌, ◌++◌, Bool-cases, inl, inr,
}
use awstools.Prelude.Text.{Text, has_prefix}
use awstools.Common.Iam.{Config, CredentialsValue}
use awstools.IamSession.{
  is_aws, variable_name, without_aws, aws_variables, has_credentials, child_environment,
}

-- The variables whose name starts with AWS, and the others, in order.
abbrev pub select : Bool → List Text → List Text
select wanted [] = []
select wanted (v ∷ env) = elim (is_aws v) [
  | true ↦ elim wanted [ true ↦ v ∷ select wanted env | false ↦ select wanted env ]
  | false ↦ elim wanted [ true ↦ select wanted env | false ↦ v ∷ select wanted env ]
]

select_without : (env : List Text) → select true (without_aws env) ≡ []
unfolding without_aws
select_without [] = refl
select_without (v ∷ env) = elim (Bool-cases (is_aws v)) [
  | inl aws ↦ rw (aws, without_aws) (select_without env)
  | inr other ↦ rw (other, without_aws, select) (rw other (select_without env))
]

without_aws-other :
    (v : Text) (env : List Text) → is_aws v ≡ false → without_aws (v ∷ env) ≡ v ∷ without_aws env
unfolding without_aws
without_aws-other v env other = rw (other, without_aws) refl

select_other :
    (v : Text) (env : List Text) → is_aws v ≡ false → select false (v ∷ env) ≡ v ∷ select false env
select_other v env other = rw (other, select) refl

select_twice : (env : List Text) → select false (without_aws env) ≡ select false env
unfolding without_aws
select_twice [] = refl
select_twice (v ∷ env) = elim (Bool-cases (is_aws v)) [
  | inl aws ↦ rw (aws, without_aws, select) (select_twice env)
  | inr other ↦
      ap (λ (xs : List Text). select false xs) (without_aws-other v env other)
      ∙ (select_other v (without_aws env) other
          ∙ (ap (λ (rest : List Text). v ∷ rest) (select_twice env)
              ∙ sym (select_other v env other)))
]

-- Where there are credentials, the command has the four variables of AWS that the program sets and
-- none of the others, and every variable that is not of AWS, in order.
pub child_environment-select :
    (env : List Text) (conf : Config) (creds : CredentialsValue)
    → has_credentials conf.credentials ≡ true
    → (select true (child_environment env conf creds) ≡ aws_variables conf.region creds)
      × (select false (child_environment env conf creds) ≡ select false env)
unfolding child_environment variable_name has_prefix
child_environment-select env conf creds given = (
  rw (given, child_environment)
      (ap (λ (xs : List Text). aws_variables conf.region creds ++ xs) (select_without env)),
  rw (given, child_environment) (select_twice env),
)
