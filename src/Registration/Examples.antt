-- ===== src/Registration/Examples.antt =====
-- Tests of registration, and its theorems on small services.
use herdr_pal.Prelude.{◌≡◌, refl, [], ◌∷◌, Bool, true, false, ◌==◌, nat_eq, ◌&&◌, ℕ_discrete, err}
use herdr_pal.Prelude.Sort.{sort}
use herdr_pal.Hprp.Validate.{validate_machine_id}
use herdr_pal.Prelude.Maps.{lookup, insert, delete}
use herdr_pal.Prelude.Text.{Text, text_eq, Text-discrete, codes, trim_space, byte_len, is_control}
use herdr_pal.Credential.Key.{issue_key}
use herdr_pal.Credential.Sources.{normalize_source_rules, validate_source_rules}
use herdr_pal.Credential.Store.{issue, delete_record}
use herdr_pal.Registration.{RegisterInput, RegistrationError}
use herdr_pal.Registration.Sample.{plain, alice, sample, sample-IsSound, fine, silent}
use herdr_pal.Registration.Requests.{show_request, delete_request}
use herdr_pal.Registration.Service.{approve}
use herdr_pal.Registration.Calls.{register_call, approve_call, step, run}
use herdr_pal.Registration.Calls.Approving.{Says, approve-Says}
use herdr_pal.Registration.Calls.Keeping.{IsSound, new_service, service_run-IsSound}
use herdr_pal.Registration.Calls.Phases.{phase, granted, Move}
use herdr_pal.Registration.Calls.Single.{step-Refines}
use herdr_pal.Registration.Calls.Steps.{kind, known}

abbrev any_id : Text → Bool
any_id s = true

abbrev laptop : RegisterInput
laptop = record {
  principal_id = alice;
  machine_id = codes "laptop";
  sources = codes "10.0.0.1" ∷ [];
}

abbrev desktop : RegisterInput
desktop = record {
  principal_id = alice;
  machine_id = codes "desktop";
  sources = codes "10.0.0.2" ∷ [];
}

service_run-IsSound_example : IsSound (
    run plain any_id new_service (
      register_call laptop true fine
      ∷ register_call desktop true fine
      ∷ approve_call (codes "reg_2") (codes "root") true silent
      ∷ []))
service_run-IsSound_example = service_run-IsSound plain any_id (
    register_call laptop true fine
    ∷ register_call desktop true fine
    ∷ approve_call (codes "reg_2") (codes "root") true silent
    ∷ [])

approved_phase :
    phase
      (step plain any_id sample (approve_call (codes "reg_1") (codes "root") true fine))
      alice
      (codes "desktop")
    ≡ granted
unfolding step approve show_request issue normalize_source_rules issue_key validate_source_rules
    delete_request lookup insert delete trim_space byte_len Text-discrete ℕ_discrete is_control
    validate_machine_id sort
approved_phase = refl

undelivered :
    (approve plain sample (codes "reg_1") (codes "root") true silent).1
    ≡ err RegistrationError.delivery_failed
unfolding approve show_request issue normalize_source_rules issue_key validate_source_rules
    delete_record delete_request lookup insert delete trim_space byte_len Text-discrete ℕ_discrete
    is_control validate_machine_id sort
undelivered = refl

step-Refines_example :
    (own_user own_machine : Text) × ((user machine : Text)
      → Move
          (known sample user)
          (kind (approve_call (codes "reg_1") (codes "root") true fine))
          (phase sample user machine)
          (phase
            (step plain any_id sample (approve_call (codes "reg_1") (codes "root") true fine))
            user
            machine)
        × (((own_user == user) && (own_machine == machine)) ≡ false
            → phase
                (step plain any_id sample (approve_call (codes "reg_1") (codes "root") true fine))
                user
                machine
              ≡ phase sample user machine))
step-Refines_example =
    step-Refines plain any_id sample (approve_call (codes "reg_1") (codes "root") true fine)
      sample-IsSound

approve-Says_example :
    let (t, res, sent) = approve plain sample (codes "reg_1") (codes "root") true silent in
    Says plain silent.secret sample (codes "reg_1") t sent res
approve-Says_example =
    approve-Says plain sample (codes "reg_1") (codes "root") true silent sample-IsSound
