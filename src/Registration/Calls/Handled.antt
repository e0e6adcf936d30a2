-- ===== src/Registration/Calls/Handled.antt =====
-- internal/machinereg/service.go: each call is a step of the relation.
use herdr_pal.Prelude.{
  ℕ, ◌≡◌, refl, List, [], Bool, true, false, ◌||◌, not, Option, none, some, ◌==◌, nat_eq, arith,
  Bool-cases, Option-cases, Result, ok, err, Result-cases, inl, inr,
}
use herdr_pal.Prelude.Maps.{lookup}
use herdr_pal.Prelude.Text.{Text, text_eq, trim_space}
use herdr_pal.Prelude.Unique.{has}
use herdr_pal.Credential.{Error, Record, Primitives}
use herdr_pal.Credential.Sources.{normalize_source_rules}
use herdr_pal.Credential.Key.{valid_principal_id, valid_machine_id}
use herdr_pal.Credential.Store.{CredentialStore, is_of, show_record, delete_record}
use herdr_pal.Registration.{Request, RegistrationError, RegisterInput, RegisterResult, KeyDelivery}
use herdr_pal.Registration.Requests.{Requests, is_for, find_request, show_request, delete_request}
use herdr_pal.Registration.Service.{
  Service, Outside, contains_machine, delivery_of, roll_back, hand_over_first, leave_request,
  register, clean_up, hand_over_approved, approve, reject, normalize_rejection_reason,
  issue_by_hand, with_credential_lock,
}
use herdr_pal.Registration.Calls.{
  Call, register_call, approve_call, reject_call, issue_call, delete_call, change_call,
  change_record, step,
}
use herdr_pal.Registration.Calls.Asked.{
  Created, failed, found, made, create_request-Created, find_request-none, Dropped,
  delete_request-Dropped, delete_request-written, delete_request-unwritten,
}
use herdr_pal.Registration.Calls.Changed.{
  Removed, delete_record-Removed, Changed, change_record-Changed,
}
use herdr_pal.Registration.Calls.Stores.{Issued, refused, with_key, issue-Issued}
use herdr_pal.Registration.Calls.Steps.{
  Kind, registering, approving, rejecting, issuing, deleting, changing, kind, known, IsNew,
  with_new, Step, idle, undone, first_key, asking, approved, approved_only, rejected, by_hand,
  revoked, changed,
}

-- The removal of a key that did not arrive: it is undone, or the key stays.
roll_back-Step :
    (s : Service) (k : Kind) (r : Record) (saved : Bool)
    → IsNew s r
    → Step s k (with_new s r)
    → Step s k
        (record s { credentials = (roll_back (with_key s.credentials r) r.credential_id saved).0 })
unfolding roll_back
roll_back-Step s k r saved n stays =
    removed (delete_record-Removed (with_key s.credentials r) r.credential_id saved)
  where
    removed :
        {out : CredentialStore × Result Error Record}
        → Removed (with_key s.credentials r) r.credential_id out
        → Step s k (record s {
          credentials =
              (elim out.1 as (λ _. CredentialStore × RegistrationError) [
                | ok q ↦ (out.0, RegistrationError.delivery_failed)
                | err e ↦ (out.0, RegistrationError.rollback_failed r.credential_id)
              ]).0;
        })
    removed (Removed.kept e) = stays
    removed (Removed.gone q f) = undone k r n

hand_over_first-Step :
    (s : Service) (user machine : Text) (o : Outside)
    {out : CredentialStore × Result Error (Text × Record)}
    → Issued s.credentials user machine out
    → known s user ≡ false
    → Step s registering (hand_over_first s out o).0
unfolding hand_over_first
hand_over_first-Step s user machine o (refused e) new = idle _
hand_over_first-Step s user machine o (Issued.made token r room own u m free) new =
    let fresh : IsNew s r = (room, own, ground (arith, free, u, m)) in
    let first : Step s registering (with_new s r) = first_key r fresh (ground (arith, u, new)) in
    elim (Bool-cases o.delivered) [
      | inl y ↦ rw y first
      | inr y ↦ rw y (roll_back-Step s registering r o.removal_saved fresh first)
    ]

leave_request-Step :
    (p : Primitives) (is_id : Text → Bool) (s : Service) (input : RegisterInput) (rules : List Text)
    (o : Outside)
    → known s input.principal_id ≡ true
    → has (is_of input.principal_id input.machine_id) s.credentials.records ≡ false
    → Step s registering (leave_request p is_id s input rules o).0
unfolding leave_request
leave_request-Step p is_id s input rules o k free = created (
    create_request-Created p is_id s.requests input.principal_id input.machine_id rules o.candidates
      o.now o.requests_saved)
  where
    created :
        {out : Requests × Result RegistrationError (Request × Bool)}
        → Created s.requests input.principal_id input.machine_id out
        → Step s registering
            (elim out.1
              as (λ _. Service × Result RegistrationError RegisterResult × List KeyDelivery) [
                | err e ↦ (record s { requests = out.0 }, err RegistrationError.invalid_request, [])
                | ok (r, is_new) ↦
                    (record s { requests = out.0 }, ok (RegisterResult.pending r), [])
              ]).0
    created (failed e) = idle _
    created (found r f) = idle _
    created (made r n u m none_yet) =
        asking r n (ground (arith, u, k)) (ground (arith, u, m, free))
          (ground (arith, u, m, none_yet))

pub register-Step :
    (p : Primitives) (is_id : Text → Bool) (s : Service) (input : RegisterInput)
    (can_deliver : Bool) (o : Outside)
    → Step s registering (register p is_id s input can_deliver o).0
unfolding register
register-Step p is_id s input can_deliver o =
    elim (Bool-cases
      (not (valid_principal_id input.principal_id) || not (valid_machine_id input.machine_id))) [
        | inl bad ↦ rw bad (idle _)
        | inr good ↦ rw good (elim (Result-cases (normalize_source_rules p input.sources)) [
          | inr (e, n) ↦ rw (n, register) (idle _)
          | inl (rules, n) ↦
              rw (n, register)
                (elim (Bool-cases
                  (contains_machine s.credentials input.principal_id input.machine_id)) [
                    | inl there ↦ rw there (idle _)
                    | inr free ↦
                        rw free
                          (elim (Option-cases
                            (find_request s.requests input.principal_id input.machine_id)) [
                              | inr (q, f) ↦ rw (f, register) (idle _)
                              | inl none_yet ↦
                                  rw (none_yet, register)
                                    (elim (Bool-cases (known s input.principal_id)) [
                                      | inl k ↦
                                          rw k (leave_request-Step p is_id s input rules o k free)
                                      | inr k ↦ rw k (elim (Bool-cases can_deliver) [
                                        | inr c ↦ rw c (idle _)
                                        | inl c ↦ rw c (
                                            hand_over_first-Step s input.principal_id
                                              input.machine_id o
                                              (issue-Issued p s.credentials input.principal_id
                                                input.machine_id input.sources none o.now o.secret
                                                o.key_saved)
                                              k)
                                      ])
                                    ])
                            ])
                  ])
        ])
      ]

clean_up-Step :
    (s : Service) (id : Text) (q : Request) (r : Record) (sent : KeyDelivery) (saved : Bool)
    → lookup id s.requests ≡ some q
    → r.principal_id ≡ q.principal_id
    → r.machine_id ≡ q.machine_id
    → IsNew s r
    → Step s (approving id) (clean_up s id q (with_key s.credentials r) sent saved).0
unfolding clean_up
clean_up-Step s id q r sent true f u m n =
    let e = delete_request-written s.requests id q f in
    rw (e, clean_up) (rw e (approved id q r f u m n))
clean_up-Step s id q r sent false f u m n =
    let e = delete_request-unwritten s.requests id q f in
    rw (e, clean_up) (rw e (approved_only id q r f u m n))

hand_over_approved-Step :
    (s : Service) (id : Text) (q : Request) (o : Outside)
    {out : CredentialStore × Result Error (Text × Record)}
    → Issued s.credentials q.principal_id q.machine_id out
    → lookup id s.requests ≡ some q
    → Step s (approving id) (hand_over_approved s id q out o).0
unfolding hand_over_approved
hand_over_approved-Step s id q o (refused e) f = idle _
hand_over_approved-Step s id q o (Issued.made token r room own u m free) f =
    let fresh : IsNew s r = (room, own, ground (arith, free, u, m)) in
    elim (Bool-cases o.delivered) [
      | inl y ↦ rw y (clean_up-Step s id q r (delivery_of token r) o.requests_saved f u m fresh)
      | inr y ↦ rw y (
          roll_back-Step s (approving id) r o.removal_saved fresh
            (approved_only id q r f u m fresh))
    ]

pub approve-Step :
    (p : Primitives) (s : Service) (id admin : Text) (can_deliver : Bool) (o : Outside)
    → Step s (approving id) (approve p s id admin can_deliver o).0
unfolding approve show_request
approve-Step p s id admin can_deliver o =
    elim (Bool-cases (not can_deliver || trim_space admin == [])) [
      | inl bad ↦ rw bad (idle _)
      | inr good ↦ rw good (elim (Option-cases (lookup id s.requests)) [
        | inl n ↦ rw (n, approve) (idle _)
        | inr (q, f) ↦
            rw (f, approve)
              (elim (Bool-cases (contains_machine s.credentials q.principal_id q.machine_id)) [
                | inl there ↦ rw there (idle _)
                | inr free ↦ rw free (
                    hand_over_approved-Step s id q o
                      (issue-Issued p s.credentials q.principal_id q.machine_id q.allowed_sources
                        none o.now o.secret o.key_saved)
                      f)
              ])
      ])
    ]

rejected-Step :
    (s : Service) (id admin reason normalized : Text) (can_deliver : Bool) (o : Outside)
    → (trim_space admin == []) ≡ false
    → normalize_rejection_reason reason ≡ ok normalized
    → {out : Requests × Result RegistrationError Request}
    → delete_request s.requests id o.requests_saved ≡ out
    → Dropped s.requests id out
    → Step s (rejecting id) (reject s id admin reason can_deliver o).0
unfolding reject
rejected-Step s id admin reason normalized can_deliver o good n e (Dropped.kept _) =
    rw (good, n, e, reject) (rw e (idle _))
rejected-Step s id admin reason normalized can_deliver o good n e (Dropped.gone q f) =
    rw (good, n, e, reject) (rw e (rejected id q f))

pub reject-Step :
    (s : Service) (id admin reason : Text) (can_deliver : Bool) (o : Outside)
    → Step s (rejecting id) (reject s id admin reason can_deliver o).0
unfolding reject
reject-Step s id admin reason can_deliver o = elim (Bool-cases (trim_space admin == [])) [
  | inl bad ↦ rw bad (idle _)
  | inr good ↦ elim (Result-cases (normalize_rejection_reason reason)) [
    | inr (e, n) ↦ rw (good, n, reject) (idle _)
    | inl (normalized, n) ↦
        rejected-Step s id admin reason normalized can_deliver o good n refl
          (delete_request-Dropped s.requests id o.requests_saved)
  ]
]

made_by_hand :
    (s : Service) (user machine : Text) {out : CredentialStore × Result Error (Text × Record)}
    → Issued s.credentials user machine out
    → has (is_for user machine) s.requests ≡ false
    → Step s issuing (record s { credentials = out.0 })
made_by_hand s user machine (refused e) n = idle _
made_by_hand s user machine (Issued.made token r room own u m free) n =
    by_hand r (room, own, ground (arith, free, u, m)) (ground (arith, n, u, m))

pub issue_by_hand-Step :
    (p : Primitives) (s : Service) (user machine : Text) (sources : List Text)
    (expires_at : Option ℕ) (o : Outside)
    → Step s issuing (issue_by_hand p s user machine sources expires_at o).0
unfolding issue_by_hand
issue_by_hand-Step p s user machine sources expires_at o =
    elim (Bool-cases (valid_principal_id user)) [
      | inr bad ↦ rw bad (idle _)
      | inl good ↦ rw good (elim (Option-cases (find_request s.requests user machine)) [
        | inr (q, f) ↦ rw (f, issue_by_hand) (idle _)
        | inl n ↦
            rw (n, issue_by_hand)
              (made_by_hand s user machine
                (issue-Issued p s.credentials user machine sources expires_at o.now o.secret
                  o.key_saved)
                (find_request-none s.requests user machine n))
      ])
    ]

locked-Step :
    (s : Service) (k : Kind) (id : ℕ)
    (operation : CredentialStore → CredentialStore × Result Error Record)
    → Step s k (record s { credentials = (operation s.credentials).0 })
    → Step s k (with_credential_lock s id operation).0
unfolding with_credential_lock
locked-Step s k id operation h = elim (Result-cases (show_record s.credentials id)) [
  | inr (e, n) ↦ rw (n, with_credential_lock) (idle _)
  | inl (r, n) ↦ rw (n, with_credential_lock) h
]

removed-Step :
    (s : Service) (id : ℕ) {out : CredentialStore × Result Error Record}
    → Removed s.credentials id out
    → Step s deleting (record s { credentials = out.0 })
removed-Step s id (Removed.kept e) = idle _
removed-Step s id (Removed.gone r f) = revoked id r f

changed-Step :
    (s : Service) (id : ℕ) {out : CredentialStore × Result Error Record}
    → Changed s.credentials id out
    → Step s changing (record s { credentials = out.0 })
changed-Step s id (Changed.same res) = idle _
changed-Step s id (Changed.written old new f k) = changed id old new f k

-- Each call of the service is a step of its kind.
pub step-Step :
    (p : Primitives) (is_id : Text → Bool) (s : Service) (c : Call)
    → Step s (kind c) (step p is_id s c)
unfolding step
step-Step p is_id s (register_call input can_deliver o) =
    register-Step p is_id s input can_deliver o
step-Step p is_id s (approve_call id admin can_deliver o) = approve-Step p s id admin can_deliver o
step-Step p is_id s (reject_call id admin reason can_deliver o) =
    reject-Step s id admin reason can_deliver o
step-Step p is_id s (issue_call user machine sources expires_at o) =
    issue_by_hand-Step p s user machine sources expires_at o
step-Step p is_id s (delete_call id saved) =
    locked-Step s deleting id (λ c. delete_record c id saved)
      (removed-Step s id (delete_record-Removed s.credentials id saved))
step-Step p is_id s (change_call id change now saved) =
    locked-Step s changing id (change_record p id change now saved)
      (changed-Step s id (change_record-Changed p id change now saved s.credentials))
