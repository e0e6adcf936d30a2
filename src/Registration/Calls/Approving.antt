-- ===== src/Registration/Calls/Approving.antt =====
-- internal/machinereg/service.go: what each result of `Approve` says.
use herdr_pal.Prelude.{
  ℕ, ◌≡◌, refl, List, [], ◌∷◌, Bool, true, false, ◌||◌, not, Option, none, some, ◌==◌, nat_eq,
  arith, ap, sym, ◌∙◌, Bool-cases, Option-cases, Result, ok, err, inl, inr,
}
use herdr_pal.Prelude.Maps.{lookup, insert, delete, lookup-insert_self, lookup-delete_self}
use herdr_pal.Prelude.Text.{Text, text_eq, trim_space}
use herdr_pal.Credential.{Error, Record, Primitives}
use herdr_pal.Credential.Key.{issue_key}
use herdr_pal.Credential.Store.{CredentialStore, issue}
use herdr_pal.Credential.Token.{token_text}
use herdr_pal.Credential.Verified.{issue_ok}
use herdr_pal.Registration.{
  Request, RegistrationError, invalid_request, request_not_found, machine_exists, delivery_failed,
  persist_failed, rollback_failed, cleanup_failed, credential_error, KeyDelivery, ApprovalResult,
}
use herdr_pal.Registration.Requests.{Requests, show_request}
use herdr_pal.Registration.Service.{
  Service, Outside, contains_machine, delivery_of, roll_back, clean_up, hand_over_approved, approve,
}
use herdr_pal.Registration.Calls.Asked.{delete_request-written, delete_request-unwritten}
use herdr_pal.Registration.Calls.Changed.{Removed, delete_record-Removed}
use herdr_pal.Registration.Calls.Keeping.{IsSound, undone_records}
use herdr_pal.Registration.Calls.Steps.{IsNew}
use herdr_pal.Registration.Calls.Stores.{Issued, next_is_new, refused, with_key, issue-Issued}

-- The token that the random secret makes for a record which keeps its digest.
abbrev pub IsTokenOf : Primitives → Option Text → Text → Record → Type 0
IsTokenOf p random token r =
    (secret : Text) × (random ≡ some secret)
    × (token ≡ token_text r.credential_id secret)
    × (r.secret_sha256 ≡ p.hex_encode (p.sha256 secret))

-- The keys are those of before and one of this number, which is new, for the machine of a request,
-- and its token was handed over to the user who asked, and nothing else was.
abbrev pub HasGiven :
    Primitives → Option Text → Service → Service → ℕ → Request → List KeyDelivery → Type 0
HasGiven p random s t id q sent =
    (r : Record) × (token : Text) × (lookup id s.credentials.records ≡ none)
    × (t.credentials.records ≡ insert id r s.credentials.records)
    × (lookup id t.credentials.records ≡ some r)
    × (r.credential_id ≡ id)
    × (r.principal_id ≡ q.principal_id)
    × (r.machine_id ≡ q.machine_id)
    × IsTokenOf p random token r
    × (sent
        ≡ record {
          principal_id = q.principal_id;
          machine_id = q.machine_id;
          credential_id = id;
          token = token;
        }
          ∷ [])

-- What a result of `Approve` says of the service before and after, and of the keys handed over.
abbrev pub Says :
    Primitives
    → Option Text
    → Service
    → Text
    → Service
    → List KeyDelivery
    → Result RegistrationError ApprovalResult
    → Type 0
Says p random s id t sent (ok a) =
    (lookup id s.requests ≡ some a.request)
    × (lookup id t.requests ≡ none)
    × (t.requests ≡ delete id s.requests)
    × HasGiven p random s t a.credential_id a.request sent
Says p random s id t sent (err (rollback_failed n)) =
    (q : Request) × (lookup id s.requests ≡ some q)
    × (t.requests ≡ s.requests)
    × HasGiven p random s t n q sent
Says p random s id t sent (err (cleanup_failed n)) =
    (q : Request) × (lookup id s.requests ≡ some q)
    × (t.requests ≡ s.requests)
    × HasGiven p random s t n q sent
Says p random s id t sent (err delivery_failed) =
    (t.credentials.records ≡ s.credentials.records) × (t.requests ≡ s.requests)
Says p random s id t sent (err invalid_request) = (t ≡ s) × (sent ≡ [])
Says p random s id t sent (err request_not_found) = (t ≡ s) × (sent ≡ [])
Says p random s id t sent (err machine_exists) = (t ≡ s) × (sent ≡ [])
Says p random s id t sent (err persist_failed) = (t ≡ s) × (sent ≡ [])
Says p random s id t sent (err (credential_error e)) = (t ≡ s) × (sent ≡ [])

abbrev Answers :
    Primitives
    → Option Text
    → Service
    → Text
    → Service × Result RegistrationError ApprovalResult × List KeyDelivery
    → Type 0
Answers p random s id (t, res, sent) = Says p random s id t sent res

-- What issuing and keeping a key gave.
abbrev IsGiven : Primitives → Option Text → Service → Request → Record → Text → Type 0
IsGiven p random s q r token =
    IsNew s r
    × (r.principal_id ≡ q.principal_id)
    × (r.machine_id ≡ q.machine_id)
    × IsTokenOf p random token r

given :
    (p : Primitives) (random : Option Text) (s : Service) (m : Requests) (q : Request) (r : Record)
    (token : Text)
    → IsSound s
    → IsGiven p random s q r token
    → HasGiven p random s
        (record { credentials = with_key s.credentials r; requests = m })
        r.credential_id
        q
        (delivery_of token r ∷ [])
given p random s m q r token h (n, u, k, z) =
    let at = n.1 in
    (
      r,
      token,
      ap (λ id. lookup id s.credentials.records) at
          ∙ next_is_new s.credentials.next_id s.credentials.records h.keys.fresh n.0,
      ap (λ id. insert id r s.credentials.records) (sym at),
      ap (λ id. lookup id (insert s.credentials.next_id r s.credentials.records)) at
          ∙ lookup-insert_self s.credentials.next_id r s.credentials.records,
      refl,
      u,
      k,
      z,
      ground (arith, u, k),
    )

clean_up_saved :
    (s : Service) (id : Text) (q : Request) (c : CredentialStore) (sent : KeyDelivery)
    → lookup id s.requests ≡ some q
    → clean_up s id q c sent true ≡ (
      record { credentials = c; requests = delete id s.requests },
      ok (record { request = q; credential_id = sent.credential_id }),
      sent ∷ [],
    )
unfolding clean_up
clean_up_saved s id q c sent f = ground (arith, delete_request-written s.requests id q f)

clean_up_failed :
    (s : Service) (id : Text) (q : Request) (c : CredentialStore) (sent : KeyDelivery)
    → lookup id s.requests ≡ some q
    → clean_up s id q c sent false ≡ (
      record { credentials = c; requests = s.requests },
      err (cleanup_failed sent.credential_id),
      sent ∷ [],
    )
unfolding clean_up
clean_up_failed s id q c sent f = ground (arith, delete_request-unwritten s.requests id q f)

clean_up-Answers :
    (p : Primitives) (random : Option Text) (s : Service) (id : Text) (q : Request) (r : Record)
    (token : Text) (saved : Bool)
    → IsSound s
    → lookup id s.requests ≡ some q
    → IsGiven p random s q r token
    → Answers p random s id (clean_up s id q (with_key s.credentials r) (delivery_of token r) saved)
clean_up-Answers p random s id q r token true h f g =
    rw (clean_up_saved s id q (with_key s.credentials r) (delivery_of token r) f) (
      f,
      lookup-delete_self id s.requests,
      refl,
      given p random s (delete id s.requests) q r token h g,
    )
clean_up-Answers p random s id q r token false h f g =
    rw (clean_up_failed s id q (with_key s.credentials r) (delivery_of token r) f)
      (q, f, refl, given p random s s.requests q r token h g)

roll_back-Answers :
    (p : Primitives) (random : Option Text) (s : Service) (id : Text) (q : Request) (r : Record)
    (token : Text) (saved : Bool)
    → IsSound s
    → lookup id s.requests ≡ some q
    → IsGiven p random s q r token
    → let back = roll_back (with_key s.credentials r) r.credential_id saved in
      Says p random s id (record s { credentials = back.0 }) (delivery_of token r ∷ []) (err back.1)
unfolding roll_back
roll_back-Answers p random s id q r token saved h f g =
    removed (delete_record-Removed (with_key s.credentials r) r.credential_id saved)
  where
    removed :
        {out : CredentialStore × Result Error Record}
        → Removed (with_key s.credentials r) r.credential_id out
        → let back = elim out.1 as (λ _. CredentialStore × RegistrationError) [
          | ok gone ↦ (out.0, delivery_failed)
          | err e ↦ (out.0, rollback_failed r.credential_id)
        ] in
          Says p random s id
            (record s { credentials = back.0 })
            (delivery_of token r ∷ [])
            (err back.1)
    removed (Removed.kept e) = (q, f, refl, given p random s s.requests q r token h g)
    removed (Removed.gone gone found) = (undone_records s r h g.0, refl)

hand_over_approved-Answers :
    (p : Primitives) (random : Option Text) (s : Service) (id : Text) (q : Request) (o : Outside)
    {out : CredentialStore × Result Error (Text × Record)}
    → Issued s.credentials q.principal_id q.machine_id out
    → ((token : Text) (r : Record) → out.1 ≡ ok (token, r) → IsTokenOf p random token r)
    → IsSound s
    → lookup id s.requests ≡ some q
    → Answers p random s id (hand_over_approved s id q out o)
unfolding hand_over_approved
hand_over_approved-Answers p random s id q o (refused e) z h f = (refl, refl)
hand_over_approved-Answers p random s id q o (Issued.made token r room own u m free) z h f =
    let fresh : IsNew s r = (room, own, ground (arith, free, u, m)) in
    let g : IsGiven p random s q r token = (fresh, u, m, z token r refl) in
    elim (Bool-cases o.delivered) [
      | inl y ↦ rw y (clean_up-Answers p random s id q r token o.requests_saved h f g)
      | inr y ↦ rw y (roll_back-Answers p random s id q r token o.removal_saved h f g)
    ]

issue_key-IsTokenOf :
    (p : Primitives) (id : ℕ) (user machine : Text) (rules : List Text) (expires : Option ℕ)
    (now : ℕ) (random : Option Text) (token : Text) (r : Record)
    → issue_key p id user machine rules expires now random ≡ ok (token, r)
    → IsTokenOf p random token r
unfolding issue_key
issue_key-IsTokenOf p id user machine rules expires now none token r e = ground (arith, e)
issue_key-IsTokenOf p id user machine rules expires now (some secret) token r e =
    (secret, refl, ground (arith, e), ground (arith, e))

issue-IsTokenOf :
    (p : Primitives) (c : CredentialStore) (user machine : Text) (sources : List Text)
    (expires : Option ℕ) (now : ℕ) (random : Option Text) (saved : Bool) (token : Text) (r : Record)
    → (issue p c user machine sources expires now random saved).1 ≡ ok (token, r)
    → IsTokenOf p random token r
issue-IsTokenOf p c user machine sources expires now random saved token r e =
    let (rules, key, kept) = issue_ok p c user machine sources expires now random saved token r e in
    issue_key-IsTokenOf p c.next_id user machine rules expires now random token r key

-- In a sound service, when `Approve` succeeds the request is gone and no other is, the only new key
-- is one of the machine under a number that no key had, and it is the number returned. All that was
-- handed over is its token, which the random secret makes and whose digest the key keeps, to the
-- user who asked. If the key could not be removed again, or the request could not, the error names
-- the key, which was handed over in the same way, and the requests stay. If the key could not be
-- delivered and was removed, keys and requests are as before. On any other error nothing has changed
-- and no key is handed over.
pub approve-Says :
    (p : Primitives) (s : Service) (id admin : Text) (can_deliver : Bool) (o : Outside)
    → IsSound s
    → let (t, res, sent) = approve p s id admin can_deliver o in Says p o.secret s id t sent res
unfolding approve show_request
approve-Says p s id admin can_deliver o h =
    elim (Bool-cases (not can_deliver || trim_space admin == [])) [
      | inl bad ↦ rw bad (refl, refl)
      | inr good ↦ rw good (elim (Option-cases (lookup id s.requests)) [
        | inl n ↦ rw (n, approve) (refl, refl)
        | inr (q, f) ↦
            rw (f, approve)
              (elim (Bool-cases (contains_machine s.credentials q.principal_id q.machine_id)) [
                | inl there ↦ rw there (refl, refl)
                | inr free ↦ rw free (
                    hand_over_approved-Answers p o.secret s id q o
                      (issue-Issued p s.credentials q.principal_id q.machine_id q.allowed_sources
                        none o.now o.secret o.key_saved)
                      (issue-IsTokenOf p s.credentials q.principal_id q.machine_id q.allowed_sources
                        none o.now o.secret o.key_saved)
                      h f)
              ])
      ])
    ]
