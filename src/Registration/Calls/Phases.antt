-- ===== src/Registration/Calls/Phases.antt =====
-- internal/machinereg: the contract of registration, as the life of one machine of a user.
use herdr_pal.Prelude.{
  ℕ, ◌≡◌, refl, [], ◌∷◌, Bool, true, false, ◌||◌, ◌&&◌, not, none, some, nat_eq, arith, sym, ap,
  ◌∙◌, Bool-cases, inl, inr,
}
use herdr_pal.Prelude.Maps.{lookup, insert, delete}
use herdr_pal.Prelude.Text.{Text, text_eq}
use herdr_pal.Prelude.Unique.{has, has-insert_new, has-insert_old, has-delete, lookup-has}
use herdr_pal.Credential.{Record}
use herdr_pal.Credential.Store.{is_of}
use herdr_pal.Registration.{Request}
use herdr_pal.Registration.Requests.{Requests, is_for, requests_of}
use herdr_pal.Registration.Service.{Service}
use herdr_pal.Registration.Calls.Changed.{Keeps-is_of}
use herdr_pal.Registration.Calls.Keeping.{IsSound, undone_records}
use herdr_pal.Registration.Calls.Steps.{
  Kind, registering, approving, rejecting, issuing, deleting, changing, known, IsNew, with_new,
  without_request, with_request, with_records, Step, idle, undone, first_key, asking, approved,
  approved_only, rejected, by_hand, revoked, changed,
}
use herdr_pal.Registration.Calls.Stores.{with_key, next_is_new}

-- A machine has no key and no request, a request, a key, or a key and a request that was not
-- cleaned up.
pub data Phase : Type 0 where
  absent asked granted leftover : Phase

abbrev pub phase_of : Bool → Bool → Phase
phase_of false false = absent
phase_of false true = asked
phase_of true false = granted
phase_of true true = leftover

-- The phase of a machine in the service.
abbrev pub phase : Service → Text → Text → Phase
phase s user machine =
    phase_of (has (is_of user machine) s.credentials.records) (has (is_for user machine) s.requests)

-- The moves of the contract. Only the first machine of a user gets a key with no approval, and
-- only a user who is known waits for one. `is_known` says that the user has a key or a request.
pub data Move (is_known : Bool) : Kind → Phase → Phase → Type 0 where
  stay : (k : Kind) (x : Phase) → Move is_known k x x
  ask : is_known ≡ true → Move is_known registering absent asked
  get_first : is_known ≡ false → Move is_known registering absent granted
  accept : (id : Text) → Move is_known (approving id) asked granted
  accept_only : (id : Text) → Move is_known (approving id) asked leftover
  refuse : (id : Text) → Move is_known (rejecting id) asked absent
  clear : (id : Text) → Move is_known (rejecting id) leftover granted
  give : Move is_known issuing absent granted
  revoke : Move is_known deleting granted absent
  revoke_only : Move is_known deleting leftover asked

as-Move :
    {is_known : Bool} {k : Kind} {a b a' b' : Bool} (x y x' y' : Bool)
    → a ≡ x
    → b ≡ y
    → a' ≡ x'
    → b' ≡ y'
    → Move is_known k (phase_of x y) (phase_of x' y')
    → Move is_known k (phase_of a b) (phase_of a' b')
as-Move x y x' y' p q p' q' m = rw (p, q, p', q') m

-- The user of a machine with a request has one.
asks-requests_of :
    (m : Requests) (user machine : Text)
    → requests_of m user ≡ false
    → has (is_for user machine) m ≡ false
unfolding requests_of
asks-requests_of [] user machine n = refl
asks-requests_of ((k, q) ∷ m) user machine n = ground (arith, n, asks-requests_of m user machine)

module _ (s : Service) (h : IsSound s) (user machine : Text) where
  abbrev pub key : Bool
  key = has (is_of user machine) s.credentials.records

  abbrev pub request : Bool
  request = has (is_for user machine) s.requests

  key_added :
      (r : Record)
      → IsNew s r
      → has (is_of user machine) (with_key s.credentials r).records ≡ (key || is_of user machine r)
  key_added r n =
      has-insert_new (is_of user machine) s.credentials.next_id r s.credentials.records
        (next_is_new s.credentials.next_id s.credentials.records h.keys.fresh n.0)

  request_dropped :
      (id : Text) (q : Request)
      → lookup id s.requests ≡ some q
      → has (is_for user machine) (delete id s.requests) ≡ (request && not (is_for user machine q))
  request_dropped id q f =
      has-delete (is_for user machine) id q s.requests f h.asked.map (h.asked.once user machine)

  same_machine :
      (r : Record) (q : Request)
      → r.principal_id ≡ q.principal_id
      → r.machine_id ≡ q.machine_id
      → is_of user machine r ≡ is_for user machine q
  same_machine r q u m = ground (arith, u, m)

  no_key_of :
      (r : Record)
      → IsNew s r
      → is_of user machine r ≡ true
      → (key ≡ false) × (r.principal_id ≡ user)
  no_key_of r n t = ground (arith, n, t)

  asked_for :
      (id : Text) (q : Request)
      → lookup id s.requests ≡ some q
      → is_for user machine q ≡ true
      → request ≡ true
  asked_for id q f t = elim (Bool-cases request) [
    | inl y ↦ y
    | inr y ↦ absurd_bool (sym t ∙ lookup-has (is_for user machine) id q s.requests f y)
  ]
    where
      absurd_bool : true ≡ false → request ≡ true
      absurd_bool e = cc

  abbrev pub Moves : Kind → Service → Type 0
  Moves k t = Move (known s user) k (phase s user machine) (phase t user machine)

  unmoved :
      (k : Kind) (t : Service)
      → (has (is_of user machine) t.credentials.records ≡ key)
      → (has (is_for user machine) t.requests ≡ request)
      → Moves k t
  unmoved k t p q = as-Move key request key request refl refl p q (stay k _)

  first_key-Moves :
      (r : Record) → IsNew s r → known s r.principal_id ≡ false → Moves registering (with_new s r)
  first_key-Moves r n k = elim (Bool-cases (is_of user machine r)) [
    | inr t ↦ unmoved registering (with_new s r) (ground (arith, key_added r n, t)) refl
    | inl t ↦
        let (free, own) = no_key_of r n t in
        let unknown : known s user ≡ false = ap (known s) (sym own) ∙ k in
        let quiet : request ≡ false =
          asks-requests_of s.requests user machine (ground (arith, unknown)) in
        as-Move false false true false free quiet (ground (arith, key_added r n, t)) quiet
          (get_first unknown)
  ]

  asking-Moves :
      (q : Request)
      → lookup q.registration_id s.requests ≡ none
      → known s q.principal_id ≡ true
      → has (is_of q.principal_id q.machine_id) s.credentials.records ≡ false
      → has (is_for q.principal_id q.machine_id) s.requests ≡ false
      → Moves registering (with_request s q)
  asking-Moves q new k free quiet =
      let added = has-insert_new (is_for user machine) q.registration_id q s.requests new in
      elim (Bool-cases (is_for user machine q)) [
        | inr t ↦ unmoved registering (with_request s q) refl (ground (arith, added, t))
        | inl t ↦
            as-Move false false false true (ground (arith, free, t)) (ground (arith, quiet, t))
              (ground (arith, free, t)) (ground (arith, added, t)) (ask (ground (arith, k, t)))
      ]

  approved-Moves :
      (id : Text) (q : Request) (r : Record)
      → lookup id s.requests ≡ some q
      → r.principal_id ≡ q.principal_id
      → r.machine_id ≡ q.machine_id
      → IsNew s r
      → Moves (approving id) (without_request (with_new s r) id)
        × Moves (approving id) (with_new s r)
  approved-Moves id q r f u m n =
      let same = same_machine r q u m in
      let added = key_added r n in
      let dropped = request_dropped id q f in
      elim (Bool-cases (is_of user machine r)) [
        | inr t ↦ (
          unmoved (approving id) (without_request (with_new s r) id) (ground (arith, added, t))
              (ground (arith, dropped, same, t)),
          unmoved (approving id) (with_new s r) (ground (arith, added, t)) refl,
        )
        | inl t ↦
            let free = (no_key_of r n t).0 in
            let there = asked_for id q f (sym same ∙ t) in
            (
              as-Move false true true false free there (ground (arith, added, t))
                  (ground (arith, dropped, same, t)) (accept id),
              as-Move false true true true free there (ground (arith, added, t)) there
                  (accept_only id),
            )
      ]

  rejected-Moves :
      (id : Text) (q : Request)
      → lookup id s.requests ≡ some q
      → Moves (rejecting id) (without_request s id)
  rejected-Moves id q f =
      let dropped = request_dropped id q f in
      elim (Bool-cases (is_for user machine q)) [
        | inr t ↦ unmoved (rejecting id) (without_request s id) refl (ground (arith, dropped, t))
        | inl t ↦
            let there = asked_for id q f t in
            let left : has (is_for user machine) (delete id s.requests) ≡ false =
              ground (arith, dropped, t) in
            elim (Bool-cases key) [
              | inl k ↦ as-Move true true true false k there k left (clear id)
              | inr k ↦ as-Move false true false false k there k left (refuse id)
            ]
      ]

  by_hand-Moves :
      (r : Record)
      → IsNew s r
      → has (is_for r.principal_id r.machine_id) s.requests ≡ false
      → Moves issuing (with_new s r)
  by_hand-Moves r n quiet = elim (Bool-cases (is_of user machine r)) [
    | inr t ↦ unmoved issuing (with_new s r) (ground (arith, key_added r n, t)) refl
    | inl t ↦
        let none_yet : request ≡ false = ground (arith, quiet, t) in
        as-Move false false true false (no_key_of r n t).0 none_yet
          (ground (arith, key_added r n, t)) none_yet give
  ]

  revoked-Moves :
      (id : ℕ) (r : Record)
      → lookup id s.credentials.records ≡ some r
      → Moves deleting (with_records s (delete id s.credentials.records))
  revoked-Moves id r f =
      let removed =
        has-delete (is_of user machine) id r s.credentials.records f h.keys.map
          (h.keys.once user machine) in
      elim (Bool-cases (is_of user machine r)) [
        | inr t ↦
            unmoved deleting (with_records s (delete id s.credentials.records))
              (ground (arith, removed, t)) refl
        | inl t ↦ elim (Bool-cases key) [
          | inr k ↦
              unmoved deleting (with_records s (delete id s.credentials.records))
                (ground (arith, removed, k)) refl
          | inl k ↦ elim (Bool-cases request) [
            | inl q ↦ as-Move true true false true k q (ground (arith, removed, t)) q revoke_only
            | inr q ↦ as-Move true false false false k q (ground (arith, removed, t)) q revoke
          ]
        ]
      ]

  pub Step-Moves : {k : Kind} {t : Service} → Step s k t → Moves k t
  Step-Moves (idle k) = stay k _
  Step-Moves (undone k r n) =
      unmoved k
        (with_records (with_new s r)
          (delete r.credential_id (insert s.credentials.next_id r s.credentials.records)))
        (ap (has (is_of user machine)) (undone_records s r h n)) refl
  Step-Moves (first_key r n k) = first_key-Moves r n k
  Step-Moves (asking q new k free quiet) = asking-Moves q new k free quiet
  Step-Moves (approved id q r f u m n) = (approved-Moves id q r f u m n).0
  Step-Moves (approved_only id q r f u m n) = (approved-Moves id q r f u m n).1
  Step-Moves (rejected id q f) = rejected-Moves id q f
  Step-Moves (by_hand r n quiet) = by_hand-Moves r n quiet
  Step-Moves (revoked id r f) = revoked-Moves id r f
  Step-Moves (changed id old new f k) =
      unmoved changing (with_records s (insert id new s.credentials.records))
        (has-insert_old (is_of user machine) id new old s.credentials.records f
          (Keeps-is_of old new user machine k))
        refl
