-- ===== src/Registration/Calls/Stores.antt =====
-- internal/credential/store.go and internal/machinereg/store.go: what the operations of the two
-- stores leave, and that they keep them well formed.
use herdr_pal.Prelude.{
  ℕ, ◌≡◌, ◌≢◌, ◌<◌, ◌≤◌, ◌⊎◌, refl, List, [], ◌∷◌, Bool, true, false, Option, none, ◌==◌, nat_eq,
  All, arith, Bool-cases, Result, ok, err, Result-cases, inl, inr,
}
use herdr_pal.Prelude.Maps.{Map, IsMap, lookup, insert}
use herdr_pal.Prelude.Text.{Text, text_eq}
use herdr_pal.Prelude.Unique.{has, AtMostOnce}
use herdr_pal.Credential.{Error, Record, Primitives, max_uint64}
use herdr_pal.Credential.Sources.{normalize_source_rules}
use herdr_pal.Credential.Key.{issue_key}
use herdr_pal.Credential.Store.{CredentialStore, is_of, next_after, save_issued, issue}
use herdr_pal.Registration.Requests.{Requests, is_for}

abbrev pub AreBelow : ℕ → Map ℕ Record → Type 0
AreBelow n m = All (λ e. (n ≡ 0) ⊎ (e.0 < n)) m

-- Each record stands under its own number, below the next one, and a machine has one key at most.
pub record AreKeys (c : CredentialStore) : Type 0 where
  pub map : IsMap c.records
  pub own : All (λ e. e.1.credential_id ≡ e.0) c.records
  pub fresh : AreBelow c.next_id c.records
  pub once : (user machine : Text) → AtMostOnce (is_of user machine) c.records
  pub bounded : c.next_id ≤ max_uint64

-- Each request stands under its own number, and a machine has one request at most.
pub record AreRequests (m : Requests) : Type 0 where
  pub map : IsMap m
  pub own : All (λ e. e.1.registration_id ≡ e.0) m
  pub once : (user machine : Text) → AtMostOnce (is_for user machine) m

pub next_is_new : (n : ℕ) (m : Map ℕ Record) → AreBelow n m → n ≢ 0 → lookup n m ≡ none
unfolding lookup
next_is_new n [] b h = refl
next_is_new n ((k, r) ∷ m) b h = ground (arith, h, b.0, next_is_new n m b.1 h)

abbrev pub with_key : CredentialStore → Record → CredentialStore
with_key c r = record { records = insert c.next_id r c.records; next_id = next_after c.next_id }

-- What `Issue` returns: an error and the store as it was, or a new key for the machine.
pub data Issued (c : CredentialStore) (user machine : Text)
    : CredentialStore × Result Error (Text × Record) → Type 0 where
  refused : (e : Error) → Issued c user machine (c, err e)
  made :
      (token : Text) (r : Record)
      → c.next_id ≢ 0
      → r.credential_id ≡ c.next_id
      → r.principal_id ≡ user
      → r.machine_id ≡ machine
      → has (is_of user machine) c.records ≡ false
      → Issued c user machine (with_key c r, ok (token, r))

issue_key_ok :
    (p : Primitives) (id : ℕ) (user machine : Text) (rules : List Text) (expires : Option ℕ)
    (now : ℕ) (secret : Option Text) (token : Text) (r : Record)
    → issue_key p id user machine rules expires now secret ≡ ok (token, r)
    → (id ≢ 0) × (r.credential_id ≡ id) × (r.principal_id ≡ user) × (r.machine_id ≡ machine)
unfolding issue_key
issue_key_ok p id user machine rules expires now secret token r e = ground (arith, e)

save_issued-Issued :
    (c : CredentialStore) (user machine : Text) (res : Result Error (Text × Record)) (saved : Bool)
    → has (is_of user machine) c.records ≡ false
    → ((token : Text) (r : Record)
        → res ≡ ok (token, r)
        → (c.next_id ≢ 0)
          × (r.credential_id ≡ c.next_id)
          × (r.principal_id ≡ user)
          × (r.machine_id ≡ machine))
    → Issued c user machine (save_issued c res saved)
unfolding save_issued
save_issued-Issued c user machine (err e) saved n f = refused e
save_issued-Issued c user machine (ok (token, r)) true n f =
    let g = f token r refl in made token r g.0 g.1 g.2 g.3 n
save_issued-Issued c user machine (ok (token, r)) false n f = refused _

pub issue-Issued :
    (p : Primitives) (c : CredentialStore) (user machine : Text) (sources : List Text)
    (expires : Option ℕ) (now : ℕ) (secret : Option Text) (saved : Bool)
    → Issued c user machine (issue p c user machine sources expires now secret saved)
unfolding issue
issue-Issued p c user machine sources expires now secret saved =
    elim (Result-cases (normalize_source_rules p sources)) [
      | inr (e, n) ↦ rw (n, issue) (refused e)
      | inl (rules, n) ↦ elim (Bool-cases (has (is_of user machine) c.records)) [
        | inl taken ↦ rw (n, taken, issue) (refused _)
        | inr free ↦ elim (Bool-cases (c.next_id == 0)) [
          | inl full ↦ rw (n, free, full, issue) (refused _)
          | inr room ↦
              rw (n, free, room, issue)
                (save_issued-Issued c user machine _ saved free
                  (issue_key_ok p c.next_id user machine rules expires now secret))
        ]
      ]
    ]

pub AreBelow_next : (n : ℕ) (m : Map ℕ Record) → n ≢ 0 → AreBelow n m → AreBelow (next_after n) m
AreBelow_next n [] h b = tt
AreBelow_next n ((k, r) ∷ m) h b = (below n k h b.0, AreBelow_next n m h b.1)
  where
    below : (n k : ℕ) → n ≢ 0 → (n ≡ 0) ⊎ (k < n) → (next_after n ≡ 0) ⊎ (k < next_after n)
    below n k h (inl z) = absurd (h z)
    below n k h (inr lt) = elim (Bool-cases (n == max_uint64)) [
      | inl e ↦ rw e (inl refl)
      | inr e ↦ rw e (inr (omega (arith, lt)))
    ]
