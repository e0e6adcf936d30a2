-- ===== src/Registration/Calls/Changed.antt =====
-- internal/credential/store.go: deletions and updates of a credential, and what all writes keep.
use herdr_pal.Prelude.{
  ℕ, ◌≡◌, ◌≢◌, ◌<◌, ◌≤◌, ◌⊎◌, refl, Bool, true, false, some, ◌==◌, nat_eq, if◌then◌else◌, arith,
  ◌∙◌, Bool-cases, Option-cases, Result, ok, err, Result-cases, inl, inr,
}
use herdr_pal.Prelude.Maps.{
  lookup, insert, delete, insert-IsMap, delete-IsMap, All-insert, All-delete, lookup-All,
}
use herdr_pal.Prelude.Text.{Text, text_eq}
use herdr_pal.Prelude.Unique.{has, AtMostOnce-insert_new, AtMostOnce-insert_old, AtMostOnce-delete}
use herdr_pal.Credential.{Error, Record, Primitives, max_uint64}
use herdr_pal.Credential.Sources.{normalize_source_rules}
use herdr_pal.Credential.Key.{validate_record}
use herdr_pal.Credential.Store.{
  CredentialStore, is_of, next_after, delete_record, records_equal, save_updated, update_record,
  enable, disable, add_sources, remove_sources, set_sources,
}
use herdr_pal.Registration.Calls.{
  Change, enabling, disabling, adding, removing, setting, change_record,
}
use herdr_pal.Registration.Calls.Stores.{AreBelow_next, AreKeys, next_is_new, with_key}

-- What `Delete` returns.
pub data Removed (c : CredentialStore) (id : ℕ)
    : CredentialStore × Result Error Record → Type 0 where
  kept : (e : Error) → Removed c id (c, err e)
  gone :
      (r : Record)
      → lookup id c.records ≡ some r
      → Removed c id (record c { records = delete id c.records }, ok r)

pub delete_record-Removed :
    (c : CredentialStore) (id : ℕ) (saved : Bool) → Removed c id (delete_record c id saved)
unfolding delete_record
delete_record-Removed c id saved = elim (Bool-cases (id == 0)) [
  | inl z ↦ rw z (kept _)
  | inr z ↦ elim (Option-cases (lookup id c.records)) [
    | inl n ↦ rw (z, n, delete_record) (kept _)
    | inr (r, f) ↦ rw (z, f, delete_record) (written r f saved)
  ]
]
  where
    written :
        (r : Record)
        → lookup id c.records ≡ some r
        → (saved : Bool)
        → Removed c id (
            if saved
            then (record c { records = delete id c.records }, ok r)
            else (c, err Error.persist_failed))
    written r f true = gone r f
    written r f false = kept _

-- The fields that say whose record it is.
abbrev pub Keeps : Record → Record → Type 0
Keeps old new =
    (new.credential_id ≡ old.credential_id)
    × (new.principal_id ≡ old.principal_id)
    × (new.machine_id ≡ old.machine_id)

-- What an update returns: the store as it was, or another record of the same machine.
pub data Changed (c : CredentialStore) (id : ℕ)
    : CredentialStore × Result Error Record → Type 0 where
  same : (res : Result Error Record) → Changed c id (c, res)
  written :
      (old new : Record)
      → lookup id c.records ≡ some old
      → Keeps old new
      → Changed c id (record c { records = insert id new c.records }, ok new)

save_updated-Changed :
    (p : Primitives) (c : CredentialStore) (id : ℕ) (old : Record) (res : Result Error Record)
    (saved : Bool)
    → lookup id c.records ≡ some old
    → ((new : Record) → res ≡ ok new → Keeps old new)
    → Changed c id (save_updated p c id old res saved)
unfolding save_updated
save_updated-Changed p c id old (err e) saved f k = same _
save_updated-Changed p c id old (ok new) saved f k = elim (Bool-cases (validate_record p new)) [
  | inr bad ↦ rw bad (same _)
  | inl good ↦ elim (Bool-cases (records_equal old new)) [
    | inl e ↦ rw (good, e) (same _)
    | inr e ↦
        rw (good, e)
          (elim (Bool-cases saved) [
            | inl y ↦ rw y (written old new f (k new refl))
            | inr y ↦ rw y (same _)
          ])
  ]
]

update_record-Changed :
    (p : Primitives) (c : CredentialStore) (id : ℕ) (transform : Record → Result Error Record)
    (saved : Bool)
    → ((old new : Record) → transform old ≡ ok new → Keeps old new)
    → Changed c id (update_record p c id transform saved)
unfolding update_record
update_record-Changed p c id transform saved k = elim (Bool-cases (id == 0)) [
  | inl z ↦ rw z (same _)
  | inr z ↦ elim (Option-cases (lookup id c.records)) [
    | inl n ↦ rw (z, n, update_record) (same _)
    | inr (old, f) ↦
        rw (z, f, update_record) (save_updated-Changed p c id old (transform old) saved f (k old))
  ]
]

pub change_record-Changed :
    (p : Primitives) (id : ℕ) (change : Change) (now : ℕ) (saved : Bool) (c : CredentialStore)
    → Changed c id (change_record p id change now saved c)
unfolding change_record enable disable add_sources remove_sources set_sources
change_record-Changed p id enabling now saved c =
    update_record-Changed p c id _ saved (λ old new e. ground (arith, e))
change_record-Changed p id disabling now saved c =
    update_record-Changed p c id _ saved (λ old new e. ground (arith, e))
change_record-Changed p id (adding values) now saved c =
    update_record-Changed p c id _ saved (λ old new e. ground (arith, e))
change_record-Changed p id (removing values) now saved c =
    elim (Result-cases (normalize_source_rules p values)) [
      | inr (e, n) ↦ rw (n, remove_sources) (same _)
      | inl (rules, n) ↦
          rw (n, remove_sources)
            (update_record-Changed p c id _ saved (λ old new e. ground (arith, e)))
    ]
change_record-Changed p id (setting values) now saved c =
    elim (Result-cases (normalize_source_rules p values)) [
      | inr (e, n) ↦ rw (n, set_sources) (same _)
      | inl (rules, n) ↦
          rw (n, set_sources)
            (update_record-Changed p c id
              (λ r. ok (record r { allowed_sources = rules; updated_at = now })) saved
              (λ old new e. ground (arith, e)))
    ]

pub with_key-AreKeys :
    (c : CredentialStore) (r : Record)
    → c.next_id ≢ 0
    → r.credential_id ≡ c.next_id
    → has (is_of r.principal_id r.machine_id) c.records ≡ false
    → AreKeys c
    → AreKeys (with_key c r)
with_key-AreKeys c r room own free h =
    let new = next_is_new c.next_id c.records h.fresh room in
    record {
      map = insert-IsMap c.next_id r c.records h.map;
      own = All-insert (λ e. e.1.credential_id ≡ e.0) c.next_id r c.records own h.own;
      fresh =
          All-insert (λ e. (next_after c.next_id ≡ 0) ⊎ (e.0 < next_after c.next_id)) c.next_id r
            c.records (after c.next_id) (AreBelow_next c.next_id c.records room h.fresh);
      once = λ user machine.
          AtMostOnce-insert_new (is_of user machine) c.next_id r c.records new
            (λ t. ground (arith, free, t)) (h.once user machine);
      bounded = next_bounded c.next_id h.bounded;
    }
  where
    next_bounded : (n : ℕ) → n ≤ max_uint64 → next_after n ≤ max_uint64
    next_bounded n le = ground (arith, le)

    after : (n : ℕ) → (next_after n ≡ 0) ⊎ (n < next_after n)
    after n = elim (Bool-cases (n == max_uint64)) [
      | inl e ↦ rw e (inl refl)
      | inr e ↦ rw e (inr (omega arith))
    ]

pub Removed-AreKeys :
    {c : CredentialStore} {id : ℕ} {out : CredentialStore × Result Error Record}
    → Removed c id out
    → AreKeys c
    → AreKeys out.0
Removed-AreKeys (kept e) h = h
Removed-AreKeys {c} {id} (gone r f) h = record {
  map = delete-IsMap id c.records h.map;
  own = All-delete (λ e. e.1.credential_id ≡ e.0) id c.records h.own;
  fresh = All-delete (λ e. (c.next_id ≡ 0) ⊎ (e.0 < c.next_id)) id c.records h.fresh;
  once = λ user machine. AtMostOnce-delete (is_of user machine) id c.records (h.once user machine);
  bounded = h.bounded;
}

pub Keeps-is_of :
    (old new : Record) (user machine : Text)
    → Keeps old new
    → is_of user machine new ≡ is_of user machine old
Keeps-is_of old new user machine k = ground (arith, k)

pub Changed-AreKeys :
    {c : CredentialStore} {id : ℕ} {out : CredentialStore × Result Error Record}
    → Changed c id out
    → AreKeys c
    → AreKeys out.0
Changed-AreKeys (same res) h = h
Changed-AreKeys {c} {id} (written old new f k) h = record {
  map = insert-IsMap id new c.records h.map;
  own =
      All-insert (λ e. e.1.credential_id ≡ e.0) id new c.records
        (k.0 ∙ lookup-All (λ e. e.1.credential_id ≡ e.0) id old c.records f h.own) h.own;
  fresh =
      All-insert (λ e. (c.next_id ≡ 0) ⊎ (e.0 < c.next_id)) id new c.records
        (lookup-All (λ e. (c.next_id ≡ 0) ⊎ (e.0 < c.next_id)) id old c.records f h.fresh) h.fresh;
  once = λ user machine.
      AtMostOnce-insert_old (is_of user machine) id new old c.records f
        (Keeps-is_of old new user machine k) (h.once user machine);
  bounded = h.bounded;
}
