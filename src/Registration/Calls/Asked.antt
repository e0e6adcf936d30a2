-- ===== src/Registration/Calls/Asked.antt =====
-- internal/machinereg/store.go: what creations and deletions of requests leave.
use herdr_pal.Prelude.{
  ℕ, ◌≡◌, refl, List, [], ◌∷◌, Bool, true, false, ◌||◌, not, Option, none, some, take, nat_eq,
  arith, Bool-cases, Option-cases, Result, ok, err, inl, inr,
}
use herdr_pal.Prelude.Maps.{
  lookup, insert, delete, insert-IsMap, delete-IsMap, All-insert, All-delete,
}
use herdr_pal.Prelude.Text.{Text, text_eq}
use herdr_pal.Prelude.Unique.{has, AtMostOnce-insert_new, AtMostOnce-delete}
use herdr_pal.Credential.{Primitives}
use herdr_pal.Credential.Key.{valid_principal_id, valid_machine_id}
use herdr_pal.Registration.{Request, RegistrationError}
use herdr_pal.Registration.Requests.{
  Requests, is_for, find_request, draw_id, validate_sources, validate_request, save_request,
  create_request, delete_request, registration_id_max_attempts,
}
use herdr_pal.Registration.Calls.Stores.{AreRequests}

pub find_request-none :
    (m : Requests) (user machine : Text)
    → find_request m user machine ≡ none
    → has (is_for user machine) m ≡ false
unfolding find_request
find_request-none [] user machine n = refl
find_request-none ((k, r) ∷ m) user machine n = ground (arith, n, find_request-none m user machine)

pub find_request-some :
    (m : Requests) (user machine : Text) (r : Request)
    → find_request m user machine ≡ some r
    → (has (is_for user machine) m ≡ true) × (is_for user machine r ≡ true)
unfolding find_request
find_request-some [] user machine r f = cc
find_request-some ((k, q) ∷ m) user machine r f =
    ground (arith, f, find_request-some m user machine r)

draw_id_new :
    (m : Requests) (ids : List (Option Text)) (id : Text)
    → draw_id m ids ≡ some id
    → lookup id m ≡ none
unfolding draw_id
draw_id_new m [] id f = cc
draw_id_new m (none ∷ ids) id f = cc
draw_id_new m (some x ∷ ids) id f = elim (Option-cases (lookup x m)) [
  | inl n ↦ ground (arith, n, f)
  | inr (r, t) ↦ draw_id_new m ids id (ground (arith, t, f))
]

-- What `Create` returns: an error, the request that was there, or a new one.
pub data Created (m : Requests) (user machine : Text)
    : Requests × Result RegistrationError (Request × Bool) → Type 0 where
  failed : (e : RegistrationError) → Created m user machine (m, err e)
  found :
      (r : Request)
      → find_request m user machine ≡ some r
      → Created m user machine (m, ok (r, false))
  made :
      (r : Request)
      → lookup r.registration_id m ≡ none
      → r.principal_id ≡ user
      → r.machine_id ≡ machine
      → has (is_for user machine) m ≡ false
      → Created m user machine (insert r.registration_id r m, ok (r, true))

save_request-Created :
    (p : Primitives) (is_id : Text → Bool) (m : Requests) (r : Request) (saved : Bool)
    → lookup r.registration_id m ≡ none
    → has (is_for r.principal_id r.machine_id) m ≡ false
    → Created m r.principal_id r.machine_id (save_request p is_id m r saved)
unfolding save_request
save_request-Created p is_id m r saved n h = elim (Bool-cases (validate_request p is_id r)) [
  | inr bad ↦ rw bad (failed _)
  | inl good ↦
      rw good
        (elim (Bool-cases saved) [ inl y ↦ rw y (made r n refl refl h) | inr y ↦ rw y (failed _) ])
]

pub create_request-Created :
    (p : Primitives) (is_id : Text → Bool) (m : Requests) (user machine : Text)
    (sources : List Text) (candidates : List (Option Text)) (now : ℕ) (saved : Bool)
    → Created m user machine (create_request p is_id m user machine sources candidates now saved)
unfolding create_request
create_request-Created p is_id m user machine sources candidates now saved =
    elim (Bool-cases (
      not (valid_principal_id user)
      || not (valid_machine_id machine)
      || not (validate_sources p sources))) [
        | inl bad ↦ rw bad (failed _)
        | inr good ↦ rw good (elim (Option-cases (find_request m user machine)) [
          | inr (r, f) ↦ rw f (found r f)
          | inl n ↦
              rw n (elim (Option-cases (draw_id m (take registration_id_max_attempts candidates))) [
                | inl t ↦ rw t (failed _)
                | inr (id, t) ↦ rw t (
                    save_request-Created p is_id m
                      (record {
                        registration_id = id;
                        principal_id = user;
                        machine_id = machine;
                        allowed_sources = sources;
                        requested_at = now;
                      })
                      saved (draw_id_new m _ id t) (find_request-none m user machine n))
              ])
        ])
      ]

-- What `Delete` returns.
pub data Dropped (m : Requests) (id : Text)
    : Requests × Result RegistrationError Request → Type 0 where
  kept : (e : RegistrationError) → Dropped m id (m, err e)
  gone : (r : Request) → lookup id m ≡ some r → Dropped m id (delete id m, ok r)

pub delete_request-Dropped :
    (m : Requests) (id : Text) (saved : Bool) → Dropped m id (delete_request m id saved)
unfolding delete_request
delete_request-Dropped m id saved = elim (Option-cases (lookup id m)) [
  | inl n ↦ rw (n, delete_request) (kept _)
  | inr (r, f) ↦
      rw (f, delete_request)
        (elim (Bool-cases saved) [ inl y ↦ rw y (gone r f) | inr y ↦ rw y (kept _) ])
]

pub Created-AreRequests :
    {m : Requests} {user machine : Text}
    {out : Requests × Result RegistrationError (Request × Bool)}
    → Created m user machine out
    → AreRequests m
    → AreRequests out.0
Created-AreRequests (failed e) h = h
Created-AreRequests (found r f) h = h
Created-AreRequests {m} (made r n u k free) h = record {
  map = insert-IsMap r.registration_id r m h.map;
  own = All-insert (λ e. e.1.registration_id ≡ e.0) r.registration_id r m refl h.own;
  once = λ user machine.
      AtMostOnce-insert_new (is_for user machine) r.registration_id r m n
        (λ t. ground (arith, free, t, u, k)) (h.once user machine);
}

pub Dropped-AreRequests :
    {m : Requests} {id : Text} {out : Requests × Result RegistrationError Request}
    → Dropped m id out
    → AreRequests m
    → AreRequests out.0
Dropped-AreRequests (kept e) h = h
Dropped-AreRequests {m} {id} (gone r f) h = record {
  map = delete-IsMap id m h.map;
  own = All-delete (λ e. e.1.registration_id ≡ e.0) id m h.own;
  once = λ user machine. AtMostOnce-delete (is_for user machine) id m (h.once user machine);
}

-- The three outcomes of `Delete`.
pub delete_request-none :
    (m : Requests) (id : Text) (saved : Bool)
    → lookup id m ≡ none
    → delete_request m id saved ≡ (m, err RegistrationError.request_not_found)
unfolding delete_request
delete_request-none m id saved n = rw (n, delete_request) refl

pub delete_request-written :
    (m : Requests) (id : Text) (q : Request)
    → lookup id m ≡ some q
    → delete_request m id true ≡ (delete id m, ok q)
unfolding delete_request
delete_request-written m id q f = rw (f, delete_request) refl

pub delete_request-unwritten :
    (m : Requests) (id : Text) (q : Request)
    → lookup id m ≡ some q
    → delete_request m id false ≡ (m, err RegistrationError.persist_failed)
unfolding delete_request
delete_request-unwritten m id q f = rw (f, delete_request) refl
