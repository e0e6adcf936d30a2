-- ===== src/Registration/Calls/Keeping.antt =====
-- internal/machinereg/service.go: what every history of calls keeps.
use herdr_pal.Prelude.{◌≡◌, refl, List, [], ◌∷◌, Bool, some, nat_eq, arith, ap, ◌∙◌}
use herdr_pal.Prelude.Maps.{lookup, insert, delete, lookup-insert_self}
use herdr_pal.Prelude.Text.{Text, text_eq}
use herdr_pal.Prelude.Unique.{delete-insert_new}
use herdr_pal.Credential.{Record, Primitives}
use herdr_pal.Credential.Store.{new_credential_store}
use herdr_pal.Registration.{Request}
use herdr_pal.Registration.Requests.{Requests}
use herdr_pal.Registration.Service.{Service}
use herdr_pal.Registration.Calls.{Call, step, run}
use herdr_pal.Registration.Calls.Asked.{Created, Created-AreRequests, Dropped, Dropped-AreRequests}
use herdr_pal.Registration.Calls.Changed.{
  with_key-AreKeys, Removed, Removed-AreKeys, Changed, Changed-AreKeys,
}
use herdr_pal.Registration.Calls.Handled.{step-Step}
use herdr_pal.Registration.Calls.Steps.{
  Kind, IsNew, Step, idle, undone, first_key, asking, approved, approved_only, rejected, by_hand,
  revoked, changed,
}
use herdr_pal.Registration.Calls.Stores.{AreKeys, AreRequests, with_key, next_is_new}

-- Both stores are well formed.
pub record IsSound (s : Service) : Type 0 where
  pub keys : AreKeys s.credentials
  pub asked : AreRequests s.requests

new-AreKeys :
    (s : Service) (r : Record) → IsSound s → IsNew s r → AreKeys (with_key s.credentials r)
new-AreKeys s r h n = with_key-AreKeys s.credentials r n.0 n.1 n.2 h.keys

dropped-AreRequests :
    (m : Requests) (id : Text) (q : Request)
    → lookup id m ≡ some q
    → AreRequests m
    → AreRequests (delete id m)
dropped-AreRequests m id q f h = Dropped-AreRequests (Dropped.gone q f) h

-- A key that is removed again leaves the records as they were.
pub undone_records :
    (s : Service) (r : Record)
    → IsSound s
    → IsNew s r
    → delete r.credential_id (insert s.credentials.next_id r s.credentials.records)
      ≡ s.credentials.records
undone_records s r h n =
    ap (λ id. delete id (insert s.credentials.next_id r s.credentials.records)) n.1
    ∙ delete-insert_new s.credentials.next_id r s.credentials.records
        (next_is_new s.credentials.next_id s.credentials.records h.keys.fresh n.0)

found_new :
    (s : Service) (r : Record)
    → IsNew s r
    → lookup r.credential_id (insert s.credentials.next_id r s.credentials.records) ≡ some r
found_new s r n =
    ap (λ id. lookup id (insert s.credentials.next_id r s.credentials.records)) n.1
    ∙ lookup-insert_self s.credentials.next_id r s.credentials.records

pub Step-IsSound : {s t : Service} {k : Kind} → Step s k t → IsSound s → IsSound t
Step-IsSound (idle k) h = h
Step-IsSound {s} (undone k r n) h = record {
  keys =
      Removed-AreKeys {c = with_key s.credentials r} (Removed.gone r (found_new s r n))
        (new-AreKeys s r h n);
  asked = h.asked;
}
Step-IsSound {s} (first_key r n k) h = record { keys = new-AreKeys s r h n; asked = h.asked }
Step-IsSound {s} (asking q n k free none_yet) h = record {
  keys = h.keys;
  asked = Created-AreRequests (Created.made q n refl refl none_yet) h.asked;
}
Step-IsSound {s} (approved id q r f u m n) h = record {
  keys = new-AreKeys s r h n;
  asked = dropped-AreRequests s.requests id q f h.asked;
}
Step-IsSound {s} (approved_only id q r f u m n) h = record {
  keys = new-AreKeys s r h n;
  asked = h.asked;
}
Step-IsSound {s} (rejected id q f) h = record {
  keys = h.keys;
  asked = dropped-AreRequests s.requests id q f h.asked;
}
Step-IsSound {s} (by_hand r n free) h = record { keys = new-AreKeys s r h n; asked = h.asked }
Step-IsSound {s} (revoked id r f) h = record {
  keys = Removed-AreKeys (Removed.gone r f) h.keys;
  asked = h.asked;
}
Step-IsSound {s} (changed id old new f k) h = record {
  keys = Changed-AreKeys (Changed.written old new f k) h.keys;
  asked = h.asked;
}

-- The service that starts with no keys and no requests.
abbrev pub new_service : Service
new_service = record { credentials = new_credential_store; requests = [] }

new_service-IsSound : IsSound new_service
new_service-IsSound = record {
  keys = record {
    map = tt;
    own = tt;
    fresh = tt;
    once = λ user machine. tt;
    bounded = omega arith;
  };
  asked = record { map = tt; own = tt; once = λ user machine. tt };
}

pub step-IsSound :
    (p : Primitives) (is_id : Text → Bool) (s : Service) (c : Call)
    → IsSound s
    → IsSound (step p is_id s c)
step-IsSound p is_id s c h = Step-IsSound (step-Step p is_id s c) h

run-IsSound_from :
    (p : Primitives) (is_id : Text → Bool) (s : Service) (calls : List Call)
    → IsSound s
    → IsSound (run p is_id s calls)
run-IsSound_from p is_id s [] h = h
run-IsSound_from p is_id s (c ∷ calls) h =
    run-IsSound_from p is_id (step p is_id s c) calls (step-IsSound p is_id s c h)

-- After any calls from an empty service, each machine of a user has one key and one request at most,
-- each key and each request stands under its own number, and the number for the next key, if one
-- is left, is above those of all keys.
pub service_run-IsSound :
    (p : Primitives) (is_id : Text → Bool) (calls : List Call)
    → IsSound (run p is_id new_service calls)
service_run-IsSound p is_id calls = run-IsSound_from p is_id new_service calls new_service-IsSound
