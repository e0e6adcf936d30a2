-- ===== src/Registration/Sample.antt =====
-- Data for the tests of registration and approval: a user with a key and a request.
use herdr_pal.Prelude.{refl, [], ◌∷◌, true, false, none, some, ◌==◌, nat_eq, any, inr, arith}
use herdr_pal.Prelude.Text.{Text, text_eq, codes}
use herdr_pal.Credential.{Primitives, Record, Status}
use herdr_pal.Registration.{Request}
use herdr_pal.Registration.Service.{Service, Outside}
use herdr_pal.Registration.Calls.Keeping.{IsSound}

-- Rules are texts that match themselves, and a hash is the text.
abbrev pub plain : Primitives
plain = record {
  parse_rule = λ s. some s;
  match_source = λ rules s. any (λ r. r == s) rules;
  is_secret = λ s. true;
  sha256 = λ s. s;
  hex_encode = λ s. s;
  hex_decode = λ s. some s;
}

abbrev pub alice : Text
alice = codes "alice"

abbrev pub laptop_key : Record
laptop_key = record {
  credential_id = 1;
  principal_id = alice;
  machine_id = codes "laptop";
  secret_sha256 = codes "x";
  status = Status.enabled;
  allowed_sources = codes "10.0.0.1" ∷ [];
  expires_at = none;
  created_at = 5;
  updated_at = 5;
}

abbrev pub desktop_request : Request
desktop_request = record {
  registration_id = codes "reg_1";
  principal_id = alice;
  machine_id = codes "desktop";
  allowed_sources = codes "10.0.0.2" ∷ [];
  requested_at = 7;
}

abbrev pub sample : Service
sample = record {
  credentials = record { records = (1, laptop_key) ∷ []; next_id = 2 };
  requests = (codes "reg_1", desktop_request) ∷ [];
}

pub sample-IsSound : IsSound sample
sample-IsSound = record {
  keys = record {
    map = (tt, tt);
    own = (refl, tt);
    fresh = (inr (omega arith), tt);
    once = λ user machine. (λ t. refl, tt);
    bounded = omega arith;
  };
  asked = record { map = (tt, tt); own = (refl, tt); once = λ user machine. (λ t. refl, tt) };
}

-- All goes well.
abbrev pub fine : Outside
fine = record {
  now = 9;
  secret = some (codes "s");
  candidates = some (codes "reg_2") ∷ [];
  key_saved = true;
  removal_saved = true;
  requests_saved = true;
  delivered = true;
}

-- The message does not arrive.
abbrev pub silent : Outside
silent = record fine { delivered = false }
