-- ===== src/Hprp/Examples.antt =====
-- Tests of the checks on snapshots and of negotiation, and their theorems on concrete ones.
use herdr_pal.Prelude.{List, ◌≡◌, ◌↔◌, refl, [], ◌∷◌, none, some, ℕ_discrete}
use herdr_pal.Prelude.Int.{ℤ, pos}
use herdr_pal.Prelude.Maps.{lookup, insert}
use herdr_pal.Prelude.Text.{Text, Text-discrete, codes, trim_space, trim_left, byte_len, text_lt}
use herdr_pal.Hprp.{Session, SessionSnapshot}
use herdr_pal.Prelude.Decimal.{is_digit, digits_value}
use herdr_pal.Prelude.Sort.{sort}
use herdr_pal.Hprp.Best.{select_highest_common_versions-IsNegotiated}
use herdr_pal.Hprp.Negotiate.{select_highest_common_versions, split_versioned_name}
use herdr_pal.Hprp.Negotiated.{IsNegotiated}
use herdr_pal.Hprp.Snapshots.{IsValidSnapshot, validate_session_snapshot_iff}
use herdr_pal.Hprp.Validate.{
  invalid_snapshot, validate_session_snapshot, validate_sessions, valid_session,
}

abbrev session_at : Text → ℤ → Session
session_at slot index = record {
  slot_id = slot;
  session_id = codes "a";
  display = record {
    index = index;
    agent = [];
    display_agent = [];
    workspace = [];
    tab = [];
    title = [];
  };
  status = codes "idle";
}

abbrev two_sessions : SessionSnapshot
two_sessions = record {
  sequence = 1;
  sessions = session_at (codes "s1") (pos 1) ∷ session_at (codes "s2") (pos 2) ∷ [];
}

abbrev shared_slot : SessionSnapshot
shared_slot = record {
  sequence = 1;
  sessions = session_at (codes "s1") (pos 1) ∷ session_at (codes "s1") (pos 2) ∷ [];
}

shared_slot_refused : validate_session_snapshot shared_slot ≡ some invalid_snapshot
unfolding validate_session_snapshot validate_sessions valid_session lookup insert Text-discrete
    trim_space trim_left byte_len ℕ_discrete
shared_slot_refused = refl

validate_session_snapshot_iff_example :
    (validate_session_snapshot two_sessions ≡ none) ↔ IsValidSnapshot two_sessions
validate_session_snapshot_iff_example = validate_session_snapshot_iff two_sessions

abbrev client_names : List Text
client_names = codes "terminal.v1" ∷ codes "terminal.v2" ∷ codes "image.v1" ∷ codes "Bad" ∷ []

abbrev server_names : List Text
server_names = codes "terminal.v1" ∷ codes "terminal.v2" ∷ codes "image.v2" ∷ codes "Bad" ∷ []

highest_terminal :
    select_highest_common_versions client_names server_names ≡ codes "terminal.v2" ∷ []
unfolding select_highest_common_versions split_versioned_name sort text_lt lookup insert byte_len
    is_digit digits_value Text-discrete ℕ_discrete
highest_terminal = refl

select_highest_common_versions-IsNegotiated_example :
    IsNegotiated client_names server_names
      (select_highest_common_versions client_names server_names)
select_highest_common_versions-IsNegotiated_example =
    select_highest_common_versions-IsNegotiated client_names server_names
