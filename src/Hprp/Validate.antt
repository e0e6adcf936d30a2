-- ===== src/Hprp/Validate.antt =====
-- internal/hprp/validate.go: machine ids, targets and session snapshots.
use herdr_pal.Prelude.{
  ℕ, List, [], ◌∷◌, Bool, true, false, ◌&&◌, ◌||◌, not, Option, none, some, leb, ltb, ◌==◌, nat_eq,
  if◌then◌else◌, length, all,
}
use herdr_pal.Prelude.Int.{ℤ, positive, int_eq}
use herdr_pal.Prelude.Maps.{Map, lookup, insert}
use herdr_pal.Prelude.Text.{Text, text_eq, trim_space, byte_len}
use herdr_pal.Hprp.{Target, Session, SessionSnapshot}

pub data Error : Type 0 where
  invalid_target invalid_snapshot : Error

abbrev pub max_sessions : ℕ
max_sessions = 256

abbrev pub max_label_bytes : ℕ
max_label_bytes = 512

-- The class `[A-Za-z0-9._-]` of `machineIDPattern`.
unfoldable pub machine_id_char : ℕ → Bool
machine_id_char c =
    (leb b'A' c && leb c b'Z')
    || (leb b'a' c && leb c b'z')
    || (leb b'0' c && leb c b'9')
    || c == b'.'
    || c == b'_'
    || c == b'-'

-- `ValidateMachineID`, with `machineIDPattern` read as a test of each character and the length.
unfoldable pub validate_machine_id : Text → Option Error
unfolding machine_id_char
validate_machine_id s =
    if all machine_id_char s && ltb 0 (length s) && leb (length s) 64
    then none
    else some invalid_target

unfoldable pub valid_label : Text → Bool
valid_label s = leb (byte_len s) max_label_bytes

unfoldable pub valid_required_label : Text → Bool
unfolding valid_label
valid_required_label s = not (trim_space s == []) && valid_label s

unfoldable pub valid_session_status : Text → Bool
valid_session_status s = not (trim_space s == []) && leb (byte_len s) 64

abbrev is_nil : Option Error → Bool
is_nil none = true
is_nil (some e) = false

-- `ValidateTarget`
unfoldable pub validate_target : Target → Option Error
unfolding validate_machine_id valid_required_label
validate_target t =
    if not (is_nil (validate_machine_id t.machine_id))
      || not (valid_required_label t.slot_id)
      || not (valid_required_label t.session_id)
    then some invalid_target
    else none

-- The first test of the loop of `ValidateSessionSnapshot`.
unfoldable pub valid_session : Session → Bool
unfolding valid_required_label valid_session_status
valid_session s =
    valid_required_label s.slot_id
    && valid_required_label s.session_id
    && positive s.display.index
    && valid_session_status s.status
    && valid_label s.display.agent
    && valid_label s.display.display_agent
    && valid_label s.display.workspace
    && valid_label s.display.tab
    && valid_label s.display.title

abbrev exists {ℓ} : {A : Type ℓ} → Option A → Bool
exists none = false
exists (some x) = true

-- The loop of `ValidateSessionSnapshot`, with the slots and the indexes seen so far.
unfoldable pub validate_sessions :
    Map Text (Unit {0}) → Map ℤ (Unit {0}) → List Session → Option Error
validate_sessions slots indexes [] = none
validate_sessions slots indexes (s ∷ rest) =
    let later =
      validate_sessions (insert s.slot_id tt slots) (insert s.display.index tt indexes) rest in
    if not (valid_session s)
    then some invalid_snapshot
    else if exists (lookup s.slot_id slots)
    then some invalid_snapshot
    else if exists (lookup s.display.index indexes)
    then some invalid_snapshot
    else later

-- `ValidateSessionSnapshot`
unfoldable pub validate_session_snapshot : SessionSnapshot → Option Error
unfolding validate_sessions
validate_session_snapshot snapshot =
    if snapshot.sequence == 0 || ltb max_sessions (length snapshot.sessions)
    then some invalid_snapshot
    else validate_sessions [] [] snapshot.sessions
