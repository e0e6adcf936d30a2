-- ===== src/Hprp.antt =====
-- internal/hprp: the wire types that the server's catalog and the clients share.
pub mod Validate
pub mod Negotiate
pub mod Negotiated
pub mod Best
pub mod Snapshots
mod Examples
use herdr_pal.Prelude.{ℕ, List, Eq}
use herdr_pal.Prelude.Int.{ℤ, ℤ-discrete}
use herdr_pal.Prelude.Text.{Text, Text-discrete}

-- `Target`
pub record Target : Type 0 where
  pub machine_id : Text
  pub slot_id : Text
  pub session_id : Text

unfoldable pub Target-discrete : Discrete Target
unfolding Text-discrete
Target-discrete = hlevel Text-discrete

instance abbrev pub target_eq : Eq Target
target_eq = record { dec = Target-discrete }

-- `SessionDisplay`
pub record SessionDisplay : Type 0 where
  pub index : ℤ
  pub agent : Text
  pub display_agent : Text
  pub workspace : Text
  pub tab : Text
  pub title : Text

-- `Session`
pub record Session : Type 0 where
  pub slot_id : Text
  pub session_id : Text
  pub display : SessionDisplay
  pub status : Text

-- `SessionSnapshot`; `sequence` is a uint64 that the code only compares.
pub record SessionSnapshot : Type 0 where
  pub sequence : ℕ
  pub sessions : List Session

-- `OutputMode` is a string in Go: the two valid modes, and any other text.
pub data OutputMode : Type 0 where
  text image : OutputMode
  other : Text → OutputMode
