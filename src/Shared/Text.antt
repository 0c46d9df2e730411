-- ===== src/Shared/Text.antt =====
-- Texts as lists of code points, and `String.prototype.trim` of them.
pub mod Trimmed
use nestjs_ddd.Prelude.{ℕ, List}
use nestjs_ddd.Shared.Trace.{skip_spaces, drop_spaces_after}

abbrev pub Text : Type 0
Text = List ℕ

-- `s.trim()`
unfoldable pub trim : Text → Text
trim s = drop_spaces_after (skip_spaces s)
