-- ===== src/Errors/Origin/Frame.antt =====
-- The frames of a stack in src/common/utils/error-origin.util.ts, over code points: `parseFrame`,
-- `isOwnFrame`, `relativeToProject`, `stripColumn` and `frameFromStack`.
use nestjs_ddd.Prelude.{
  ℕ, Bool, not, ◌&&◌, ◌||◌, Option, none, some, List, [], ◌∷◌, ◌++◌, length, any, all, leb, ◌==◌,
  is_some, if◌then◌else◌,
}
use nestjs_ddd.Shared.Correlation.{codes}
use nestjs_ddd.Shared.Text.{Text, trim}
use nestjs_ddd.Shared.Trace.{is_space}
use nestjs_ddd.Legacy.Prefix.{starts_with, but_last}

-- `.` of a pattern: anything but the end of a line.
abbrev is_dot : ℕ → Bool
is_dot c = not (c == 10 || c == 13 || c == 8232 || c == 8233)

abbrev is_digit : ℕ → Bool
is_digit c = leb b'0' c && leb c b'9'

-- `(.*)\)$`
last_group : Text → Option Text
unfolding but_last
last_group [] = none
last_group (c ∷ []) = if c == b')' then some [] else none
last_group (c ∷ d ∷ cs) =
    let rest = last_group (d ∷ cs) in
    if is_dot c then elim rest [ none ↦ none | some g ↦ some (c ∷ g) ] else none

-- `\s\((.*)\)$`
bracketed : Text → Option Text
unfolding last_group
bracketed [] = none
bracketed (c ∷ []) = none
bracketed (c ∷ d ∷ cs) = if is_space c && d == b'(' then last_group cs else none

-- `/^(.*)\s\((.*)\)$/`: the first group takes as much as it can.
unfoldable pub with_function : Text → Option (Text × Text)
unfolding bracketed
with_function [] = none
with_function (c ∷ cs) =
    let later = with_function cs in
    let here : Option (Text × Text) = elim (bracketed (c ∷ cs)) [
      | none ↦ none
      | some g ↦ some ([], g)
    ] in
    if is_dot c then elim later [ some p ↦ some (c ∷ p.0, p.1) | none ↦ here ] else here

pub record ParsedFrame : Type 0 where
  pub fn : Option Text
  pub location : Text

-- What stands behind `at `.
unfoldable pub frame_of : Text → ParsedFrame
unfolding with_function trim
frame_of rest = elim (with_function rest) [
  | none ↦ record { fn = none; location = rest }
  | some (f, l) ↦ record {
    fn = if length (trim f) == 0 then none else some (trim f);
    location = trim l;
  }
]

-- `line.startsWith('at ')` and `line.slice(3)`
abbrev after_at : Text → Option Text
after_at (c ∷ d ∷ e ∷ rest) = if c == b'a' && d == b't' && e == 32 then some rest else none
after_at _ = none

unfoldable pub parse_frame : Text → Option ParsedFrame
unfolding frame_of trim
parse_frame raw = elim (after_at (trim raw)) [
  | none ↦ none
  | some rest ↦ some (frame_of (trim rest))
]

-- The part of `s` from the first `needle` on: `s.slice(s.indexOf(needle))`, if it is there.
unfoldable pub from_first : Text → Text → Option Text
from_first needle [] = if starts_with needle [] then some [] else none
from_first needle (c ∷ cs) =
    let later = from_first needle cs in if starts_with needle (c ∷ cs) then some (c ∷ cs) else later

abbrev pub includes : Text → Text → Bool
includes needle s = is_some (from_first needle s)

abbrev pub own_path_markers : List Text
own_path_markers = codes "/src/" ∷ codes "/dist/" ∷ codes "/test/" ∷ []

unfoldable pub is_own_frame : Text → Bool
is_own_frame location =
    not (starts_with (codes "node:") location)
    && not (includes (codes "node_modules") location)
    && any (λ marker. includes marker location) own_path_markers

-- `s.slice(1)`
abbrev pub tail : Text → Text
tail [] = []
tail (c ∷ cs) = cs

unfoldable pub relative_from : List Text → Text → Option Text
unfolding from_first
relative_from [] location = none
relative_from (marker ∷ markers) location =
    let others = relative_from markers location in
    elim (from_first marker location) [ some found ↦ some (tail found) | none ↦ others ]

abbrev pub relative_to_project : Text → Option Text
relative_to_project location = relative_from own_path_markers location

-- `\d*$`
all_digits : Text → Bool
all_digits cs = all is_digit cs

-- `(\d*):\d+$`: the group.
row_and_column : Text → Option Text
unfolding all_digits
row_and_column [] = none
row_and_column (c ∷ cs) =
    let rest = row_and_column cs in
    if c == b':'
    then (if all_digits cs && leb 1 (length cs) then some [] else none)
    else if is_digit c
    then elim rest [ none ↦ none | some row ↦ some (c ∷ row) ]
    else none

-- `:(\d+):(\d+)$`: `:` and the first group.
position : Text → Option Text
unfolding row_and_column
position [] = none
position (c ∷ cs) =
    if c == b':'
    then elim (row_and_column cs) [ some (r ∷ row) ↦ some (c ∷ r ∷ row) | _ ↦ none ]
    else none

-- `/^(.*):(\d+):(\d+)$/`: the first group, `:` and the second group.
unfoldable pub without_column : Text → Option Text
unfolding position
without_column [] = none
without_column (c ∷ cs) =
    let later = without_column cs in
    if is_dot c
    then elim later [ some s ↦ some (c ∷ s) | none ↦ position (c ∷ cs) ]
    else position (c ∷ cs)

unfoldable pub strip_column : Text → Text
unfolding without_column
strip_column location = elim (without_column location) [ some s ↦ s | none ↦ location ]

-- The text of one frame.
unfoldable pub shown : Option Text → Text → Text
unfolding strip_column
shown none relative = strip_column relative
shown (some fn) relative = strip_column relative ++ (codes " (" ++ (fn ++ codes ")"))

-- The body of the loop: `none` where it goes on to the next line.
unfoldable pub own_frame : Option ParsedFrame → Option Text
unfolding is_own_frame relative_from shown
own_frame none = none
own_frame (some frame) =
    if is_own_frame frame.location
    then elim (relative_to_project frame.location) [
      | none ↦ none
      | some [] ↦ none
      | some (c ∷ cs) ↦ some (shown frame.fn (c ∷ cs))
    ]
    else none

-- `stack.split('\\n')`: the first line, and the others.
unfoldable pub split_lines : Text → Text × List Text
split_lines [] = ([], [])
split_lines (c ∷ cs) =
    let (line, lines) = split_lines cs in if c == 10 then ([], line ∷ lines) else (c ∷ line, lines)

unfoldable pub first_own_frame : List Text → Option Text
unfolding own_frame parse_frame
first_own_frame [] = none
first_own_frame (line ∷ lines) =
    let later = first_own_frame lines in
    elim (own_frame (parse_frame line)) [ some f ↦ some f | none ↦ later ]

-- An empty stack has one empty line, which is no frame.
unfoldable pub frame_from_stack : Option Text → Option Text
unfolding split_lines first_own_frame
frame_from_stack none = none
frame_from_stack (some stack) =
    let (line, lines) = split_lines stack in first_own_frame (line ∷ lines)
