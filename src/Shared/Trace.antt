-- ===== src/Shared/Trace.antt =====
-- src/shared/trace-context.util.ts, over the code points of a header. Lower case is that of ASCII: no
-- other character has one that the pattern accepts.
pub mod Roundtrip
pub mod Parsed
use nestjs_ddd.Prelude.{
  ℕ, zero, suc, ◌+◌, ◌-◌, ◌%◌, Bool, true, false, not, ◌&&◌, ◌||◌, Option, none, some, List, [],
  ◌∷◌, ◌++◌, map, all, leb, length, ◌==◌, if◌then◌else◌,
}

abbrev pub is_hex : ℕ → Bool
is_hex c = leb b'0' c && leb c b'9' || leb b'a' c && leb c b'f'

abbrev pub is_space : ℕ → Bool
is_space c =
    leb 9 c && leb c 13
    || c == 32
    || c == 160
    || c == 5760
    || leb 8192 c && leb c 8202
    || c == 8232
    || c == 8233
    || c == 8239
    || c == 8287
    || c == 12288
    || c == 65279

abbrev pub lower_char : ℕ → ℕ
lower_char c = if leb b'A' c && leb c b'Z' then c + 32 else c

unfoldable pub skip_spaces : List ℕ → List ℕ
skip_spaces [] = []
skip_spaces (c ∷ cs) = let rest = skip_spaces cs in if is_space c then rest else c ∷ cs

unfoldable pub drop_spaces_after : List ℕ → List ℕ
drop_spaces_after [] = []
drop_spaces_after (c ∷ cs) =
    let rest = drop_spaces_after cs in if is_space c && length rest == 0 then [] else c ∷ rest

-- `header.trim().toLowerCase()`
unfoldable pub cleaned : List ℕ → List ℕ
unfolding skip_spaces drop_spaces_after
cleaned header = map lower_char (drop_spaces_after (skip_spaces header))

-- `[0-9a-f]{n}` at the front: what it matches, and what follows.
unfoldable pub read_hex : ℕ → List ℕ → Option (List ℕ × List ℕ)
read_hex zero cs = some ([], cs)
read_hex (suc n) [] = none
read_hex (suc n) (c ∷ cs) =
    let rest = read_hex n cs in
    if is_hex c then elim rest [ none ↦ none | some r ↦ some (c ∷ r.0, r.1) ] else none

-- `-` at the front.
unfoldable pub read_dash : List ℕ → Option (List ℕ)
read_dash [] = none
read_dash (c ∷ cs) = if c == b'-' then some cs else none

infixl 15 ◌>>=◌
abbrev pub ◌>>=◌ : {A B : Type 0} → Option A → (A → Option B) → Option B
none >>= f = none
some a >>= f = f a

-- The groups of `TRACEPARENT`: version, trace id, span id and flags.
unfoldable pub exec_traceparent : List ℕ → Option (List ℕ × List ℕ × List ℕ × List ℕ)
unfolding read_hex read_dash
exec_traceparent cs = do
  (version, a) ← read_hex 2 cs
  b ← read_dash a
  (trace, c) ← read_hex 32 b
  d ← read_dash c
  (span, e) ← read_hex 16 d
  f ← read_dash e
  (flags, g) ← read_hex 2 f
  if length g == 0 then some (version, trace, span, flags) else none

pub record TraceContext : Type 0 where
  pub trace_id : List ℕ
  pub span_id : List ℕ
  pub sampled : Bool

-- `=== '0'.repeat(n)`, of an id with n digits.
abbrev pub is_all_zero : List ℕ → Bool
is_all_zero cs = all (λ c. c == b'0') cs

abbrev hex_value : ℕ → ℕ
hex_value c = if leb c b'9' then c - 48 else c - 87

-- `(parseInt(flags, 16) & 1) === 1`: the last digit decides.
unfoldable pub is_odd : List ℕ → Bool
is_odd [] = false
is_odd (c ∷ []) = hex_value c % 2 == 1
is_odd (c ∷ d ∷ cs) = is_odd (d ∷ cs)

abbrev pub is_ff : List ℕ → Bool
is_ff version = all (λ c. c == b'f') version

-- What is made of the groups.
unfoldable pub check_groups : Option (List ℕ × List ℕ × List ℕ × List ℕ) → Option TraceContext
unfolding is_odd
check_groups none = none
check_groups (some (version, trace, span, flags)) =
    if is_ff version || is_all_zero trace || is_all_zero span
    then none
    else some (record { trace_id = trace; span_id = span; sampled = is_odd flags })

unfoldable pub parse_traceparent : Option (List ℕ) → Option TraceContext
parse_traceparent none = none
parse_traceparent (some header) = check_groups (exec_traceparent (cleaned header))

unfoldable pub format_traceparent : TraceContext → List ℕ
format_traceparent t =
    b'0'
    ∷ b'0'
    ∷ b'-'
    ∷ (t.trace_id ++ b'-' ∷ (t.span_id ++ b'-' ∷ b'0' ∷ (if t.sampled then b'1' else b'0') ∷ []))

-- A valid parent is continued under a new span.
abbrev pub continued : List ℕ → List ℕ → Option TraceContext → TraceContext
continued trace span (some parent) = record {
  trace_id = parent.trace_id;
  span_id = span;
  sampled = parent.sampled;
}
continued trace span none = record { trace_id = trace; span_id = span; sampled = true }

-- `traceContextFrom`: `trace` and `span` are what `newTraceId` and `newSpanId` return.
unfoldable pub trace_context_from : List ℕ → List ℕ → Option (List ℕ) → TraceContext
trace_context_from trace span header = continued trace span (parse_traceparent header)
