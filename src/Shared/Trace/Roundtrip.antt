-- ===== src/Shared/Trace/Roundtrip.antt =====
-- `parseTraceparent` reads what `formatTraceparent` writes (src/shared/trace-context.util.ts).
use nestjs_ddd.Prelude.{
  ℕ, zero, suc, ◌≡◌, refl, ◌∙◌, ap, Bool, true, false, not, ◌&&◌, ◌||◌, some, List, [], ◌∷◌, ◌++◌,
  append-nil, map, all, length, ◌==◌, arith, if◌then◌else◌,
}
use nestjs_ddd.Shared.Trace.{
  is_hex, lower_char, skip_spaces, drop_spaces_after, cleaned, read_hex, read_dash,
  exec_traceparent, TraceContext, is_all_zero, check_groups, is_odd, parse_traceparent,
  format_traceparent,
}

-- What `format_traceparent` writes.
abbrev is_plain : ℕ → Bool
is_plain c = is_hex c || c == b'-'

cleaned_plain :
    (cs : List ℕ) → all is_plain cs ≡ true → (drop_spaces_after cs ≡ cs) × (map lower_char cs ≡ cs)
unfolding drop_spaces_after
cleaned_plain [] h = (refl, refl)
cleaned_plain (c ∷ cs) h =
    let (dropped, lowered) = cleaned_plain cs (ground arith) in (ground arith, ground arith)

skip_plain : (cs : List ℕ) → all is_plain cs ≡ true → skip_spaces cs ≡ cs
unfolding skip_spaces
skip_plain [] h = refl
skip_plain (c ∷ cs) h = ground arith

read_hex-append :
    (n : ℕ) (xs rest : List ℕ)
    → length xs ≡ n
    → all is_hex xs ≡ true
    → read_hex n (xs ++ rest) ≡ some (xs, rest)
unfolding read_hex
read_hex-append zero [] rest e h = refl
read_hex-append zero (x ∷ xs) rest e h = cc
read_hex-append (suc n) [] rest e h = cc
read_hex-append (suc n) (x ∷ xs) rest e h = ground (arith, read_hex-append n xs rest)

all-append_plain :
    (xs ys : List ℕ)
    → all is_hex xs ≡ true
    → all is_plain ys ≡ true
    → all is_plain (xs ++ ys) ≡ true
all-append_plain [] ys h k = k
all-append_plain (x ∷ xs) ys h k = ground (arith, all-append_plain xs ys)

-- An id of the form that the format requires.
abbrev pub is_id : ℕ → List ℕ → Bool
is_id n cs = length cs == n && all is_hex cs && not (is_all_zero cs)

cleaned-plain : (cs : List ℕ) → all is_plain cs ≡ true → cleaned cs ≡ cs
unfolding cleaned
cleaned-plain cs h =
    let (dropped, lowered) = cleaned_plain cs h in rw (skip_plain cs h) (rw dropped lowered)

is_id-parts :
    (n : ℕ) (cs : List ℕ)
    → is_id n cs ≡ true
    → (length cs ≡ n) × (all is_hex cs ≡ true) × (is_all_zero cs ≡ false)
is_id-parts n cs h = (ground arith, ground arith, ground arith)

exec_traceparent-written :
    (version trace span flags : List ℕ)
    → length version ≡ 2
    → all is_hex version ≡ true
    → length trace ≡ 32
    → all is_hex trace ≡ true
    → length span ≡ 16
    → all is_hex span ≡ true
    → length flags ≡ 2
    → all is_hex flags ≡ true
    → exec_traceparent (version ++ b'-' ∷ (trace ++ b'-' ∷ (span ++ b'-' ∷ flags)))
      ≡ some (version, trace, span, flags)
unfolding exec_traceparent read_dash
exec_traceparent-written version trace span flags vl vh tl th sl sh fl fh =
    let one = read_hex-append 2 version (b'-' ∷ (trace ++ b'-' ∷ (span ++ b'-' ∷ flags))) vl vh in
    let two = read_hex-append 32 trace (b'-' ∷ (span ++ b'-' ∷ flags)) tl th in
    let three = read_hex-append 16 span (b'-' ∷ flags) sl sh in
    let four = read_hex-append 2 flags [] fl fh in
    rw one (rw two (rw three (rw (rw append-nil at four) refl)))

-- What is written for a trace context with ids of the required form is read back as it was.
pub parse_traceparent-format :
    (t : TraceContext)
    → is_id 32 t.trace_id ≡ true
    → is_id 16 t.span_id ≡ true
    → parse_traceparent (some (format_traceparent t)) ≡ some t
unfolding parse_traceparent check_groups format_traceparent is_odd
parse_traceparent-format t trace span =
    let flags = b'0' ∷ (if t.sampled then b'1' else b'0') ∷ [] in
    let flags_plain : all is_plain (b'-' ∷ flags) ≡ true = ground arith in
    let flags_hex : all is_hex flags ≡ true = ground arith in
    let (trace_len, trace_hex, trace_some) = is_id-parts 32 t.trace_id trace in
    let (span_len, span_hex, span_some) = is_id-parts 16 t.span_id span in
    let span_plain = all-append_plain t.span_id (b'-' ∷ flags) span_hex flags_plain in
    let whole =
      all-append_plain t.trace_id (b'-' ∷ (t.span_id ++ b'-' ∷ flags)) trace_hex span_plain in
    let read =
      exec_traceparent-written (b'0' ∷ b'0' ∷ []) t.trace_id t.span_id flags refl refl trace_len
        trace_hex span_len span_hex refl flags_hex in
    let clean : cleaned (format_traceparent t) ≡ format_traceparent t =
      cleaned-plain (format_traceparent t) whole in
    ap check_groups (ap exec_traceparent clean ∙ read) ∙ ground arith
