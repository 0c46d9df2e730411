-- ===== src/Shared/Trace/Parsed.antt =====
-- What `parseTraceparent` and `traceContextFrom` return (src/shared/trace-context.util.ts).
use nestjs_ddd.Prelude.{
  ℕ, zero, suc, ◌≡◌, refl, ap, Bool, true, false, ◌&&◌, Option, none, some, List, [], ◌∷◌, all,
  length, ◌==◌, arith, Option-cases, inl, inr, if◌then◌else◌,
}
use nestjs_ddd.Shared.Trace.{
  is_hex, cleaned, read_hex, read_dash, exec_traceparent, TraceContext, check_groups,
  parse_traceparent, trace_context_from, continued, ◌>>=◌,
}
use nestjs_ddd.Shared.Trace.Roundtrip.{is_id}

abbrev Groups : Type 0
Groups = List ℕ × List ℕ × List ℕ × List ℕ

-- Lower-case hexadecimal digits, as many as the id has.
abbrev is_hex_id : ℕ → List ℕ → Bool
is_hex_id n cs = length cs == n && all is_hex cs

read_hex-IsHex :
    (n : ℕ) (cs xs rest : List ℕ) → read_hex n cs ≡ some (xs, rest) → is_hex_id n xs ≡ true
unfolding read_hex
read_hex-IsHex zero cs xs rest e = ground arith
read_hex-IsHex (suc n) [] xs rest e = cc
read_hex-IsHex (suc n) (c ∷ cs) xs rest e = elim (Option-cases (read_hex n cs)) [
  | inl nothing ↦ ground arith
  | inr ((ys, zs), found) ↦ ground (arith, read_hex-IsHex n cs ys zs found)
]

-- The steps of a chain that gave a result.
bind-some :
    {A B : Type 0} (m : Option A) (f : A → Option B) {b : B}
    → (m >>= f) ≡ some b
    → (a : A) × (m ≡ some a) × (f a ≡ some b)
bind-some none f h = cc
bind-some (some a) f h = (a, refl, h)

guard-some : {A : Type 0} (b : Bool) {x y : A} → (if b then some x else none) ≡ some y → x ≡ y
guard-some true h = cc
guard-some false h = cc

exec_traceparent-IsHex :
    (cs version trace span flags : List ℕ)
    → exec_traceparent cs ≡ some (version, trace, span, flags)
    → (is_hex_id 32 trace ≡ true) × (is_hex_id 16 span ≡ true)
unfolding exec_traceparent
exec_traceparent-IsHex cs version trace span flags e =
    let (one, read_one, e1) = bind-some (read_hex 2 cs) _ e in
    let (two, read_two, e2) = bind-some (read_dash one.1) _ e1 in
    let (three, read_three, e3) = bind-some (read_hex 32 two) _ e2 in
    let (four, read_four, e4) = bind-some (read_dash three.1) _ e3 in
    let (five, read_five, e5) = bind-some (read_hex 16 four) _ e4 in
    let (six, read_six, e6) = bind-some (read_dash five.1) _ e5 in
    let (seven, read_seven, e7) = bind-some (read_hex 2 six) _ e6 in
    let first = read_hex-IsHex 32 two three.0 three.1 read_three in
    let second = read_hex-IsHex 16 four five.0 five.1 read_five in
    let whole = guard-some (length seven.1 == 0) e7 in
    (rw (← ap (λ (p : Groups). p.1) whole) first, rw (← ap (λ (p : Groups). p.2) whole) second)

check_groups-is_id :
    (groups : Option Groups) (t : TraceContext)
    → ((v trace span flags : List ℕ)
        → groups ≡ some (v, trace, span, flags)
        → (is_hex_id 32 trace ≡ true) × (is_hex_id 16 span ≡ true))
    → check_groups groups ≡ some t
    → (is_id 32 t.trace_id ≡ true) × (is_id 16 t.span_id ≡ true)
unfolding check_groups
check_groups-is_id none t hex e = cc
check_groups-is_id (some (v, trace, span, flags)) t hex e =
    let digits = hex v trace span flags refl in (ground arith, ground arith)

-- The ids of a header that is accepted have the form that is required.
parse_traceparent-is_id :
    (header : Option (List ℕ)) (t : TraceContext)
    → parse_traceparent header ≡ some t
    → (is_id 32 t.trace_id ≡ true) × (is_id 16 t.span_id ≡ true)
unfolding parse_traceparent
parse_traceparent-is_id none t e = cc
parse_traceparent-is_id (some header) t e =
    check_groups-is_id (exec_traceparent (cleaned header)) t
      (exec_traceparent-IsHex (cleaned header)) e

-- So have those of the trace of a request, if the new ids have it.
pub trace_context_from-is_id :
    (trace span : List ℕ) (header : Option (List ℕ))
    → is_id 32 trace ≡ true
    → is_id 16 span ≡ true
    → (is_id 32 (trace_context_from trace span header).trace_id ≡ true)
      × (is_id 16 (trace_context_from trace span header).span_id ≡ true)
unfolding trace_context_from
trace_context_from-is_id trace span header t s = elim (Option-cases (parse_traceparent header)) [
  | inl nothing ↦ rw (nothing, continued) (t, s)
  | inr (parent, read) ↦ rw (read, continued) ((parse_traceparent-is_id header parent read).0, s)
]
