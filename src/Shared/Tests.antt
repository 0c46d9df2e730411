-- ===== src/Shared/Tests.antt =====
-- The theorem on trace contexts at a concrete header.
use nestjs_ddd.Prelude.{ℕ, true, List, [], ◌∷◌}
use nestjs_ddd.Shared.Trace.{TraceContext}

abbrev eight : List ℕ → List ℕ
eight cs = b'0' ∷ b'1' ∷ b'2' ∷ b'3' ∷ b'4' ∷ b'a' ∷ b'b' ∷ b'f' ∷ cs

abbrev trace : TraceContext
trace = record {
  trace_id = eight (eight (eight (eight [])));
  span_id = eight (eight []);
  sampled = true;
}
