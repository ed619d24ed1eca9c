-- ===== src/Spans/Tests.antt =====
-- The layout of test data on small devices.
use xcp_ng_tests.Prelude.{◌++◌, ◌∷◌, [], List, ◌≡◌, refl, arith, length}
use xcp_ng_tests.Prelude.Int.{pos, floor_multiple, ◌≤ℤ◌, ◌+ℤ◌, ◌-ℤ◌, min_ℤ}
use xcp_ng_tests.Effect.{ok, err, zero_division_error}
use xcp_ng_tests.Spans.{
  Span, round_up, first_span, later_span, span_loop, sum_sizes, compute_span_layout,
}
use xcp_ng_tests.Spans.Laws.{IsLayout}
use xcp_ng_tests.Spans.Layout.{
  compute_span_layout_total, compute_span_layout-IsLayout, last_span_beyond_end,
}

abbrev three_spans : List Span
three_spans =
    record { position = pos 0; size = pos 328 }
    ∷ record { position = pos 384; size = pos 320 }
    ∷ record { position = pos 704; size = pos 296 }
    ∷ []

three_spans_made : compute_span_layout 1000 944 3 64 ≡ ok three_spans
unfolding compute_span_layout span_loop later_span first_span round_up sum_sizes floor_multiple ◌+ℤ◌
    ◌-ℤ◌ min_ℤ
three_spans_made = refl

no_spans : compute_span_layout 1000 944 0 64 ≡ err zero_division_error
unfolding compute_span_layout
no_spans = refl

compute_span_layout_total_example :
    (spans : List Span) × (compute_span_layout 1000 944 3 64 ≡ ok spans)
    × (length spans ≡ 3)
    × (sum_sizes spans ≡ pos 944)
compute_span_layout_total_example =
    compute_span_layout_total 1000 944 3 64 (omega arith) (omega arith) (omega arith)

compute_span_layout-IsLayout_example : IsLayout 64 (pos 1000) three_spans
compute_span_layout-IsLayout_example =
    compute_span_layout-IsLayout 1000 944 3 64 (omega arith) (omega arith) (omega arith)
      (omega arith) three_spans_made

last_span_beyond_end_example :
    (front : List Span) × (last : Span) × (compute_span_layout 1000 20 2 512
      ≡ ok (front ++ (last ∷ [])))
    × (pos 1001 ≤ℤ last.position)
last_span_beyond_end_example =
    last_span_beyond_end 1000 20 2 512 (omega arith) (omega arith) (omega arith) (omega arith)
