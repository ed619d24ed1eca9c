-- ===== src/Spans.antt =====
-- tests/storage/storage.py: the layout of test data over a block device.
pub mod Laws
pub mod Layout
mod Tests
use xcp_ng_tests.Prelude.{
  ℕ, zero, suc, ◌+◌, ◌-◌, ◌/◌, ◌%◌, Bool, List, [], ◌∷◌, ◌==◌, ◌&&◌, ltb, if◌then◌else◌,
}
use xcp_ng_tests.Prelude.Int.{ℤ, pos, ◌+ℤ◌, ◌-ℤ◌, min_ℤ, floor_multiple}
use xcp_ng_tests.Prelude.Int.{eqb_ℤ}
use mathlib.Core.List.{reverse}
use xcp_ng_tests.Effect.{Result, ok, err, zero_division_error, assertion_error}

-- One `(position, size)` tuple.
pub record Span : Type 0 where
  pub position : ℤ
  pub size : ℤ

-- `((ideal_start + block_size - 1) // block_size) * block_size`, with floor division.
pub round_up : ℤ → ℕ → ℤ
round_up ideal_start block_size = floor_multiple (ideal_start +ℤ pos block_size -ℤ pos 1) block_size

-- The body of the loop for `i == 0`.
pub first_span : ℤ → ℤ → Span
first_span budget end = record { position = pos 0; size = min_ℤ budget end }

-- The body of the loop for `i > 0`.
pub later_span : ℤ → ℕ → ℤ → Span
later_span budget block_size end =
    let start = round_up (end -ℤ budget) block_size in
    record { position = start; size = end -ℤ start }

-- The loop `for i in range(num_spans - 1, -1, -1)`; the first argument is the number of rounds
-- left, and the spans come in the order in which they are appended.
pub span_loop : ℕ → ℕ → ℕ → ℤ → ℤ → List Span
span_loop zero per_span block_size carry end = []
span_loop (suc zero) per_span block_size carry end = first_span (pos per_span +ℤ carry) end ∷ []
span_loop (suc (suc i)) per_span block_size carry end =
    let budget = pos per_span +ℤ carry in
    let span = later_span budget block_size end in
    span ∷ span_loop (suc i) per_span block_size (budget -ℤ span.size) span.position

-- `sum(s for _, s in result)`
pub sum_sizes : List Span → ℤ
sum_sizes [] = pos 0
sum_sizes (span ∷ spans) = span.size +ℤ sum_sizes spans

-- Division by `num_spans` or, where a span other than the first exists, by `block_size` raises if
-- that is 0.
pub compute_span_layout : ℕ → ℕ → ℕ → ℕ → Result (List Span)
compute_span_layout dev_size total_size num_spans block_size =
    if num_spans == 0
    then err zero_division_error
    else if ltb 1 num_spans && block_size == 0
    then err zero_division_error
    else let result =
        span_loop num_spans (total_size / num_spans) block_size (pos (total_size % num_spans))
          (pos dev_size) in
      if eqb_ℤ (sum_sizes result) (pos total_size) then ok (reverse result) else err assertion_error
