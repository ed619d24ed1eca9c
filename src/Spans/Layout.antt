-- ===== src/Spans/Layout.antt =====
-- What `compute_span_layout` promises, on the layout that it returns.
use xcp_ng_tests.Prelude.{
  ℕ, zero, suc, ◌+◌, ◌-◌, ◌++◌, ◌∷◌, ◌*◌, ◌/◌, ◌%◌, ◌≤◌, ◌<◌, ◌≡◌, List, [], ap, ◌∙◌, refl, arith,
  length,
}
use xcp_ng_tests.Prelude.Int.{pos, ◌-ℤ◌, ◌≤ℤ◌}
use xcp_ng_tests.Effect.{ok}
use xcp_ng_tests.Spans.{Span, sum_sizes, span_loop, compute_span_layout}
use xcp_ng_tests.Spans.Laws.{
  IsLayout, length-span_loop, length-reverse_aux, sum_sizes-span_loop, sum_sizes-reverse_aux,
  span_loop-IsLayout, add_zero, up, span_loop-suc, up_bounds,
}
use native.Mathlib.Nat.{le-div_iff_mul-le, div-add-mod', mod-le}
use native.Mathlib.Decide.{dec_le}
use mathlib.Core.List.{reverse, reverse_aux}

module _ (dev total i block : ℕ) (h : 0 < block) (le : total ≤ dev) where
  abbrev layout : List Span
  layout = reverse (span_loop (suc i) (total / suc i) block (pos (total % suc i)) (pos dev))

  division : total / suc i * suc i + total % suc i ≡ total
  division = grind arith

  sum_sizes-loop :
      sum_sizes (span_loop (suc i) (total / suc i) block (pos (total % suc i)) (pos dev))
      ≡ pos total
  sum_sizes-loop = sum_sizes-span_loop i _ block _ dev h (omega (arith, division)) ∙ ap pos division

  compute_span_layout_lem : compute_span_layout dev total (suc i) block ≡ ok layout
  unfolding compute_span_layout
  compute_span_layout_lem = rw sum_sizes-loop (ground arith)

-- With `dev_size` bytes or fewer to write, at least one span and a positive block size,
-- the layout exists: the final assertion holds, it has `num_spans` spans, and their sizes add up
-- to `total_size`.
pub compute_span_layout_total :
    (dev_size total_size num_spans block_size : ℕ)
    → 0 < num_spans
    → 0 < block_size
    → total_size ≤ dev_size
    → (spans : List Span) × (compute_span_layout dev_size total_size num_spans block_size
        ≡ ok spans)
      × (length spans ≡ num_spans)
      × (sum_sizes spans ≡ pos total_size)
compute_span_layout_total dev total zero block p h le = absurd (omega arith)
compute_span_layout_total dev total (suc i) block p h le =
    let loop = span_loop (suc i) (total / suc i) block (pos (total % suc i)) (pos dev) in
    (
      layout dev total i block h le,
      compute_span_layout_lem dev total i block h le,
      length-reverse_aux loop []
          ∙ omega (
            arith,
            length-span_loop (suc i) (total / suc i) block (pos (total % suc i)) (pos dev),
          ),
      sum_sizes-reverse_aux loop []
          ∙ unfold sum_sizes in add_zero _ ∙ sum_sizes-loop dev total i block h le,
    )

-- If a block is at most one byte longer than the share of one span, the layout is as described:
-- the first span starts at 0 and ends where the second starts or before, the second and every
-- later span starts on a multiple of the block size and at the end of the one before it, the last
-- of them ends at `dev_size`, and no size is negative.
pub compute_span_layout-IsLayout :
    (dev_size total_size num_spans block_size : ℕ) {spans : List Span}
    → 0 < num_spans
    → 0 < block_size
    → total_size ≤ dev_size
    → block_size ≤ total_size / num_spans + 1
    → compute_span_layout dev_size total_size num_spans block_size ≡ ok spans
    → IsLayout block_size (pos dev_size) spans
compute_span_layout-IsLayout dev total zero block p h le small e = absurd (omega arith)
compute_span_layout-IsLayout dev total (suc i) block {spans} p h le small e =
    let made : layout dev total i block h le ≡ spans =
      cc (compute_span_layout_lem dev total i block h le) in
    rw (← made) (
      span_loop-IsLayout i (total / suc i) block (total % suc i) dev (pos dev) [] h small
        (omega (arith, division dev total i block h le)) refl)

-- The greatest multiple of `block` up to `dev` leaves the remainder of `dev`.
multiple-le : (k block dev : ℕ) → 0 < block → k * block ≤ dev → k * block + dev % block ≤ dev
multiple-le k block dev h le =
    let q : k ≤ dev / block = (le-div_iff_mul-le h).1 le in
    let m : k * block ≤ dev / block * block = grind arith in omega (arith, div-add-mod' dev block)

up-beyond : (b block dev : ℕ) → 0 < block → b < dev % block → dev < up (dev - b) block
up-beyond b block dev h short = elim (dec_le (up (dev - b) block) dev) [
  | yes le ↦ absurd (
      omega (
        arith,
        up_bounds (dev - b) block h,
        multiple-le ((dev - b + block - 1) / block) block dev h le,
      ))
  | no gt ↦ omega arith
]

reverse_aux-append :
    (spans front back : List Span)
    → reverse_aux spans (front ++ back) ≡ reverse_aux spans front ++ back
reverse_aux-append [] front back = refl
reverse_aux-append (s ∷ spans) front back = reverse_aux-append spans (s ∷ front) back

-- With two spans or more, a positive block size and `dev_size` bytes or fewer to write, if the last
-- span has fewer bytes than `dev_size` exceeds a multiple of the block size, it starts beyond the end
-- of the device.
pub last_span_beyond_end :
    (dev_size total_size num_spans block_size : ℕ)
    → 1 < num_spans
    → 0 < block_size
    → total_size ≤ dev_size
    → total_size / num_spans + total_size % num_spans < dev_size % block_size
    → (front : List Span) × (last : Span) × (compute_span_layout dev_size total_size num_spans
          block_size
        ≡ ok (front ++ (last ∷ [])))
      × (pos (dev_size + 1) ≤ℤ last.position)
last_span_beyond_end dev total zero block p h le short = absurd (omega arith)
last_span_beyond_end dev total (suc zero) block p h le short = absurd (omega arith)
last_span_beyond_end dev total (suc (suc i)) block p h le short =
    let per : ℕ = total / suc (suc i) in
    let c : ℕ = total % suc (suc i) in
    let room : per + c ≤ dev = omega (arith, mod-le dev block) in
    let start : ℕ = up (dev - (per + c)) block in
    let rest : List Span =
      span_loop (suc i) per block (pos (start + (per + c) - dev)) (pos start) in
    let last : Span = record { position = pos start; size = pos dev -ℤ pos start } in
    (
      reverse rest,
      last,
      compute_span_layout_lem dev total (suc i) block h le
          ∙ ap ok (
              ap reverse (span_loop-suc per block c h i dev room)
              ∙ reverse_aux-append rest [] (last ∷ [])),
      omega (arith, up-beyond (per + c) block dev h short),
    )
