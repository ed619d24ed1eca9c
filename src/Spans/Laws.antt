-- ===== src/Spans/Laws.antt =====
-- The spans tile the device.
use xcp_ng_tests.Prelude.{
  ℕ, zero, suc, ◌+◌, ◌-◌, ◌*◌, ◌/◌, ◌≤◌, ◌<◌, ◌≡◌, refl, ap, List, [], ◌∷◌, ◌∙◌, arith, length,
}
use xcp_ng_tests.Prelude.Int.{ℤ, pos, ◌+ℤ◌, ◌-ℤ◌, ◌≤ℤ◌, min_ℤ, floor_multiple, int_laws}
use mathlib.Core.List.{reverse_aux}
use xcp_ng_tests.Spans.{Span, round_up, first_span, later_span, span_loop, sum_sizes}

-- The multiple of `block` at or above `n`.
abbrev pub up : ℕ → ℕ → ℕ
up n block = (n + block - 1) / block * block

pub up_bounds : (n block : ℕ) → 0 < block → (n ≤ up n block) × (up n block < n + block)
up_bounds n block h = grind arith

round_up-pos : (n block : ℕ) → 0 < block → round_up (pos n) block ≡ pos (up n block)
unfolding round_up floor_multiple ◌+ℤ◌ ◌-ℤ◌
round_up-pos n block h = ground arith

sub_pos : (a b : ℕ) → b ≤ a → pos a -ℤ pos b ≡ pos (a - b)
unfolding ◌-ℤ◌
sub_pos a b h = ground arith

later_span_lem :
    (b block e : ℕ)
    → 0 < block
    → b ≤ e
    → later_span (pos b) block (pos e)
      ≡ record { position = pos (up (e - b) block); size = pos e -ℤ pos (up (e - b) block) }
unfolding later_span
later_span_lem b block e h le = rw (sub_pos e b le, round_up-pos (e - b) block h)

-- What a later span leaves of its budget is not negative.
carry_lem :
    (b block e : ℕ)
    → 0 < block
    → b ≤ e
    → pos b -ℤ (pos e -ℤ pos (up (e - b) block)) ≡ pos (up (e - b) block + b - e)
unfolding ◌-ℤ◌
carry_lem b block e h le = let u = up_bounds (e - b) block h in ground arith

-- With a block of at most one byte more than the budget the span has no negative size.
up-le : (b block e : ℕ) → 0 < block → b ≤ e → block ≤ b + 1 → up (e - b) block ≤ e
up-le b block e h le small = let u = up_bounds (e - b) block h in omega arith

-- The spans from `lo` up to the end of the device: each starts on a block boundary, where the one
-- before it ends.
abbrev pub IsTiling : ℕ → ℤ → ℤ → List Span → Type 0
IsTiling block lo dev [] = lo ≡ dev
IsTiling block lo dev (s ∷ spans) =
    (s.position ≡ lo)
    × (pos 0 ≤ℤ s.size)
    × ((k : ℕ) × (s.position ≡ pos (k * block)))
    × IsTiling block (s.position +ℤ s.size) dev spans

-- The first span starts at 0 and ends at or before the second, from which the others tile the
-- device.
abbrev pub IsLayout : ℕ → ℤ → List Span → Type 0
IsLayout block dev [] = ⊥
IsLayout block dev (f ∷ []) = (f.position ≡ pos 0) × (pos 0 ≤ℤ f.size) × (f.size ≤ℤ dev)
IsLayout block dev (f ∷ s ∷ spans) =
    (f.position ≡ pos 0)
    × (pos 0 ≤ℤ f.size)
    × (f.size ≤ℤ s.position)
    × IsTiling block s.position dev (s ∷ spans)

first_span-IsLayout :
    (b block e : ℕ) (dev : ℤ) (acc : List Span)
    → IsTiling block (pos e) dev acc
    → IsLayout block dev (first_span (pos b) (pos e) ∷ acc)
unfolding first_span min_ℤ
first_span-IsLayout b block e dev [] t = ground arith
first_span-IsLayout b block e dev (s ∷ acc) t = ground arith

add_pos : (a b : ℕ) → pos a +ℤ pos b ≡ pos (a + b)
unfolding ◌+ℤ◌
add_pos a b = ground arith

sub_add : (p e : ℤ) → p +ℤ (e -ℤ p) ≡ e
sub_add p e = omega int_laws

module _ (per block c : ℕ) (h : 0 < block) where
  span_loop-one :
      (end : ℤ) → span_loop 1 per block (pos c) end ≡ first_span (pos (per + c)) end ∷ []
  unfolding span_loop
  span_loop-one end = ap (λ b. first_span b end ∷ []) (add_pos per c)

  module _ (i e : ℕ) (room : per + c ≤ e) where
    -- One round of the loop: the start of the span, the span, and the rest with what it left.
    abbrev start : ℕ
    start = up (e - (per + c)) block

    pub span_loop-suc :
        span_loop (suc (suc i)) per block (pos c) (pos e)
        ≡ record { position = pos start; size = pos e -ℤ pos start }
          ∷ span_loop (suc i) per block (pos (start + (per + c) - e)) (pos start)
    unfolding span_loop
    span_loop-suc =
        rw (
          add_pos per c,
          later_span_lem (per + c) block e h room,
          carry_lem (per + c) block e h room,
        )

diff_nonneg : (a e : ℕ) → a ≤ e → pos 0 ≤ℤ pos e -ℤ pos a
diff_nonneg a e h = omega int_laws

pub span_loop-IsLayout :
    (i per block c e : ℕ) (dev : ℤ) (acc : List Span)
    → 0 < block
    → block ≤ per + 1
    → per * suc i + c ≤ e
    → IsTiling block (pos e) dev acc
    → IsLayout block dev (reverse_aux (span_loop (suc i) per block (pos c) (pos e)) acc)
span_loop-IsLayout zero per block c e dev acc h small room t =
    rw (span_loop-one per block c h) (first_span-IsLayout (per + c) block e dev acc t)
span_loop-IsLayout (suc i) per block c e dev acc h small room t =
    let b : ℕ = per + c in
    let fits : b ≤ e = grind arith in
    let bounds = up_bounds (e - b) block h in
    rw (span_loop-suc per block c h i e fits) (
      span_loop-IsLayout i per block (up (e - b) block + b - e) (up (e - b) block) dev _ h small
        (grind arith)
        (refl, diff_nonneg _ e (up-le b block e h fits (omega arith)), (_, refl), rw sub_add t))

pub length-span_loop :
    (i per block : ℕ) (carry end : ℤ) → length (span_loop i per block carry end) ≡ i
unfolding span_loop
length-span_loop zero per block carry end = refl
length-span_loop (suc zero) per block carry end = refl
length-span_loop (suc (suc i)) per block carry end = ap suc (length-span_loop (suc i) per block _ _)

size-first_span : (b e n : ℕ) → b ≤ e → b ≡ n → (first_span (pos b) (pos e)).size ≡ pos n
unfolding first_span min_ℤ
size-first_span b e n h p = ground arith

pub add_zero : (a : ℤ) → a +ℤ pos 0 ≡ a
add_zero a = omega int_laws

telescope : (e s b rest n : ℕ) → e ≤ s + b → rest + e ≡ n + s → pos e -ℤ pos s +ℤ pos rest ≡ pos n
telescope e s b rest n h k = omega int_laws

-- The sizes add up, whatever the block size, because each span hands on what it left.
pub sum_sizes-span_loop :
    (i per block c e : ℕ)
    → 0 < block
    → per * suc i + c ≤ e
    → sum_sizes (span_loop (suc i) per block (pos c) (pos e)) ≡ pos (per * suc i + c)
unfolding sum_sizes
sum_sizes-span_loop zero per block c e h room =
    rw (span_loop-one per block c h, add_zero) (size-first_span _ _ _ (omega arith) (omega arith))
sum_sizes-span_loop (suc i) per block c e h room =
    let b : ℕ = per + c in
    let fits : b ≤ e = grind arith in
    let bounds = up_bounds (e - b) block h in
    rw
      (
        span_loop-suc per block c h i e fits,
        sum_sizes-span_loop i per block (up (e - b) block + b - e) (up (e - b) block) h
            (grind arith),
      )
      (telescope e _ b _ _ (omega arith) (grind arith))

regroup : (a b c : ℤ) → b +ℤ (a +ℤ c) ≡ a +ℤ b +ℤ c
regroup a b c = omega int_laws

pub length-reverse_aux :
    (spans acc : List Span) → length (reverse_aux spans acc) ≡ length spans + length acc
length-reverse_aux [] acc = omega arith
length-reverse_aux (s ∷ spans) acc = omega (arith, length-reverse_aux spans (s ∷ acc))

pub sum_sizes-reverse_aux :
    (spans acc : List Span) → sum_sizes (reverse_aux spans acc) ≡ sum_sizes spans +ℤ sum_sizes acc
unfolding sum_sizes
sum_sizes-reverse_aux [] acc = omega int_laws
sum_sizes-reverse_aux (s ∷ spans) acc =
    sum_sizes-reverse_aux spans (s ∷ acc) ∙ regroup s.size (sum_sizes spans) (sum_sizes acc)
