-- ===== src/Vdi.antt =====
-- lib/vdi.py: a virtual disk, through `xe` on the master of the pool of its SR.
use xcp_ng_tests.Prelude.{
  ℕ, Bool, true, false, not, Option, none, some, List, [], ◌∷◌, Text, text_eq, lit, contains,
  parse_int, if◌then◌else◌,
}
use xcp_ng_tests.Effect.{Result, ok, err, Exec, pure, lift, ◌>>=◌, ◌>>◌, value_error}
use xcp_ng_tests.Commands.{Env, Trace}
use xcp_ng_tests.Common.Values.{strtobool}
use xcp_ng_tests.Common.Waiting.{trace_clock, wait_for}
use xcp_ng_tests.Common.Xe.{text, xe, param_get}

pub same_parent : Option Text → Option Text → Bool
same_parent none none = true
same_parent (some a) (some b) = text_eq a b
same_parent a b = false

-- `ImageFormat`
abbrev image_formats : List Text
image_formats = lit "qcow2" ∷ lit "raw" ∷ lit "vhd" ∷ []

-- `int(…)`, which raises on a text that is no number.
pub size_of : Option Text → Result ℕ
size_of none = err value_error
size_of (some t) = elim (parse_int t) [ none ↦ err value_error | some n ↦ ok n ]

-- `None`, or a value that `ensure_type` lets pass.
pub image_format_of : Option Text → Result (Option Text)
image_format_of none = ok none
image_format_of (some v) = if contains image_formats v then ok (some v) else err value_error

module _ (E : Env) (master uuid : Text) where
  unfoldable pub vdi_param_get : Text → Option Text → Bool → Exec Trace (Option Text)
  vdi_param_get param_name key accept_unknown_key =
      param_get E master (lit "vdi") uuid param_name key accept_unknown_key

  unfoldable pub name : Exec Trace (Option Text)
  name = vdi_param_get (lit "name-label") none false

  unfoldable pub destroy : Exec Trace (Unit {0})
  destroy = xe E master (lit "vdi-destroy") ((lit "uuid", text uuid) ∷ []) >>= λ _. pure tt

  -- The UUID of the new disk.
  pub clone : Exec Trace Text
  clone = xe E master (lit "vdi-clone") ((lit "uuid", text uuid) ∷ [])

  pub snapshot : Exec Trace Text
  snapshot = xe E master (lit "vdi-snapshot") ((lit "uuid", text uuid) ∷ [])

  pub readonly : Exec Trace Bool
  readonly = vdi_param_get (lit "read-only") none false >>= λ v. lift (strtobool v)

  pub get_virtual_size : Exec Trace ℕ
  get_virtual_size = vdi_param_get (lit "virtual-size") none false >>= λ v. lift (size_of v)

  pub get_parent : Exec Trace (Option Text)
  get_parent = vdi_param_get (lit "sm-config") (some (lit "vhd-parent")) true

  pub get_image_format : Exec Trace (Option Text)
  get_image_format = vdi_param_get (lit "sm-config") (some (lit "image-format")) true >>= λ v.
      lift (image_format_of v)

  pub parent_changed : Option Text → Exec Trace Bool
  parent_changed previous = get_parent >>= λ parent. pure (not (same_parent parent previous))

  -- `fn` runs between the two looks at the parent; 301 rounds are enough for 600 seconds.
  pub wait_for_coalesce : {R : Type 0} → Option (Exec Trace R) → Exec Trace (Option R)
  wait_for_coalesce fn = do
    previous_parent ← get_parent
    ret ← elim fn [ none ↦ pure none | some f ↦ f >>= λ r. pure (some r) ]
    wait_for (trace_clock E) (parent_changed previous_parent) 600 2 false 301
    pure ret
