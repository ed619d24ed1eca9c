-- ===== src/Commands/PowerShell.antt =====
-- lib/commands.py: `encode_powershell_command`, base64 of UTF-16.
use xcp_ng_tests.Prelude.{ℕ, ◌+◌, ◌*◌, ◌-◌, ◌/◌, ◌%◌, List, [], ◌∷◌, Text, ltb, ◌==◌, if◌then◌else◌}
use xcp_ng_tests.Effect.{Result, ok, bind}
use xcp_ng_tests.Efi.Signature.Formats.{utf_16_le}

-- The digit of base64 for a number below 64.
abbrev base64_digit : ℕ → ℕ
base64_digit n =
    if ltb n 26
    then n + 65
    else if ltb n 52
    then n + 71
    else if ltb n 62
    then n - 4
    else if n == 62
    then b'+'
    else b'/'

-- `base64.b64encode`
unfoldable pub base64 : List ℕ → Text
base64 [] = []
base64 (a ∷ []) = base64_digit (a / 4) ∷ base64_digit (a % 4 * 16) ∷ b'=' ∷ b'=' ∷ []
base64 (a ∷ b ∷ []) =
    base64_digit (a / 4)
    ∷ base64_digit (a % 4 * 16 + b / 16)
    ∷ base64_digit (b % 16 * 4)
    ∷ b'='
    ∷ []
base64 (a ∷ b ∷ c ∷ bytes) =
    base64_digit (a / 4)
    ∷ base64_digit (a % 4 * 16 + b / 16)
    ∷ base64_digit (b % 16 * 4 + c / 64)
    ∷ base64_digit (c % 64)
    ∷ base64 bytes

unfoldable pub encode_powershell_command : Text → Result Text
encode_powershell_command cmd = bind (utf_16_le cmd) λ bytes. ok (base64 bytes)
