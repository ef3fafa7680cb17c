-- ===== src/Start/Hex.antt =====
-- encoding/hex, as cmd/seed/id.go and internal/server/http/middleware/requestid use it.
use wenjuandiaocha_backend.Base.{ℕ, ◌/◌, ◌%◌, String, List, [], ◌∷◌}
use wenjuandiaocha_backend.Start.Ids.{write_byte}

abbrev pub hex_digits : String
hex_digits = "0123456789abcdef"

-- hex.EncodeToString: two digits for each byte.
unfoldable pub hex : List ℕ → String
hex [] = ""
hex (x ∷ bytes) = write_byte (x / 16) hex_digits (write_byte (x % 16) hex_digits (hex bytes))

-- randSuffix, of six random bytes.
unfoldable pub rand_suffix : List ℕ → String
rand_suffix bytes = hex bytes
