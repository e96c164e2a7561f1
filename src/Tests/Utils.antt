-- ===== src/Tests/Utils.antt =====
-- The small helpers at concrete inputs.
use spacegate.Common.{ℕ, ◌∷◌, ◌++◌, ◌≡◌, refl, codes, none}
use spacegate.Utils.ParseHost.{from_bytes, port_of, NoColon, from_bytes-name}
use spacegate.Utils.SchemaPort.{schema_to_port}

abbrev https_port : ℕ
https_port = 443

no_https_port : schema_to_port (codes "https") ≡ none
unfolding schema_to_port
no_https_port = refl

from_bytes-name_example :
    (from_bytes (codes "example.com" ++ b':' ∷ codes "8080")
      ≡ record { host = codes "example.com"; port = port_of (codes "8080") })
    × (NoColon (codes "example.com")
        → from_bytes (codes "example.com") ≡ record { host = codes "example.com"; port = none })
from_bytes-name_example =
    from_bytes-name (codes "example.com") (codes "8080") (refl, (refl, (refl, (refl, tt))))
