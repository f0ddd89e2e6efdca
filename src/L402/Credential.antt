-- ===== src/L402/Credential.antt =====
-- lib/l402/l402.go: the caveats that a gate mints a credential with.
use dcr.Prelude.{◌++◌, List, ◌∷◌}
use dcr.Prelude.Int64.{ℤ}
use dcr.Prelude.Bytes.{Bytes, codes}
use dcr.GoText.{format_int}
use dcr.GoText.Words.{join}
use dcr.L402.Caveats.{caveat_services, caveat_valid_until_sfx, caveat_caps_sfx}

-- `ServicesCaveat`
unfoldable pub services_caveat : Bytes → ℤ → Bytes
services_caveat service tier = caveat_services ++ (b'=' ∷ (service ++ (b':' ∷ format_int tier)))

-- `ValidUntilCaveat`, at a time in seconds since 1970.
unfoldable pub valid_until_caveat : Bytes → ℤ → Bytes
valid_until_caveat service until = (service ++ caveat_valid_until_sfx) ++ (b'=' ∷ format_int until)

-- `CapabilitiesCaveat`
unfoldable pub capabilities_caveat : Bytes → List Bytes → Bytes
capabilities_caveat service caps = (service ++ caveat_caps_sfx) ++ (b'=' ∷ join caps (codes ","))
