-- ===== src/Events/Signature.antt =====
-- packages/events/src/signature.ts: `buildSignatureHeader`. The HMAC of node:crypto is a parameter,
-- `hmac secret message`.
use booking_lumin_checkout.Base.{ℕ, String}
use booking_lumin_checkout.Base.Decimal.{decimal}
use Prim.Native.String.{◌++◌}

abbrev pub signed_text : String → ℕ → String
signed_text body ts = decimal ts ++ ("." ++ body)

unfoldable pub build_signature_header : (String → String → String) → String → String → ℕ → String
build_signature_header hmac body secret ts =
    "t=" ++ (decimal ts ++ (",v1=" ++ hmac secret (signed_text body ts)))
