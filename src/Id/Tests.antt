-- ===== src/Id/Tests.antt =====
-- An identifier in hexadecimal.
use edgesync_espidf.Prelude.{◌≡◌, length, arith}
use edgesync_espidf.Id.{id_to_hex}
use edgesync_espidf.Id.Hex.{hex_value, hex_value-id_to_hex}

hex_value-id_to_hex_example :
    (length (id_to_hex 0xDEADBEEF) ≡ 17) × (hex_value (id_to_hex 0xDEADBEEF) 0 ≡ 0xDEADBEEF)
hex_value-id_to_hex_example = hex_value-id_to_hex 0xDEADBEEF (omega arith)
