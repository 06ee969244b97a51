-- ===== src/StaticHeaders/Tests.antt =====
-- The times that the configuration of static files writes.
use silverwind.Prelude.{String, ◌≡◌, refl, [], ok, err, string_eq}
use silverwind.Prelude.Digits.{parse_u64}
use silverwind.Duration.{trim}
use silverwind.Errors.{from}
use silverwind.StaticHeaders.{deserialize}

abbrev same : String → String
same s = s

-- The number wants a unit, and the unit a number.
reads :
    (deserialize same "30d" [] ≡ ok (record { expires = 2592000; extensions = [] }))
    × (deserialize same " 90 m " [] ≡ ok (record { expires = 5400; extensions = [] }))
    × (deserialize same "30" []
        ≡ err
            "Invalid duration format '30': is_ascii_digit cause error. Expected format like: 30d, 1h, 90m (supported units: s, m, h, d, w)")
    × (deserialize same "d" []
        ≡ err
            "Invalid duration format 'd': Parse int error: cannot parse integer from empty string. Expected format like: 30d, 1h, 90m (supported units: s, m, h, d, w)")
unfolding deserialize parse_u64 trim from
reads = (refl, refl, refl, refl)
