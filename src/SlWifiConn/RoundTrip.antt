-- ===== src/SlWifiConn/RoundTrip.antt =====
-- slwificonn.c, a profile that is packed and read back.
use tisdk_cc32xx_issues.Prelude.{
  ℕ, ◌≡◌, ◌≢◌, ◌<◌, refl, ◌∷◌, ◌++◌, [], List, length, take, drop, Option, none, some, arith, ap,
}
use mathlib.Core.List.{append_assoc}
use native.Mathlib.Nat.{mod-eq_of_lt}
use tisdk_cc32xx_issues.SlWifiConn.Types.{ExtHeader, SecExt, SecParams, Sdk}
use tisdk_cc32xx_issues.SlWifiConn.Profile.{saved_args, pack_profile}

module _ {ℓ} {A : Type ℓ} where
  take-append : (xs ys : List A) → take (length xs) (xs ++ ys) ≡ xs
  take-append [] ys = refl
  take-append (x ∷ xs) ys = ap (◌∷◌ x) (take-append xs ys)

  drop-append : (xs ys : List A) → drop (length xs) (xs ++ ys) ≡ ys
  drop-append [] ys = refl
  drop-append (x ∷ xs) ys = drop-append xs ys

  take-length : (xs : List A) → take (length xs) xs ≡ xs
  take-length [] = refl
  take-length (x ∷ xs) = ap (◌∷◌ x) (take-length xs)

-- The arguments that SlWifiConn_addProfile accepts: extended parameters go with WPA enterprise.
abbrev pub FitsSecurity : Sdk → SecParams → Option SecExt → Type 0
FitsSecurity sdk sec none = sec.sec_type ≢ sdk.sec_type_wpa_ent
FitsSecurity sdk sec (some e) = sec.sec_type ≡ sdk.sec_type_wpa_ent

-- What SlWifiConn_addProfile saves and the PROFILE_* macros find again: the SSID, the address, the
-- security parameters with the key, and the extended parameters with both user names are those that
-- were given, whatever the fresh memory held, if the SSID has fewer than 256 bytes and extended
-- parameters are given exactly for WPA enterprise.
pub saved_args-pack_profile :
    (sdk : Sdk) (junk : ExtHeader) (ssid : List ℕ) (mac : Option (List ℕ)) (sec : SecParams)
    (ext : Option SecExt) (prio : ℕ)
    → length ssid < 256
    → FitsSecurity sdk sec ext
    → saved_args sdk (pack_profile sdk junk ssid mac (some sec) ext prio)
      ≡ record { ssid = ssid; bssid = mac; sec = some sec; ext = ext }
unfolding saved_args pack_profile
saved_args-pack_profile sdk junk ssid mac sec none prio h f = ground (
  arith,
  mod-eq_of_lt h,
  append_assoc ssid sec.key [],
  take-append ssid (sec.key ++ []),
  drop-append ssid (sec.key ++ []),
  take-append sec.key [],
)
saved_args-pack_profile sdk junk ssid mac sec (some e) prio h f = ground (
  arith,
  mod-eq_of_lt h,
  append_assoc ssid sec.key (e.user ++ e.anon_user),
  take-append ssid (sec.key ++ (e.user ++ e.anon_user)),
  drop-append ssid (sec.key ++ (e.user ++ e.anon_user)),
  take-append sec.key (e.user ++ e.anon_user),
  drop-append sec.key (e.user ++ e.anon_user),
  take-append e.user e.anon_user,
  drop-append e.user e.anon_user,
  take-length e.anon_user,
)
