-- ===== src/SlWifiConn/Profile.antt =====
-- slwificonn.c, the saved profile: `SlWifiConn_addProfile` packs its arguments into one block of
-- memory, `profile_t` with the byte strings behind it, and the PROFILE_* macros find them again.
use tisdk_cc32xx_issues.Prelude.{
  ℕ, ◌%◌, ◌++◌, List, [], Bool, true, false, Option, none, some, length, take, drop, ◌==◌,
  if◌then◌else◌,
}
use tisdk_cc32xx_issues.SlWifiConn.Types.{ExtHeader, SecExt, SecParams, ProfileArgs, Profile, Sdk}

-- PROFILE_SSID
unfoldable pub profile_ssid : Profile → List ℕ
profile_ssid p = take p.ssid_len p.tail

-- PROFILE_PASSWORD
unfoldable pub profile_password : Profile → List ℕ
profile_password p = take p.key_len (drop p.ssid_len p.tail)

-- PROFILE_USER
unfoldable pub profile_user : Profile → List ℕ
profile_user p = take p.ext.user_len (drop p.key_len (drop p.ssid_len p.tail))

-- PROFILE_ANON_USER
unfoldable pub profile_anon_user : Profile → List ℕ
profile_anon_user p =
    take p.ext.anon_user_len (drop p.ext.user_len (drop p.key_len (drop p.ssid_len p.tail)))

-- The arguments that sl_WlanConnect and sl_WlanProfileAdd get of a saved profile
unfoldable pub saved_args : Sdk → Profile → ProfileArgs
unfolding profile_ssid profile_password profile_user profile_anon_user
saved_args sdk p = record {
  ssid = profile_ssid p;
  bssid = if p.set_bssid then some p.bssid else none;
  sec = some (record { sec_type = p.sec_type; key = profile_password p });
  ext =
      if p.sec_type == sdk.sec_type_wpa_ent
      then some (record {
        user = profile_user p;
        anon_user = profile_anon_user p;
        cert_index = p.ext.cert_index;
        eap_method = p.ext.eap_method;
      })
      else none;
}

-- The address that the block holds: unset bytes are taken as none.
abbrev pub bssid_bytes : Option (List ℕ) → List ℕ
bssid_bytes none = []
bssid_bytes (some b) = b

abbrev pub has_bssid : Option (List ℕ) → Bool
has_bssid none = false
has_bssid (some b) = true

-- The extended parameters in the block: without any they keep what malloc left there.
abbrev pub ext_header : ExtHeader → Option SecExt → ExtHeader
ext_header junk none = junk
ext_header junk (some e) = record {
  user_len = length e.user;
  anon_user_len = length e.anon_user;
  cert_index = e.cert_index;
  eap_method = e.eap_method;
}

abbrev pub ext_bytes : Option SecExt → List ℕ
ext_bytes none = []
ext_bytes (some e) = e.user ++ e.anon_user

-- The block that SlWifiConn_addProfile fills. `ssidLen` is a uint16_t and its copy a uint8_t.
unfoldable pub pack_profile :
    Sdk → ExtHeader → List ℕ → Option (List ℕ) → Option SecParams → Option SecExt → ℕ → Profile
pack_profile sdk junk ssid mac none ext prio = record {
  ssid_len = length ssid % 256;
  set_bssid = has_bssid mac;
  bssid = bssid_bytes mac;
  sec_type = sdk.sec_type_open;
  key_len = 0;
  ext = junk;
  priority = prio % 256;
  tail = ssid;
}
pack_profile sdk junk ssid mac (some sec) ext prio = record {
  ssid_len = length ssid % 256;
  set_bssid = has_bssid mac;
  bssid = bssid_bytes mac;
  sec_type = sec.sec_type;
  key_len = length sec.key;
  ext = ext_header junk ext;
  priority = prio % 256;
  tail = ssid ++ sec.key ++ ext_bytes ext;
}
