-- ===== src/Settings.antt =====
-- backend/internal/store/misc.go: the settings row, which is written only at the revision that was read;
-- backend/internal/api/settings.go: PATCH /settings over it.
pub mod Revision
pub mod Bounds
mod Tests
use singboxhub.Prelude.{
  ℕ, ◌+◌, String, Bool, true, false, not, ◌&&◌, ◌||◌, Option, none, some, List, [], ◌∷◌, ◌++◌, ltb,
  leb, ◌==◌, length, take, if◌then◌else◌,
}
use singboxhub.Prelude.Int.{ℤ, pos, ltb_ℤ}
use singboxhub.Prelude.Bytes.{bytes_of, eq_bytes}
use singboxhub.Prelude.Decimal.{print_decimal}

pub record IcmpSettings : Type 0 where
  pub monitor_enabled : Bool
  pub monitor_target : List ℕ
  pub monitor_interval_seconds : ℤ
  pub auto_disable_threshold_ms : ℤ
  pub auto_disable_consecutive : ℤ

-- The row `id = 1`. The monitor's columns, which no request changes, are one field.
pub record Settings : Type 0 where
  pub sampler_interval_seconds : ℤ
  pub retention_days : ℤ
  pub ip_lookup_enabled : Bool
  pub ip_lookup_provider_url : List ℕ
  pub singbox_bin_path : List ℕ
  pub favicon : List ℕ
  pub logo : List ℕ
  pub brand_name : List ℕ
  pub reset_cooldown_minutes : ℤ
  pub icmp : IcmpSettings
  pub updated_at : ℕ
  pub revision : ℕ

-- What `UpdateSettings` says: `ErrSettingsConflict`, or the settings as they are now.
pub data Updated : Type 0 where
  conflict : Updated
  updated : Settings → Updated

-- UPDATE … WHERE id = 1 AND revision = ?; the images are not among the columns written.
pub update_settings : ℕ → Settings → Settings → Updated × Settings
update_settings now st row =
    if row.revision == st.revision
    then (
      updated (record st { updated_at = now; revision = st.revision + 1 }),
      record st {
        favicon = row.favicon;
        logo = row.logo;
        updated_at = now;
        revision = row.revision + 1;
      },
    )
    else (conflict, row)

pub update_settings_logo : ℕ → List ℕ → Settings → Settings
update_settings_logo now image row = record row {
  logo = image;
  updated_at = now;
  revision = row.revision + 1;
}

pub update_settings_favicon : ℕ → List ℕ → Settings → Settings
update_settings_favicon now image row = record row {
  favicon = image;
  updated_at = now;
  revision = row.revision + 1;
}

-- A decoded JSON value. A number is its whole part and whether it has a fraction.
pub data Json : Type 0 where
  json_null : Json
  json_bool : Bool → Json
  json_number : ℤ → Bool → Json
  json_string : List ℕ → Json
  json_other : Json

-- The members of the body that the handler reads; `none` is an absent one.
pub record Patch : Type 0 where
  pub sampler_interval_seconds : Option Json
  pub retention_days : Option Json
  pub ip_lookup_enabled : Option Json
  pub ip_lookup_provider_url : Option Json
  pub singbox_bin_path : Option Json
  pub brand_name : Option Json
  pub reset_cooldown_minutes : Option Json

abbrev pub is_integer_within : ℕ → ℕ → Json → Bool
is_integer_within low high (json_number n fraction) =
    not (ltb_ℤ n (pos low)) && (not (ltb_ℤ (pos high) n) && not fraction)
is_integer_within low high _ = false

abbrev pub is_bool : Json → Bool
is_bool (json_bool b) = true
is_bool _ = false

-- `len(s) > 8 && (s[:7] == "http://" || len(s) > 8 && s[:8] == "https://")`
abbrev pub is_http_url : Json → Bool
is_http_url (json_string s) =
    ltb 8 (length s)
    && (eq_bytes (take 7 s) (bytes_of "http://") || eq_bytes (take 8 s) (bytes_of "https://"))
is_http_url _ = false

abbrev pub is_string_or_null : Json → Bool
is_string_or_null (json_string s) = true
is_string_or_null json_null = true
is_string_or_null _ = false

abbrev pub when_present : (Json → Bool) → Option Json → Bool
when_present test none = true
when_present test (some v) = test v

-- `validateSettingsPatch` finds no error.
pub is_valid_patch : Patch → Bool
unfolding eq_bytes
is_valid_patch p =
    when_present (is_integer_within 2 60) p.sampler_interval_seconds
    && (when_present (is_integer_within 1 365) p.retention_days
        && (when_present is_bool p.ip_lookup_enabled
            && (when_present is_http_url p.ip_lookup_provider_url
                && when_present is_string_or_null p.singbox_bin_path)))

-- `int(v.(float64))`, `v.(bool)` and `v.(string)`, of a value that has the type.
abbrev pub number_or : ℤ → Option Json → ℤ
number_or old (some (json_number n fraction)) = n
number_or old _ = old

abbrev pub bool_or : Bool → Option Json → Bool
bool_or old (some (json_bool b)) = b
bool_or old _ = old

abbrev pub string_or : List ℕ → Option Json → List ℕ
string_or old (some (json_string s)) = s
string_or old _ = old

-- A string, or null for the empty one.
abbrev pub text_or : List ℕ → Option Json → List ℕ
text_or old (some json_null) = []
text_or old v = string_or old v

abbrev pub is_number : Json → Bool
is_number (json_number n fraction) = true
is_number _ = false

pub apply_patch : Patch → Settings → Settings
apply_patch p st = record st {
  sampler_interval_seconds = number_or st.sampler_interval_seconds p.sampler_interval_seconds;
  retention_days = number_or st.retention_days p.retention_days;
  ip_lookup_enabled = bool_or st.ip_lookup_enabled p.ip_lookup_enabled;
  ip_lookup_provider_url = string_or st.ip_lookup_provider_url p.ip_lookup_provider_url;
  singbox_bin_path = text_or st.singbox_bin_path p.singbox_bin_path;
  brand_name = text_or st.brand_name p.brand_name;
  reset_cooldown_minutes = number_or st.reset_cooldown_minutes p.reset_cooldown_minutes;
}

pub settings_etag : ℕ → List ℕ
unfolding print_decimal
settings_etag revision = bytes_of "\"settings-r" ++ (print_decimal revision ++ bytes_of "\"")

pub data Response : Type 0 where
  precondition_required precondition_failed invalid : Response
  ok : Settings → Response

abbrev pub respond : Updated × Settings → Response × Settings
respond (conflict, row) = (precondition_failed, row)
respond (updated st, row) = (ok st, row)

-- `handleUpdateSettings`: `st` is the row as the handler read it, `row` the one that it writes to; the body has
-- been decoded.
pub handle_update_settings : ℕ → List ℕ → Patch → Settings → Settings → Response × Settings
unfolding eq_bytes is_valid_patch apply_patch update_settings settings_etag
handle_update_settings now if_match p st row =
    if eq_bytes if_match []
    then (precondition_required, row)
    else if not (eq_bytes if_match (settings_etag st.revision))
    then (precondition_failed, row)
    else if not (is_valid_patch p)
    then (invalid, row)
    else if not (when_present is_string_or_null p.brand_name)
    then (invalid, row)
    else if not (when_present is_number p.reset_cooldown_minutes)
    then (invalid, row)
    else respond (update_settings now (apply_patch p st) row)

-- The writes of the settings row, by any request, in the order in which the database makes them.
pub data Write : Type 0 where
  save : ℕ → Settings → Write
  save_logo save_favicon : ℕ → List ℕ → Write

pub write : Write → Settings → Settings
unfolding update_settings update_settings_logo update_settings_favicon
write (save now st) row = (update_settings now st row).1
write (save_logo now image) row = update_settings_logo now image row
write (save_favicon now image) row = update_settings_favicon now image row

pub write_all : List Write → Settings → Settings
unfolding write
write_all [] row = row
write_all (w ∷ ws) row = write_all ws (write w row)
