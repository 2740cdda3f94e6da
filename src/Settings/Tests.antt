-- ===== src/Settings/Tests.antt =====
-- Two administrators who read the same settings, for the theorems about misc.go and settings.go.
use singboxhub.Prelude.{◌≡◌, refl, true, false, none, some, [], ◌∷◌}
use singboxhub.Prelude.Int.{pos}
use singboxhub.Prelude.Bytes.{bytes_of}
use singboxhub.Settings.{
  Settings, Patch, json_number, conflict, update_settings, settings_etag, handle_update_settings,
  save_logo, write_all,
}
use singboxhub.Settings.Revision.{update_settings_once}
use singboxhub.Settings.Bounds.{IsBounded, handle_update_settings-IsBounded}

abbrev defaults : Settings
defaults = record {
  sampler_interval_seconds = pos 2;
  retention_days = pos 30;
  ip_lookup_enabled = true;
  ip_lookup_provider_url = bytes_of "http://ip-api.com/json";
  singbox_bin_path = [];
  favicon = [];
  logo = [];
  brand_name = bytes_of "sing-box hub";
  reset_cooldown_minutes = pos 10;
  icmp = record {
    monitor_enabled = false;
    monitor_target = bytes_of "8.8.8.8";
    monitor_interval_seconds = pos 60;
    auto_disable_threshold_ms = pos 2000;
    auto_disable_consecutive = pos 3;
  };
  updated_at = 0;
  revision = 1;
}

abbrev first : Settings
first = record defaults { retention_days = pos 90 }

abbrev second : Settings
second = record defaults { brand_name = bytes_of "hub" }

update_settings_once_example :
    let row' = write_all (save_logo 20 (1 ∷ 2 ∷ []) ∷ []) (update_settings 10 first defaults).1 in
    update_settings 30 second row' ≡ (conflict, row')
update_settings_once_example =
    update_settings_once 10 30 first second defaults (save_logo 20 (1 ∷ 2 ∷ []) ∷ []) refl refl

-- A patch that asks for 61 seconds.
abbrev patch : Patch
patch = record {
  sampler_interval_seconds = some (json_number (pos 61) false);
  retention_days = none;
  ip_lookup_enabled = none;
  ip_lookup_provider_url = none;
  singbox_bin_path = none;
  brand_name = none;
  reset_cooldown_minutes = none;
}

defaults-IsBounded : IsBounded defaults
defaults-IsBounded = ((refl, refl), (refl, refl))

handle_update_settings-IsBounded_example :
    IsBounded (handle_update_settings 10 (settings_etag 1) patch defaults defaults).1
handle_update_settings-IsBounded_example =
    handle_update_settings-IsBounded 10 (settings_etag 1) patch defaults defaults defaults-IsBounded
      defaults-IsBounded
