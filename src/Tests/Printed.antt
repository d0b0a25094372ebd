-- ===== src/Tests/Printed.antt =====
-- A printed configuration file, read back.
use wd_broker.Prelude.{◌≡◌, refl, true, some, [], ◌∷◌, arith}
use wd_broker.Text.{codes, all_bytes, is_print, is_space}
use wd_broker.Print.{print_nat}
use wd_broker.ConfigFile.{ok, parse_config}
use wd_broker.Settings.{Settings, IsAnnounced, IsLegal, Announced, print_settings, stored}
use wd_broker.Settings.RoundTrip.{parse_config-print_settings}
use wd_broker.Tests.Configuration.{world, build}

abbrev beta_section : Announced
beta_section = record { name = codes "beta"; timeout_ms = 7000 }

abbrev settings : Settings
settings = record {
  socket_path = codes "/run/wd.sock";
  wd_timeout_s = 20;
  reboot_timeout_s = 60;
  strict_clients = true;
  unique_clients = true;
  clients = beta_section ∷ [];
}

print_settings_value :
    print_settings settings
    ≡ codes
        "socket_path=/run/wd.sock\nwd_timeout_s=20\nreboot_timeout_s=60\nstrict_clients=true\nunique_clients=true\n[client beta]\ntimeout_ms=7000\n"
unfolding print_nat
print_settings_value = refl

beta-IsAnnounced : IsAnnounced beta_section
unfolding all_bytes is_print is_space
beta-IsAnnounced = record {
  named = λ e. cc;
  fits = omega arith;
  bytes = refl;
  timeout_min = omega arith;
  timeout_max = omega arith;
}

settings-IsLegal : IsLegal build settings
unfolding all_bytes is_print is_space
settings-IsLegal = record {
  path = λ e. cc;
  path_fits = omega arith;
  path_room = omega arith;
  path_bytes = refl;
  wd_min = omega arith;
  wd_max = omega arith;
  reboot_min = omega arith;
  reboot_max = omega arith;
  announced = (beta-IsAnnounced, tt);
  room = omega arith;
  some_client = λ e f. cc;
  distinct = λ e. (tt, tt);
}

parse_config-print_settings_example :
    parse_config world build (some (print_settings settings)) ≡ ok (stored world build settings)
parse_config-print_settings_example =
    parse_config-print_settings world build settings settings-IsLegal
